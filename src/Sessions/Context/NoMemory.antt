-- ===== src/Sessions/Context/NoMemory.antt =====
-- `SSL_CTX_add_session` of ssl/ssl_sess.c when the table has no memory.
use openssl_3_0_bee2evp.Prelude.{
  ℕ, suc, ◌≤◌, ◌≡◌, ◌∙◌, refl, sym, ap, subst, true, false, none, some, List, arith, length,
  Bool-cases, inl, inr,
}
use openssl_3_0_bee2evp.Prelude.Int.{ℤ}
use openssl_3_0_bee2evp.Sessions.{Cache, write, calculate_timeout}
use openssl_3_0_bee2evp.Sessions.Linked.{IsList}
use openssl_3_0_bee2evp.Sessions.Place.{place, IsOrdered}
use openssl_3_0_bee2evp.Sessions.Remove.{delete-absent}
use openssl_3_0_bee2evp.Sessions.Add.{list_add-IsAdded}
use openssl_3_0_bee2evp.Sessions.Context.{
  key, Table, Context, change, free, up_ref, touch, key_of, settle, finish_add, add_session,
}
use openssl_3_0_bee2evp.Sessions.Context.Index.{IsTable, listed}
use openssl_3_0_bee2evp.Sessions.Context.Held.{
  IsCache, up_ref-IsQuiet, free-IsQuiet, change-IsHeld, write-keys, IsList-same, write-SameLinks,
}
use openssl_3_0_bee2evp.Sessions.Context.Insert.{
  touch-IsList, touch-IsOrdered, key-touch, touch_sessions,
}

-- The session is in the list and not in the table, and nobody has a reference for the list.
pub record IsStranded {H : Type 0} (t : Table H) (n : ℕ) (now : ℤ) (x : ℕ) (g : Context H)
    (xs : List ℕ) (g' : Context H) : Type 0 where
  pub returns : add_session t true n now x g ≡ some (g', false)
  pub is_list : IsList g'.cache (place (touch now x (change x up_ref g)).cache x xs)
  pub not_in_table : t.retrieve g'.sessions (key_of t g' x) ≡ none
  pub references : (g'.cache.heap x).references ≡ (g.cache.heap x).references

touched_references :
    {H : Type 0} (now : ℤ) (x : ℕ) (g : Context H)
    → ((touch now x g).cache.heap x).references ≡ (g.cache.heap x).references
unfolding write calculate_timeout
touched_references now x g = ground arith

up_references :
    {H : Type 0} (x : ℕ) (g : Context H)
    → ((change x up_ref g).cache.heap x).references ≡ suc (g.cache.heap x).references
unfolding write
up_references x g = ground arith

free_references :
    (x m : ℕ) (c : Cache) → (c.heap x).references ≡ suc m → ((write x free c).heap x).references ≡ m
unfolding write
free_references x m c e = ground (arith, e)

module _ {H : Type 0} (t : Table H) (laws : IsTable t) (n : ℕ) (now : ℤ) (x : ℕ) (g : Context H)
    (xs : List ℕ) (held : IsCache t g xs) (no_memory : t.has_memory g.sessions ≡ false)
    (new : t.retrieve g.sessions (key_of t g x) ≡ none) (enough : length xs ≤ n) where
  abbrev g1 : Context H
  g1 = change x up_ref g

  missing : t.retrieve g.sessions (key_of t g1 x) ≡ none
  missing = ap (t.retrieve g.sessions) (write-keys x up_ref g.cache (λ s. refl) x) ∙ new

  absent : listed x xs ≡ false
  absent = elim (Bool-cases (listed x xs)) [
    | inl here ↦ absurd (ground (arith, new, held.indexed.holds x here))
    | inr other ↦ other
  ]

  unfold_add : add_session t true n now x g ≡ finish_add t n now x g1 (some x)
  unfolding add_session
  unfold_add =
      let fails = laws.insert_fails g.sessions (key_of t g1 x) x no_memory in
      let settles : settle t x none g1 ≡ some (g1, some x) = rw (missing, settle) refl in
      rw (fails, settles) refl

  -- `SSL_CTX_add_session` of a new session, when the insertion into the table fails for lack of memory,
  -- returns 0 and leaves the table without the session and its references as many as they were, but the
  -- session is in the list.
  pub add_session-IsStranded : (g' : Context H) × IsStranded t n now x g xs g'
  add_session-IsStranded =
      let held1 = change-IsHeld t g xs xs x up_ref up_ref-IsQuiet held in
      let g4 = touch now x g1 in
      let e = delete-absent x xs absent in
      let ordered =
        subst (IsOrdered g4.cache) (sym e) (touch-IsOrdered now x g1 xs absent held1.ordered) in
      let (c, is_added) =
        list_add-IsAdded n x g4.cache xs (touch-IsList now x g1 xs held1.is_list) ordered enough in
      let g' = change x free (record g4 { cache = c }) in
      let listed_after = subst (λ ws. IsList c (place g4.cache x ws)) e is_added.is_list in
      let key_after : key_of t g' x ≡ key_of t g1 x =
        write-keys x free c (λ s. refl) x
        ∙ ap key (is_added.same_rest.same x)
        ∙ key-touch now x g1 x in
      let counted : (c.heap x).references ≡ suc (g.cache.heap x).references =
        ap (λ s. s.references) (is_added.same_rest.same x)
        ∙ touched_references now x g1
        ∙ up_references x g in
      (
        g',
        record {
          returns = unfold_add ∙ rw (is_added.returns) refl;
          is_list =
              IsList-same c (write x free c) (write-SameLinks x free c free-IsQuiet.links)
                (place g4.cache x xs) listed_after;
          not_in_table =
              ap (λ h. t.retrieve h (key_of t g' x)) (touch_sessions now x g1)
              ∙ ap (t.retrieve g.sessions) key_after
              ∙ missing;
          references = free_references x (g.cache.heap x).references c counted;
        },
      )
