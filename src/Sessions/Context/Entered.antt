-- ===== src/Sessions/Context/Entered.antt =====
-- `SSL_CTX_add_session` of ssl/ssl_sess.c as a whole.
use openssl_3_0_bee2evp.Prelude.{
  ℕ, ◌<◌, ◌≡◌, ◌∙◌, refl, ap, Bool, true, false, not, Option, none, some, List, ◌∷◌, ◌==◌, length,
  arith, Bool-cases, inl, inr, if◌then◌else◌,
}
use openssl_3_0_bee2evp.Prelude.Int.{ℤ}
use openssl_3_0_bee2evp.Sessions.Place.{IsOrdered-same}
use openssl_3_0_bee2evp.Sessions.Remove.{delete, list_remove-IsList}
use openssl_3_0_bee2evp.Sessions.Add.{delete-length}
use openssl_3_0_bee2evp.Sessions.Context.{
  key, Table, Context, change, free, up_ref, touch, finish_add, key_of, settle, add_session,
  is_empty,
}
use openssl_3_0_bee2evp.Sessions.Context.Index.{IsTable, listed, IsIndexed, same_key_refl}
use openssl_3_0_bee2evp.Sessions.Context.Inserted.{others, others_absent, inserted-IsIndexed}
use openssl_3_0_bee2evp.Sessions.Context.Held.{
  IsHeld, IsCache, IsIndexed-same, write-keys, free-IsQuiet, up_ref-IsQuiet, change-IsHeld,
  delete-IsOrdered,
}
use openssl_3_0_bee2evp.Sessions.Context.Core.{
  SameCore, SameCore-trans, write-SameCore, SameRest-SameCore,
}
use openssl_3_0_bee2evp.Sessions.Context.Insert.{touch-SameCore, room}
use openssl_3_0_bee2evp.Sessions.Context.Adding.{IsEntered, finish_new, finish_again}

-- The sessions that stay, besides the one that is added, if the table has `old` under its key.
abbrev pub survivors : ℕ → ℕ → Option ℕ → List ℕ → List ℕ
survivors size x none xs = room size xs
survivors size x (some s) xs = if s == x then delete x xs else room size (delete s xs)

abbrev pub is_new : ℕ → Option ℕ → Bool
is_new x none = true
is_new x (some s) = not (s == x)

module _ {H : Type 0} (t : Table H) (laws : IsTable t) (n : ℕ) (now : ℤ) (x : ℕ) (g : Context H)
    (xs : List ℕ) (held : IsCache t g xs) (memory : t.has_memory g.sessions ≡ true)
    (name : is_empty (g.cache.heap x).session_id ≡ false) (enough : length xs < n) where
  abbrev g1 : Context H
  g1 = change x up_ref g

  -- The context once the session is in the table.
  abbrev g2 : Context H
  g2 = record g1 { sessions = (t.insert g.sessions (key_of t g1 x) x).0 }

  key_same : (a : ℕ) → key_of t g1 a ≡ key_of t g a
  key_same a = write-keys x up_ref g.cache (λ s. refl) a

  held1 : IsCache t g1 xs
  held1 = change-IsHeld t g xs xs x up_ref up_ref-IsQuiet held

  unfold_add :
      (old kept : Option ℕ) (g3 : Context H)
      → t.retrieve g.sessions (key_of t g1 x) ≡ old
      → settle t x old g2 ≡ some (g3, kept)
      → add_session t true n now x g ≡ finish_add t n now x g3 kept
  unfolding add_session
  unfold_add old kept g3 e settles =
      let returned = laws.insert_returns g.sessions (key_of t g1 x) x memory ∙ e in
      rw (returned, settles) refl

  -- What the parts of a call leave, seen from its beginning.
  entered :
      (r : Option (Context H × Bool)) (g3 : Context H) (stay : List ℕ) (new : Bool)
      → add_session t true n now x g ≡ r
      → g3.update_time ≡ g.update_time
      → SameCore g.cache g3.cache
      → (g' : Context H) × IsEntered t r g3 now x stay new g'
      → (g' : Context H) × IsEntered t (add_session t true n now x g) g now x stay new g'
  entered r g3 stay new e settings same (g', is_entered) = (
    g',
    record {
      returns = e ∙ is_entered.returns;
      cached = is_entered.cached;
      same_core =
          SameCore-trans (touch now x g).cache (touch now x g3).cache g'.cache
            (touch-SameCore now x g g3 settings same) is_entered.same_core;
    },
  )

  name1 : is_empty (g1.cache.heap x).session_id ≡ false
  name1 = ap (λ k. is_empty k.session_id) (key_same x) ∙ name

  same1 : SameCore g.cache g1.cache
  same1 = write-SameCore x up_ref g.cache (λ s. refl)

  module _ (old : Option ℕ) (e : t.retrieve g.sessions (key_of t g1 x) ≡ old) where
    indexed2 : IsIndexed t g1.cache g2.sessions (x ∷ others old xs)
    indexed2 =
        inserted-IsIndexed t laws g1.cache g.sessions xs held1.indexed (held.is_list.repeat_free.1)
          x memory name1 old e

    absent : listed x (others old xs) ≡ false
    absent =
        others_absent t laws g1.cache g.sessions xs held1.indexed (held.is_list.repeat_free.1) x
          memory name1 old e

  stored : t.retrieve g2.sessions (key_of t g1 x) ≡ some x
  stored =
      laws.retrieve_insert g.sessions (key_of t g1 x) x (key_of t g1 x) memory
      ∙ rw (same_key_refl (key_of t g1 x)) refl

  case_new :
      t.retrieve g.sessions (key_of t g1 x) ≡ none
      → (g' : Context H) × IsEntered t
          (add_session t true n now x g)
          g
          now
          x
          (room g.session_cache_size xs)
          true
          g'
  case_new e =
      let held2 : IsHeld t g2 xs (x ∷ xs) = record {
        is_list = held1.is_list;
        ordered = held1.ordered;
        indexed = indexed2 none e;
      } in
      entered (finish_add t n now x g2 none) g2 (room g.session_cache_size xs) true
        (unfold_add none none g2 e (rw (stored, settle) refl)) refl same1
        (finish_new t laws n now x g2 xs held2 (absent none e, held.is_list.repeat_free.1) enough)

  case_again :
      (s : ℕ)
      → t.retrieve g.sessions (key_of t g1 x) ≡ some s
      → (s == x) ≡ true
      → (g' : Context H) × IsEntered t (add_session t true n now x g) g now x (delete x xs) false g'
  case_again s e here =
      let one : s ≡ x = ground (arith, here) in
      let e' = e ∙ ap some one in
      entered (finish_add t n now x g2 (some x)) g2 (delete x xs) false
        (unfold_add (some x) (some x) g2 e' (ground arith)) refl same1
        (finish_again t laws n now x g2 xs held1.is_list
          (delete-IsOrdered g1.cache x xs held1.ordered) (indexed2 (some x) e') enough)

  case_replaced :
      (s : ℕ)
      → t.retrieve g.sessions (key_of t g1 x) ≡ some s
      → (s == x) ≡ false
      → (g' : Context H) × IsEntered t
          (add_session t true n now x g)
          g
          now
          x
          (room g.session_cache_size (delete s xs))
          true
          g'
  case_replaced s e other =
      let ws = delete s xs in
      let (c, removes, is_list, same) = list_remove-IsList s g1.cache xs held1.is_list in
      let g4 = record g2 { cache = c } in
      let held4 : IsHeld t g4 ws (x ∷ ws) = record {
        is_list = is_list;
        ordered = IsOrdered-same g1.cache c same ws (delete-IsOrdered g1.cache s xs held1.ordered);
        indexed =
            IsIndexed-same t g1.cache c g2.sessions (x ∷ ws) (x ∷ ws) (λ a. ap key (same.same a))
              (λ a. refl) refl (indexed2 (some s) e);
      } in
      let g3 = change s free g4 in
      let held3 = change-IsHeld t g4 ws (x ∷ ws) s free free-IsQuiet held4 in
      let same3 = SameCore-trans g.cache g1.cache g3.cache same1 (
        SameCore-trans g1.cache c g3.cache (SameRest-SameCore g1.cache c same)
          (write-SameCore s free c (λ s. refl))) in
      entered (finish_add t n now x g3 none) g3 (room g.session_cache_size ws) true
        (unfold_add (some s) none g3 e (rw (other, removes) refl)) refl same3
        (finish_new t laws n now x g3 ws held3 (absent (some s) e, is_list.repeat_free.1)
          (omega (arith, enough, delete-length s xs)))

  by_found :
      (old : Option ℕ)
      → t.retrieve g.sessions (key_of t g1 x) ≡ old
      → (g' : Context H) × IsEntered t
          (add_session t true n now x g)
          g
          now
          x
          (survivors g.session_cache_size x old xs)
          (is_new x old)
          g'
  by_found none e = case_new e
  by_found (some s) e = elim (Bool-cases (s == x)) [
    | inl here ↦ rw here (case_again s e here)
    | inr other ↦ rw other (case_replaced s e other)
  ]

  -- `SSL_CTX_add_session`, on a cache whose list and table agree, with the lock taken and memory for the
  -- table, and a session with a name, follows no bad pointer and its loops end. List and table hold
  -- afterwards the session, in its place by the timeouts, and these others: all but one with the same
  -- key, and, if the call returns 1 and the size of the cache is not 0, of them the first `size - 2` at
  -- most. It returns 0 if and only if this very session was there. Keys and timeouts are what they
  -- were, but for the new time of the session.
  pub add_session-IsEntered :
      (g' : Context H) × IsEntered t
        (add_session t true n now x g)
        g
        now
        x
        (survivors g.session_cache_size x (t.retrieve g.sessions (key_of t g x)) xs)
        (is_new x (t.retrieve g.sessions (key_of t g x)))
        g'
  add_session-IsEntered =
      by_found (t.retrieve g.sessions (key_of t g x)) (ap (t.retrieve g.sessions) (key_same x))
