-- ===== src/Sessions/Context/Drop.antt =====
-- A session is taken out of the table and the list: `remove_session_lock` of ssl/ssl_sess.c.
use openssl_3_0_bee2evp.Prelude.{ℕ, ◌≡◌, ◌∙◌, refl, ap, true, false, Option, none, some, List}
use openssl_3_0_bee2evp.Sessions.{write, session, Cache, list_remove}
use openssl_3_0_bee2evp.Sessions.Linked.{rest_of, IsRepeatFree, SameRest}
use openssl_3_0_bee2evp.Sessions.Place.{IsOrdered-same}
use openssl_3_0_bee2evp.Sessions.Remove.{delete, list_remove-IsList}
use openssl_3_0_bee2evp.Sessions.Context.{
  key, Table, Context, change, free, unresumable, is_empty, key_of, take_out, remove_session,
}
use openssl_3_0_bee2evp.Sessions.Context.Index.{IsTable, listed, delete-IsIndexed}
use openssl_3_0_bee2evp.Sessions.Context.Held.{
  IsHeld, free-IsQuiet, unresumable-IsQuiet, change-IsHeld, delete-IsOrdered, IsIndexed-same,
}
use openssl_3_0_bee2evp.Sessions.Context.Core.{
  SameCore, SameCore-trans, SameRest-SameCore, write-SameCore,
}

-- The context without a session in its table.
abbrev pub dropped : {H : Type 0} → Table H → Context H → ℕ → Cache → Context H
dropped t g a c = record g { cache = c; sessions = (t.delete g.sessions (key_of t g a)).0 }

-- The context after the removal, for a pointer `x`, of the session `r`.
abbrev pub left_by : {H : Type 0} → Table H → Context H → ℕ → ℕ → Cache → Context H
left_by t g x r c = change r free (change x unresumable (dropped t g r c))

-- What taking a session out of the table and the list leaves.
pub record IsDropped {H : Type 0} (t : Table H) (g : Context H) (xs ys : List ℕ) (a : ℕ) (c : Cache)
    : Type 0 where
  pub returns : list_remove a g.cache ≡ some c
  pub held_after : IsHeld t (dropped t g a c) (delete a xs) (delete a ys)
  pub same_rest : SameRest g.cache c

-- What the removal of a session leaves.
pub record IsRemoved {H : Type 0} (t : Table H) (g : Context H) (xs ys : List ℕ) (x r : ℕ)
    (c : Cache) : Type 0 where
  pub returns : remove_session t (session x) g ≡ some (left_by t g x r c, true)
  pub held_after : IsHeld t (left_by t g x r c) (delete r xs) (delete r ys)
  pub same_core : SameCore g.cache (left_by t g x r c).cache

-- Table and list, without a session.
module _ {H : Type 0} (t : Table H) (laws : IsTable t) (g : Context H) (xs ys : List ℕ)
    (held : IsHeld t g xs ys) (free_ys : IsRepeatFree (rest_of ys)) (a : ℕ)
    (there : listed a ys ≡ true) where
  pub drop-IsDropped : (c : Cache) × IsDropped t g xs ys a c
  drop-IsDropped =
      let (c, returns, is_list, same) = list_remove-IsList a g.cache xs held.is_list in
      (
        c,
        record {
          returns = returns;
          held_after = record {
            is_list = is_list;
            ordered =
                IsOrdered-same g.cache c same (delete a xs)
                  (delete-IsOrdered g.cache a xs held.ordered);
            indexed =
                IsIndexed-same t g.cache c (t.delete g.sessions (key_of t g a)).0 (delete a ys)
                  (delete a ys) (λ a. ap key (same.same a)) (λ a. refl) refl
                  (delete-IsIndexed t laws g.cache g.sessions ys held.indexed a there free_ys);
          };
          same_rest = same;
        },
      )

-- The pointer is to a session with a name that is in the table.
module _ {H : Type 0} (t : Table H) (laws : IsTable t) (g : Context H) (xs ys : List ℕ)
    (held : IsHeld t g xs ys) (free_ys : IsRepeatFree (rest_of ys)) where
  unfold_remove :
      (x : ℕ)
      → is_empty (g.cache.heap x).session_id ≡ false
      → (old : Option ℕ) → t.retrieve g.sessions (key_of t g x) ≡ old
      → remove_session t (session x) g
        ≡ (elim old [ none ↦ some (change x unresumable g, false) | some r ↦ take_out t x r g ])
  unfolding remove_session
  unfold_remove x name old e = rw (name, e) refl

  unfold_take_out :
      (x r : ℕ) (c : Cache)
      → (t.delete g.sessions (key_of t g r)).1 ≡ some r
      → list_remove r g.cache ≡ some c
      → take_out t x r g ≡ some (left_by t g x r c, true)
  unfold_take_out x r c e removes = rw (e, removes) refl

  -- Another session with the same key may be the one that is removed.
  pub remove_session-IsRemoved :
      (x r : ℕ)
      → is_empty (g.cache.heap x).session_id ≡ false
      → t.retrieve g.sessions (key_of t g x) ≡ some r
      → (c : Cache) × IsRemoved t g xs ys x r c
  remove_session-IsRemoved x r name e =
      let (there, same_key) = held.indexed.only (key_of t g x) r e in
      let (c, is_dropped) = drop-IsDropped t laws g xs ys held free_ys r there in
      let deleted =
        laws.delete_returns g.sessions (key_of t g r) ∙ ap (t.retrieve g.sessions) same_key ∙ e in
      (
        c,
        record {
          returns =
              unfold_remove x name (some r) e ∙ unfold_take_out x r c deleted is_dropped.returns;
          held_after =
              change-IsHeld t (change x unresumable (dropped t g r c)) (delete r xs) (delete r ys) r
                free free-IsQuiet
                (change-IsHeld t (dropped t g r c) (delete r xs) (delete r ys) x unresumable
                  unresumable-IsQuiet is_dropped.held_after);
          same_core =
              SameCore-trans g.cache (write x unresumable c) (write r free (write x unresumable c))
                (SameCore-trans g.cache c (write x unresumable c)
                  (SameRest-SameCore g.cache c is_dropped.same_rest)
                  (write-SameCore x unresumable c (λ s. refl)))
                (write-SameCore r free (write x unresumable c) (λ s. refl));
        },
      )
