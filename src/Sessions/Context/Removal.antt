-- ===== src/Sessions/Context/Removal.antt =====
-- `remove_session_lock` of ssl/ssl_sess.c on a cache whose list and table agree.
use openssl_3_0_bee2evp.Prelude.{
  ℕ, ◌≡◌, refl, true, false, Option, none, some, List, arith, Bool-cases, inl, inr, if◌then◌else◌,
}
use openssl_3_0_bee2evp.Sessions.{session, Cache, write}
use openssl_3_0_bee2evp.Sessions.Context.{
  Table, Context, change, free, unresumable, is_empty, key_of, remove_session,
}
use openssl_3_0_bee2evp.Sessions.Context.Index.{IsTable, is_some}
use openssl_3_0_bee2evp.Sessions.Context.Inserted.{others}
use openssl_3_0_bee2evp.Sessions.Context.Held.{IsCache, unresumable-IsQuiet, change-IsHeld}
use openssl_3_0_bee2evp.Sessions.Context.Drop.{left_by, remove_session-IsRemoved}

-- The session that is removed: the one that the table has under the key, if the name is not empty.
abbrev pub removed_by : {H : Type 0} → Table H → Context H → ℕ → Option ℕ
removed_by t g x =
    if is_empty (g.cache.heap x).session_id then none else t.retrieve g.sessions (key_of t g x)

pub record IsWithout {H : Type 0} (t : Table H) (g : Context H) (xs : List ℕ) (x : ℕ)
    (old : Option ℕ) (g' : Context H) : Type 0 where
  pub returns : remove_session t (session x) g ≡ some (g', is_some old)
  pub cached : IsCache t g' (others old xs)
  pub marked : is_empty (g.cache.heap x).session_id ≡ false → (g'.cache.heap x).not_resumable ≡ true

write_marks : (x : ℕ) (c : Cache) → ((write x unresumable c).heap x).not_resumable ≡ true
unfolding write
write_marks x c = ground arith

free_keeps_mark :
    (x r : ℕ) (c : Cache)
    → (c.heap x).not_resumable ≡ true
    → ((write r free c).heap x).not_resumable ≡ true
unfolding write
free_keeps_mark x r c e = ground (arith, e)

module _ {H : Type 0} (t : Table H) (laws : IsTable t) (g : Context H) (xs : List ℕ) (x : ℕ)
    (held : IsCache t g xs) where
  nameless :
      is_empty (g.cache.heap x).session_id ≡ true → remove_session t (session x) g ≡ some (g, false)
  unfolding remove_session
  nameless e = rw e refl

  not_found :
      is_empty (g.cache.heap x).session_id ≡ false
      → t.retrieve g.sessions (key_of t g x) ≡ none
      → remove_session t (session x) g ≡ some (change x unresumable g, false)
  unfolding remove_session
  not_found e e' = rw (e, e') refl

  by_found :
      (old : Option ℕ)
      → is_empty (g.cache.heap x).session_id ≡ false
      → t.retrieve g.sessions (key_of t g x) ≡ old
      → (g' : Context H) × IsWithout t g xs x old g'
  by_found none name e = (
    change x unresumable g,
    record {
      returns = not_found name e;
      cached = change-IsHeld t g xs xs x unresumable unresumable-IsQuiet held;
      marked = λ named. write_marks x g.cache;
    },
  )
  by_found (some r) name e =
      let (c, gone) =
        remove_session-IsRemoved t laws g xs xs held (held.is_list.repeat_free.1) x r name e in
      (
        left_by t g x r c,
        record {
          returns = gone.returns;
          cached = gone.held_after;
          marked = λ named. free_keeps_mark x r (write x unresumable c) (write_marks x c);
        },
      )

  -- `SSL_CTX_remove_session` of a session, on a cache whose list and table agree, follows no bad pointer.
  -- If the session has a name, then the one that the table has under its key, if any, is taken out of
  -- list and table, the call returns 1 exactly then, and the session cannot be resumed any more. Without
  -- a name nothing is removed. List and table agree afterwards, the others in their order.
  pub remove_session-IsWithout : (g' : Context H) × IsWithout t g xs x (removed_by t g x) g'
  remove_session-IsWithout = elim (Bool-cases (is_empty (g.cache.heap x).session_id)) [
    | inl empty ↦ rw empty (
      g,
      record {
        returns = nameless empty;
        cached = held;
        marked = λ named. absurd (ground (arith, empty, named));
      },
    )
    | inr name ↦ rw name (by_found (t.retrieve g.sessions (key_of t g x)) name refl)
  ]
