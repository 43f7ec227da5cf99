-- ===== src/Sessions/Context.antt =====
-- A context and its cache of sessions: `SSL_CTX_add_session`, `SSL_CTX_remove_session`,
-- `SSL_CTX_flush_sessions` and the functions that change a timeout (ssl/ssl_sess.c), and
-- `ssl_session_cmp` (ssl/ssl_lib.c). The hash table of the sessions is a parameter.
pub mod Index
pub mod Inserted
pub mod Held
pub mod Core
pub mod Drop
pub mod Room
pub mod Insert
pub mod Adding
pub mod Entered
pub mod Flush
pub mod Removal
pub mod Times
pub mod NoMemory
use openssl_3_0_bee2evp.Prelude.{
  ℕ, zero, suc, ◌-◌, Bool, true, false, not, ◌&&◌, ◌||◌, Option, none, some, List, [], ◌∷◌, ltb,
  ◌==◌, if◌then◌else◌,
}
use openssl_3_0_bee2evp.Prelude.Int.{ℤ, pos, ltb_ℤ}
use openssl_3_0_bee2evp.Sessions.{
  Link, null, session, Session, Cache, ◌>>=◌, write, calculate_timeout, sess_timedout, list_remove,
  list_add,
}

-- What the table compares.
pub record Key : Type 0 where
  pub ssl_version : ℕ
  pub session_id : List ℕ

abbrev pub same_id : List ℕ → List ℕ → Bool
same_id [] [] = true
same_id (a ∷ x) (b ∷ y) = a == b && same_id x y
same_id _ _ = false

-- `ssl_session_cmp`, whether it returns 0
abbrev pub same_key : Key → Key → Bool
same_key k j = k.ssl_version == j.ssl_version && same_id k.session_id j.session_id

abbrev pub key : Session → Key
key s = record { ssl_version = s.ssl_version; session_id = s.session_id }

-- The functions of a hash table whose items are pointers. `insert` and `delete` return the item that
-- was there; a table that has no memory inserts nothing.
pub record Table (H : Type 0) : Type 0 where
  pub retrieve : H → Key → Option ℕ
  pub insert : H → Key → ℕ → H × Option ℕ
  pub delete : H → Key → H × Option ℕ
  pub num_items : H → ℕ
  pub has_memory : H → Bool

-- The members of `SSL_CTX`; `update_time` is the bit `SSL_SESS_CACHE_UPDATE_TIME` of the mode.
pub record Context (H : Type 0) : Type 0 where
  pub cache : Cache
  pub sessions : H
  pub session_cache_size : ℕ
  pub update_time : Bool

abbrev pub is_empty : List ℕ → Bool
is_empty [] = true
is_empty _ = false

-- `t == 0`
abbrev pub is_zero : ℤ → Bool
is_zero t = not (ltb_ℤ t (pos 0)) && not (ltb_ℤ (pos 0) t)

-- An assignment to a session.
abbrev pub change : {H : Type 0} → ℕ → (Session → Session) → Context H → Context H
change x f g = record g { cache = write x f g.cache }

-- `SSL_SESSION_up_ref`, and `SSL_SESSION_free` up to the release of a session without references.
abbrev pub up_ref : Session → Session
up_ref s = record s { references = suc s.references }

abbrev pub free : Session → Session
free s = record s { references = s.references - 1 }

abbrev pub unresumable : Session → Session
unresumable s = record s { not_resumable = true }

-- The list, in a context.
abbrev pub remove_from_list : {H : Type 0} → ℕ → Context H → Option (Context H)
remove_from_list x g = list_remove x g.cache >>= λ c. some (record g { cache = c })

abbrev pub add_to_list : {H : Type 0} → ℕ → ℕ → Context H → Option (Context H)
add_to_list n x g = list_add n x g.cache >>= λ c. some (record g { cache = c })

-- The adjustment of the time.
abbrev pub at_now : ℤ → Session → Session
at_now now s = calculate_timeout (record s { time = now })

abbrev pub touch : {H : Type 0} → ℤ → ℕ → Context H → Context H
touch now x g = if g.update_time then change x (at_now now) g else g

module _ {H : Type 0} (t : Table H) where
  abbrev pub key_of : Context H → ℕ → Key
  key_of g a = key (g.cache.heap a)

  -- A session that the table has is taken out of it and of the list; a NULL that the table gives back
  -- instead of it is a bad pointer.
  abbrev pub take_out : ℕ → ℕ → Context H → Option (Context H × Bool)
  take_out x r g =
      let (h, deleted) = t.delete g.sessions (key_of g r) in
      deleted >>= λ r. remove_from_list r (record g { sessions = h }) >>= λ g'.
      some (change r free (change x unresumable g'), true)

  -- `remove_session_lock`, in the lock
  unfoldable pub remove_session : Link → Context H → Option (Context H × Bool)
  remove_session (session x) g =
      if is_empty (g.cache.heap x).session_id
      then some (g, false)
      else elim (t.retrieve g.sessions (key_of g x)) [
        | none ↦ some (change x unresumable g, false)
        | some r ↦ take_out x r g
      ]
  remove_session _ g = some (g, false)

  -- The loop of `SSL_CTX_add_session` that makes room, on fuel.
  unfoldable pub make_room : ℕ → Context H → Option (Context H)
  make_room zero g = none
  make_room (suc n) g =
      if ltb (t.num_items g.sessions) g.session_cache_size
      then some g
      else remove_session g.cache.session_cache_tail g >>= λ r.
          let rest = make_room n (r.0) in if r.1 then rest else some (r.0)

  -- What the table gave back is dealt with: another session with the same key is removed; a pointer that
  -- is the session's is kept; NULL is the session's own if it is not in the table.
  abbrev pub settle : ℕ → Option ℕ → Context H → Option (Context H × Option ℕ)
  settle x none g = elim (t.retrieve g.sessions (key_of g x)) [
    | none ↦ some (g, some x)
    | some r ↦ some (g, none)
  ]
  settle x (some s) g =
      if s == x
      then some (g, some s)
      else remove_from_list s g >>= λ g'. some (change s free g', none)

  -- From the adjustment of the time on; `s` is the pointer that is kept.
  abbrev pub finish_add : ℕ → ℤ → ℕ → Context H → Option ℕ → Option (Context H × Bool)
  finish_add n now x g (some s) =
      add_to_list n x (touch now x g) >>= λ g'. some (change s free g', false)
  finish_add n now x g none =
      (if ltb 0 g.session_cache_size then make_room n (touch now x g) else some (touch now x g))
      >>= λ g'. add_to_list n x g' >>= λ g''. some (g'', true)

  -- `SSL_CTX_add_session`; `locked` is whether the lock is taken.
  unfoldable pub add_session : Bool → ℕ → ℤ → ℕ → Context H → Option (Context H × Bool)
  add_session locked n now x g =
      let g1 = change x up_ref g in
      if not locked
      then some (change x free g1, false)
      else let (h, old) = t.insert g1.sessions (key_of g1 x) x in
        settle x old (record g1 { sessions = h }) >>= λ r. finish_add n now x (r.0) (r.1)

  -- A session that has timed out is removed. The references are given up after the loop in the code; the
  -- loop does not read them.
  abbrev pub expire : ℕ → Context H → Option (Context H)
  expire a g =
      remove_from_list a (record g { sessions = (t.delete g.sessions (key_of g a)).0 }) >>= λ g'.
      some (change a free (change a unresumable g'))

  -- The body of the loop of `SSL_CTX_flush_sessions`, with what comes after it.
  abbrev pub flush_last :
      (Context H → Option (Context H)) → ℤ → Link → Context H → Option (Context H)
  flush_last rest now null g = some g
  flush_last rest now (session a) g =
      if is_zero now || sess_timedout now (g.cache.heap a) then expire a g >>= rest else some g
  flush_last rest now _ g = none

  -- `SSL_CTX_flush_sessions`, in the lock, on fuel
  unfoldable pub flush_sessions : ℕ → ℤ → Context H → Option (Context H)
  flush_sessions zero now g = none
  flush_sessions (suc n) now g =
      flush_last (λ g'. flush_sessions n now g') now g.cache.session_cache_tail g

-- `SSL_SESSION_set_time` and `SSL_SESSION_set_timeout`, in the lock.
unfoldable pub set_member : ℕ → ℕ → (Session → Session) → Cache → Option Cache
set_member n x f c =
    let c' = write x (λ s. calculate_timeout (f s)) c in
    if (c.heap x).owner then list_add n x c' else some c'

unfoldable pub set_time : ℕ → ℕ → ℤ → Cache → Option Cache
set_time n x t c = set_member n x (λ s. record s { time = t }) c

unfoldable pub set_timeout : ℕ → ℕ → ℤ → Cache → Option Cache
set_timeout n x t c =
    if ltb_ℤ t (pos 0) then some c else set_member n x (λ s. record s { timeout = t }) c
