-- ===== src/Sessions/Context/Insert.antt =====
-- The parts of `SSL_CTX_add_session` (ssl/ssl_sess.c): the adjustment of the time, the room that is
-- made, and the insertion into the list.
use openssl_3_0_bee2evp.Prelude.{
  ℕ, suc, ◌-◌, ◌≤◌, ◌≡◌, refl, sym, ap, subst, false, some, List, [], ◌∷◌, ◌==◌, length, ltb, arith,
  Bool-cases, inl, inr, if◌then◌else◌,
}
use openssl_3_0_bee2evp.Prelude.Int.{ℤ}
use openssl_3_0_bee2evp.Sessions.{session, Session, Cache, write, calculate_timeout, list_add}
use openssl_3_0_bee2evp.Sessions.Linked.{IsList}
use openssl_3_0_bee2evp.Sessions.Place.{place, IsOrdered, has-place}
use openssl_3_0_bee2evp.Sessions.Remove.{delete}
use openssl_3_0_bee2evp.Sessions.Add.{list_add-IsAdded}
use openssl_3_0_bee2evp.Sessions.Context.{key, Table, Context, at_now, touch}
use openssl_3_0_bee2evp.Sessions.Context.Index.{listed, IsIndexed}
use openssl_3_0_bee2evp.Sessions.Context.Held.{
  IsCache, IsList-same, IsIndexed-same, write-SameLinks, write-keys, outside-IsOrdered,
}
use openssl_3_0_bee2evp.Sessions.Context.Core.{SameCore, SameRest-SameCore, place-along, core}
use openssl_3_0_bee2evp.Sessions.Context.Room.{take}

at_now_links :
    (now : ℤ) (s : Session)
    → ((at_now now s).next ≡ s.next)
      × ((at_now now s).prev ≡ s.prev)
      × ((at_now now s).owner ≡ s.owner)
unfolding calculate_timeout
at_now_links now s = (refl, refl, refl)

key-at_now : (now : ℤ) (s : Session) → key (at_now now s) ≡ key s
unfolding calculate_timeout
key-at_now now s = refl

core-at_now :
    (now : ℤ) (s s' : Session) → core s' ≡ core s → core (at_now now s') ≡ core (at_now now s)
unfolding calculate_timeout
core-at_now now s s' e = ap (λ s. core (at_now now s)) e

touched_core :
    (now : ℤ) (x : ℕ) (c c' : Cache) (a : ℕ)
    → core (c'.heap a) ≡ core (c.heap a)
    → core ((write x (at_now now) c').heap a) ≡ core ((write x (at_now now) c).heap a)
unfolding write
touched_core now x c c' a e = elim (Bool-cases (a == x)) [
  | inl here ↦ rw here (core-at_now now (c.heap a) (c'.heap a) e)
  | inr other ↦ rw other e
]

module _ {H : Type 0} (now : ℤ) (x : ℕ) where
  -- `touch` leaves the links and the keys, and the order of a list without the session.
  pub touch-IsList :
      (g : Context H) (xs : List ℕ) → IsList g.cache xs → IsList (touch now x g).cache xs
  touch-IsList g xs is_list = elim (Bool-cases g.update_time) [
    | inl on ↦ rw on (
        IsList-same g.cache (write x (at_now now) g.cache)
          (write-SameLinks x (at_now now) g.cache (at_now_links now)) xs is_list)
    | inr off ↦ rw off is_list
  ]

  pub key-touch :
      (g : Context H) (a : ℕ) → key ((touch now x g).cache.heap a) ≡ key (g.cache.heap a)
  key-touch g a = elim (Bool-cases g.update_time) [
    | inl on ↦ rw on (write-keys x (at_now now) g.cache (key-at_now now) a)
    | inr off ↦ rw off refl
  ]

  pub touch-IsOrdered :
      (g : Context H) (xs : List ℕ)
      → listed x xs ≡ false
      → IsOrdered g.cache xs
      → IsOrdered (touch now x g).cache xs
  touch-IsOrdered g xs new ordered = elim (Bool-cases g.update_time) [
    | inl on ↦ rw on (outside-IsOrdered g.cache x (at_now now) xs new ordered)
    | inr off ↦ rw off ordered
  ]

  pub touch-SameCore :
      (g g' : Context H)
      → g'.update_time ≡ g.update_time
      → SameCore g.cache g'.cache
      → SameCore (touch now x g).cache (touch now x g').cache
  touch-SameCore g g' settings same = elim (Bool-cases g.update_time) [
    | inl on ↦
        rw (settings, on)
          (record { same = λ a. touched_core now x g.cache g'.cache a (same.same a) })
    | inr off ↦ rw (settings, off) same
  ]

  pub touch_size : (g : Context H) → (touch now x g).session_cache_size ≡ g.session_cache_size
  touch_size g = ground arith

  pub touch_sessions : (g : Context H) → (touch now x g).sessions ≡ g.sessions
  touch_sessions g = ground arith

-- The sessions that stay, besides the one that is added.
abbrev pub room : ℕ → List ℕ → List ℕ
room size xs = if ltb 0 size then take (size - 2) xs else xs

length-place : (c : Cache) (x : ℕ) (xs : List ℕ) → length (place c x xs) ≡ suc (length xs)
length-place c x [] = refl
length-place c x (y ∷ ys) = ground (arith, length-place c x ys)

-- The session is put into the list, and the table has it.
module _ {H : Type 0} (t : Table H) (n x : ℕ) (g : Context H) (xs : List ℕ) where
  pub listed-IsCache :
      IsList g.cache xs
      → IsOrdered g.cache (delete x xs)
      → IsIndexed t g.cache g.sessions (x ∷ delete x xs)
      → length xs ≤ n
      → (c : Cache) × (list_add n x g.cache ≡ some c)
        × IsCache t (record g { cache = c }) (place c x (delete x xs))
        × SameCore g.cache c
  listed-IsCache is_list ordered indexed enough =
      let (c, is_added) = list_add-IsAdded n x g.cache xs is_list ordered enough in
      let same = SameRest-SameCore g.cache c is_added.same_rest in
      let ws = delete x xs in
      let e = sym (place-along g.cache c same x ws) in
      (
        c,
        is_added.returns,
        subst (IsCache t (record g { cache = c })) e (record {
          is_list = is_added.is_list;
          ordered = is_added.ordered;
          indexed =
              IsIndexed-same t g.cache c g.sessions (x ∷ ws) (place g.cache x ws)
                (λ a. ap key (is_added.same_rest.same a)) (λ a. has-place g.cache x (session a) ws)
                (length-place g.cache x ws) indexed;
        }),
        same,
      )
