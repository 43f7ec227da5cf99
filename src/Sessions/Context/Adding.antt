-- ===== src/Sessions/Context/Adding.antt =====
-- `SSL_CTX_add_session` of ssl/ssl_sess.c.
use openssl_3_0_bee2evp.Prelude.{
  ℕ, zero, suc, ◌-◌, ◌≤◌, ◌<◌, ◌≡◌, ◌∙◌, refl, sym, ap, subst, Bool, true, false, Option, none,
  some, List, [], ◌∷◌, length, ltb, arith, Bool-cases, inl, inr, if◌then◌else◌,
}
use openssl_3_0_bee2evp.Prelude.Int.{ℤ}
use openssl_3_0_bee2evp.Sessions.{◌>>=◌, write}
use openssl_3_0_bee2evp.Sessions.Linked.{rest_of, IsList, IsRepeatFree}
use openssl_3_0_bee2evp.Sessions.Place.{place, IsOrdered}
use openssl_3_0_bee2evp.Sessions.Remove.{has-delete-same, delete, delete-absent}
use openssl_3_0_bee2evp.Sessions.Context.{
  Table, Context, change, free, touch, add_to_list, make_room, finish_add,
}
use openssl_3_0_bee2evp.Sessions.Context.Index.{IsTable, listed, IsIndexed}
use openssl_3_0_bee2evp.Sessions.Context.Held.{
  IsHeld, IsCache, IsIndexed-same, free-IsQuiet, change-IsHeld,
}
use openssl_3_0_bee2evp.Sessions.Context.Core.{
  SameCore, SameCore-trans, write-SameCore, place-along,
}
use openssl_3_0_bee2evp.Sessions.Context.Room.{take, make_room-IsRoomy}
use openssl_3_0_bee2evp.Sessions.Context.Insert.{
  touch-IsList, key-touch, touch-IsOrdered, touch_size, touch_sessions, room, listed-IsCache,
}

take_absent : (n x : ℕ) (xs : List ℕ) → listed x xs ≡ false → listed x (take n xs) ≡ false
take_absent zero x xs new = refl
take_absent (suc n) x [] new = refl
take_absent (suc n) x (y ∷ ys) new = ground (arith, new, take_absent n x ys)

room_absent : (size x : ℕ) (xs : List ℕ) → listed x xs ≡ false → listed x (room size xs) ≡ false
room_absent size x xs new = ground (arith, new, take_absent (size - 2) x xs)

length-take : (n : ℕ) (xs : List ℕ) → length (take n xs) ≤ length xs
length-take zero xs = omega arith
length-take (suc n) [] = omega arith
length-take (suc n) (x ∷ xs) = omega (arith, length-take n xs)

length-room : (size : ℕ) (xs : List ℕ) → length (room size xs) ≤ length xs
length-room size xs = ground (arith, length-take (size - 2) xs)

-- What a call leaves: list and table hold the session and those that stay.
pub record IsEntered {H : Type 0} (t : Table H) (r : Option (Context H × Bool)) (g : Context H)
    (now : ℤ) (x : ℕ) (stay : List ℕ) (new : Bool) (g' : Context H) : Type 0 where
  pub returns : r ≡ some (g', new)
  pub cached : IsCache t g' (place g'.cache x stay)
  pub same_core : SameCore (touch now x g).cache g'.cache

module _ {H : Type 0} (t : Table H) (laws : IsTable t) (n : ℕ) (now : ℤ) (x : ℕ) where
  -- The session is not in the list.
  touch-IsHeld :
      (g : Context H) (xs ys : List ℕ)
      → listed x xs ≡ false
      → IsHeld t g xs ys
      → IsHeld t (touch now x g) xs ys
  touch-IsHeld g xs ys new held = record {
    is_list = touch-IsList now x g xs held.is_list;
    ordered = touch-IsOrdered now x g xs new held.ordered;
    indexed =
        subst (λ h. IsIndexed t (touch now x g).cache h ys) (sym (touch_sessions now x g))
          (IsIndexed-same t g.cache (touch now x g).cache g.sessions ys ys (key-touch now x g)
            (λ a. refl) refl held.indexed);
  }

  -- Room is made, if the size of the cache is bounded.
  making_room :
      (size : ℕ) (g : Context H) (xs : List ℕ)
      → g.session_cache_size ≡ size
      → IsHeld t g xs (x ∷ xs)
      → IsRepeatFree (rest_of (x ∷ xs))
      → length xs < n
      → (g' : Context H) × ((if ltb 0 size then make_room t n g else some g) ≡ some g')
        × IsHeld t g' (room size xs) (x ∷ room size xs)
        × SameCore g.cache g'.cache
  making_room size g xs size_is held fresh enough = elim (Bool-cases (ltb 0 size)) [
    | inl bounded ↦
        let positive : 0 < g.session_cache_size = ground (arith, bounded, size_is) in
        let (g', roomy) = make_room-IsRoomy t laws n x g xs held fresh positive enough in
        rw bounded (
          g',
          roomy.returns,
          subst (λ size. IsHeld t g' (take (size - 2) xs) (x ∷ take (size - 2) xs)) size_is
              roomy.held_after,
          roomy.same_core,
        )
    | inr unbounded ↦ rw unbounded (g, refl, held, record { same = λ a. refl })
  ]

  -- A new session.
  pub finish_new :
      (g : Context H) (ws : List ℕ)
      → IsHeld t g ws (x ∷ ws)
      → IsRepeatFree (rest_of (x ∷ ws))
      → length ws < n
      → (g' : Context H) × IsEntered t
          (finish_add t n now x g none)
          g
          now
          x
          (room g.session_cache_size ws)
          true
          g'
  finish_new g ws held fresh enough =
      let vs = room g.session_cache_size ws in
      let touched = touch-IsHeld g ws (x ∷ ws) (fresh.0) held in
      let (g5, makes, held5, same5) =
        making_room g.session_cache_size (touch now x g) ws (touch_size now x g) touched fresh
          enough in
      let absent : delete x vs ≡ vs =
        delete-absent x vs (room_absent g.session_cache_size x ws (fresh.0)) in
      let short : length vs ≤ n = omega (arith, enough, length-room g.session_cache_size ws) in
      let (c, adds, cached, same) =
        listed-IsCache t n x g5 vs held5.is_list
          (subst (IsOrdered g5.cache) (sym absent) held5.ordered)
          (subst (λ vs. IsIndexed t g5.cache g5.sessions (x ∷ vs)) (sym absent) held5.indexed)
          short in
      (
        record g5 { cache = c },
        record {
          returns =
              ap (λ r. r >>= λ g'. add_to_list n x g' >>= λ g''. some (g'', true)) makes
              ∙ rw adds refl;
          cached = subst (λ vs. IsCache t (record g5 { cache = c }) (place c x vs)) absent cached;
          same_core = SameCore-trans (touch now x g).cache g5.cache c same5 same;
        },
      )

  -- The session is in the list and the table.
  pub finish_again :
      (g : Context H) (xs : List ℕ)
      → IsList g.cache xs
      → IsOrdered g.cache (delete x xs)
      → IsIndexed t g.cache g.sessions (x ∷ delete x xs)
      → length xs < n
      → (g' : Context H) × IsEntered t
          (finish_add t n now x g (some x))
          g
          now
          x
          (delete x xs)
          false
          g'
  finish_again g xs is_list ordered indexed enough =
      let ws = delete x xs in
      let g4 = touch now x g in
      let gone : listed x ws ≡ false =
        ground (arith, has-delete-same x x xs (is_list.repeat_free.1)) in
      let indexed4 =
        subst (λ h. IsIndexed t g4.cache h (x ∷ ws)) (sym (touch_sessions now x g))
          (IsIndexed-same t g.cache g4.cache g.sessions (x ∷ ws) (x ∷ ws) (key-touch now x g)
            (λ a. refl) refl indexed) in
      let (c, adds, cached, same) =
        listed-IsCache t n x g4 xs (touch-IsList now x g xs is_list)
          (touch-IsOrdered now x g ws gone ordered) indexed4 (omega (arith, enough)) in
      let g5 = record g4 { cache = c } in
      let freed = write-SameCore x free c (λ s. refl) in
      (
        change x free g5,
        record {
          returns = rw adds refl;
          cached =
              subst (IsCache t (change x free g5)) (sym (place-along c (write x free c) freed x ws))
                (change-IsHeld t g5 (place c x ws) (place c x ws) x free free-IsQuiet cached);
          same_core = SameCore-trans g4.cache c (write x free c) same freed;
        },
      )
