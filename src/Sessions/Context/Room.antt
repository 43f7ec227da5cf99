-- ===== src/Sessions/Context/Room.antt =====
-- The loop of `SSL_CTX_add_session` (ssl/ssl_sess.c) that removes sessions from the end of the list.
use openssl_3_0_bee2evp.Prelude.{
  ℕ, zero, suc, ◌-◌, ◌≤◌, ◌<◌, ◌≡◌, ◌∙◌, refl, ap, subst, true, false, some, List, [], ◌∷◌, ◌==◌,
  length, ltb, arith, Bool-cases, inl, inr,
}
use openssl_3_0_bee2evp.Sessions.{null, session, Cache}
use openssl_3_0_bee2evp.Sessions.Linked.{rest_of, IsList, IsRepeatFree}
use openssl_3_0_bee2evp.Sessions.Place.{final}
use openssl_3_0_bee2evp.Sessions.Placing.{final-prev_of, tail_session}
use openssl_3_0_bee2evp.Sessions.Remove.{delete, has-delete-same}
use openssl_3_0_bee2evp.Sessions.Context.{Table, Context, free, remove_session, make_room}
use openssl_3_0_bee2evp.Sessions.Context.Index.{IsTable, listed}
use openssl_3_0_bee2evp.Sessions.Context.Held.{IsHeld, not_listed}
use openssl_3_0_bee2evp.Sessions.Context.Core.{SameCore, SameCore-trans}
use openssl_3_0_bee2evp.Sessions.Context.Drop.{left_by, IsRemoved, remove_session-IsRemoved}

abbrev pub take : ℕ → List ℕ → List ℕ
take zero xs = []
take (suc n) [] = []
take (suc n) (x ∷ xs) = x ∷ take n xs

take-take : (m n : ℕ) (xs : List ℕ) → m ≤ n → take m (take n xs) ≡ take m xs
take-take zero n xs le = refl
take-take (suc m) zero xs le = absurd (omega arith)
take-take (suc m) (suc n) [] le = refl
take-take (suc m) (suc n) (x ∷ xs) le = ap (λ ys. x ∷ ys) (take-take m n xs (omega arith))

length-take : (n : ℕ) (xs : List ℕ) → length (take n xs) ≤ n
length-take zero xs = omega arith
length-take (suc n) [] = omega arith
length-take (suc n) (x ∷ xs) = omega (arith, length-take n xs)

take_all : (n : ℕ) (xs : List ℕ) → length xs ≤ n → take n xs ≡ xs
take_all zero [] le = refl
take_all zero (x ∷ xs) le = absurd (omega arith)
take_all (suc n) [] le = refl
take_all (suc n) (x ∷ xs) le = ap (λ ys. x ∷ ys) (take_all n xs (omega arith))

pub final-listed : (y : ℕ) (ys : List ℕ) → listed (final y ys) (y ∷ ys) ≡ true
final-listed y [] = ground arith
final-listed y (z ∷ zs) = ground (arith, final-listed z zs)

pub delete-final :
    (y : ℕ) (ys : List ℕ)
    → IsRepeatFree (rest_of (y ∷ ys))
    → delete (final y ys) (y ∷ ys) ≡ take (length ys) (y ∷ ys)
delete-final y [] free = ground arith
delete-final y (z ∷ zs) free = ground (
  arith,
  not_listed y (final z zs) (z ∷ zs) (free.0) (final-listed z zs),
  delete-final z zs (free.1),
)

pub tail_is_final :
    (c : Cache) (y : ℕ) (ys : List ℕ)
    → IsList c (y ∷ ys)
    → c.session_cache_tail ≡ session (final y ys)
tail_is_final c y ys is_list =
    tail_session c.session_cache_tail (final y ys) (final-prev_of c y ys (is_list.chain.1))

pub tail_is_null : (c : Cache) → IsList c [] → c.session_cache_tail ≡ null
tail_is_null c is_list = ground (arith, is_list.chain.0.1, is_list.tail_is)

module _ {H : Type 0} (t : Table H) where
  room_enough :
      (n : ℕ) (g : Context H)
      → ltb (t.num_items g.sessions) g.session_cache_size ≡ true
      → make_room t (suc n) g ≡ some g
  unfolding make_room
  room_enough n g e = rw e refl

  room_stuck :
      (n : ℕ) (g : Context H)
      → ltb (t.num_items g.sessions) g.session_cache_size ≡ false
      → g.cache.session_cache_tail ≡ null
      → make_room t (suc n) g ≡ some g
  unfolding make_room remove_session
  room_stuck n g e tail = rw (e, tail) refl

  room_goes_on :
      (n : ℕ) (g g' : Context H) (d : ℕ)
      → ltb (t.num_items g.sessions) g.session_cache_size ≡ false
      → g.cache.session_cache_tail ≡ session d
      → remove_session t (session d) g ≡ some (g', true)
      → make_room t (suc n) g ≡ make_room t n g'
  unfolding make_room
  room_goes_on n g g' d e tail removes =
      let step = ap (λ l. remove_session t l g) tail ∙ removes in rw (e, step) refl

  room_alone :
      (n : ℕ) (g : Context H) → g.cache.session_cache_tail ≡ null → make_room t (suc n) g ≡ some g
  room_alone n g tail = elim (Bool-cases (ltb (t.num_items g.sessions) g.session_cache_size)) [
    | inl roomy ↦ room_enough n g roomy
    | inr crowded ↦ room_stuck n g crowded tail
  ]

  -- What the loop leaves.
  pub record IsRoomy (n x : ℕ) (g : Context H) (xs : List ℕ) (g' : Context H) : Type 0 where
    pub returns : make_room t n g ≡ some g'
    pub held_after :
        IsHeld t g' (take (g.session_cache_size - 2) xs) (x ∷ take (g.session_cache_size - 2) xs)
    pub same_core : SameCore g.cache g'.cache

  module _ (laws : IsTable t) where
    -- The last session of the list goes.
    last_goes :
        (g : Context H) (x y : ℕ) (ys : List ℕ)
        → IsHeld t g (y ∷ ys) (x ∷ y ∷ ys)
        → IsRepeatFree (rest_of (x ∷ y ∷ ys))
        → (c : Cache) × IsRemoved t g (y ∷ ys) (x ∷ y ∷ ys) (final y ys) (final y ys) c
    last_goes g x y ys held free =
        let d = final y ys in
        let here : listed d (x ∷ y ∷ ys) ≡ true = ground (arith, final-listed y ys) in
        remove_session-IsRemoved t laws g (y ∷ ys) (x ∷ y ∷ ys) held free d d
          (held.indexed.named d here) (held.indexed.holds d here)

    shorter :
        (g : Context H) (x y : ℕ) (ys : List ℕ)
        → IsRepeatFree (rest_of (x ∷ y ∷ ys))
        → IsHeld t g (delete (final y ys) (y ∷ ys)) (delete (final y ys) (x ∷ y ∷ ys))
        → IsHeld t g (take (length ys) (y ∷ ys)) (x ∷ take (length ys) (y ∷ ys))
          × IsRepeatFree (rest_of (x ∷ take (length ys) (y ∷ ys)))
    shorter g x y ys free held =
        let d = final y ys in
        let e = delete-final y ys (free.1) in
        let other : (x == d) ≡ false =
          ground (arith, not_listed x d (y ∷ ys) (free.0) (final-listed y ys)) in
        let new : listed x (delete d (y ∷ ys)) ≡ false =
          ground (arith, has-delete-same d x (y ∷ ys) (free.1), free.0) in
        let moved : delete d (x ∷ y ∷ ys) ≡ x ∷ delete d (y ∷ ys) = rw other refl in
        subst (λ zs. IsHeld t g zs (x ∷ zs) × IsRepeatFree (rest_of (x ∷ zs))) e
          (
            subst (λ us. IsHeld t g (delete d (y ∷ ys)) us) moved held,
            (new, held.is_list.repeat_free.1),
          )

    pub make_room-IsRoomy :
        (n x : ℕ) (g : Context H) (xs : List ℕ)
        → IsHeld t g xs (x ∷ xs)
        → IsRepeatFree (rest_of (x ∷ xs))
        → 0 < g.session_cache_size
        → length xs < n
        → (g' : Context H) × IsRoomy n x g xs g'
    make_room-IsRoomy zero x g xs held fresh bounded enough = absurd (omega arith)
    make_room-IsRoomy (suc n) x g [] held fresh bounded enough = (
      g,
      record {
        returns = room_alone n g (tail_is_null g.cache held.is_list);
        held_after = rw (take_all (g.session_cache_size - 2) [] (omega arith)) held;
        same_core = record { same = λ a. refl };
      },
    )
    make_room-IsRoomy (suc n) x g (y ∷ ys) held fresh bounded enough =
        elim (Bool-cases (ltb (t.num_items g.sessions) g.session_cache_size)) [
          | inl roomy ↦
              let small : length (y ∷ ys) ≤ g.session_cache_size - 2 =
                ground (arith, roomy, held.indexed.counted) in
              (
                g,
                record {
                  returns = room_enough n g roomy;
                  held_after = rw (take_all (g.session_cache_size - 2) (y ∷ ys) small) held;
                  same_core = record { same = λ a. refl };
                },
              )
          | inr crowded ↦
              let d = final y ys in
              let ws = take (length ys) (y ∷ ys) in
              let (c, gone) = last_goes g x y ys held fresh in
              let g1 = left_by t g d d c in
              let held1 = shorter g1 x y ys fresh gone.held_after in
              let large : g.session_cache_size - 2 ≤ length ys =
                ground (arith, crowded, held.indexed.counted) in
              let (g', roomy) =
                make_room-IsRoomy n x g1 ws (held1.0) (held1.1) bounded
                  (omega (arith, enough, length-take (length ys) (y ∷ ys))) in
              (
                g',
                record {
                  returns =
                      room_goes_on n g g1 d crowded (tail_is_final g.cache y ys held.is_list)
                        gone.returns
                      ∙ roomy.returns;
                  held_after =
                      subst (λ zs. IsHeld t g' zs (x ∷ zs))
                        (take-take (g.session_cache_size - 2) (length ys) (y ∷ ys) large)
                        roomy.held_after;
                  same_core =
                      SameCore-trans g.cache g1.cache g'.cache gone.same_core roomy.same_core;
                },
              )
        ]
