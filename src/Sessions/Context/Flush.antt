-- ===== src/Sessions/Context/Flush.antt =====
-- `SSL_CTX_flush_sessions` of ssl/ssl_sess.c removes the sessions that have timed out.
use openssl_3_0_bee2evp.Prelude.{
  ℕ, zero, suc, ◌<◌, ◌≡◌, ◌∙◌, refl, sym, ap, subst, Bool, true, false, not, ◌||◌, Option, some,
  List, [], ◌∷◌, ◌==◌, length, arith, Bool-cases, inl, inr, if◌then◌else◌,
}
use openssl_3_0_bee2evp.Prelude.Int.{ℤ}
use openssl_3_0_bee2evp.Sessions.{
  Link, null, session, Cache, write, list_remove, timeoutcmp, sess_timedout,
}
use openssl_3_0_bee2evp.Sessions.Place.{fits, final, IsOrdered, final-fits}
use openssl_3_0_bee2evp.Sessions.Remove.{delete}
use openssl_3_0_bee2evp.Sessions.Context.{
  Table, Context, change, free, unresumable, is_zero, flush_last, flush_sessions,
}
use openssl_3_0_bee2evp.Sessions.Context.Index.{IsTable, length-delete}
use openssl_3_0_bee2evp.Sessions.Context.Held.{
  IsCache, free-IsQuiet, unresumable-IsQuiet, change-IsHeld,
}
use openssl_3_0_bee2evp.Sessions.Context.Core.{
  SameCore, SameCore-trans, write-SameCore, SameRest-SameCore,
}
use openssl_3_0_bee2evp.Sessions.Context.Room.{final-listed, tail_is_final, tail_is_null}
use openssl_3_0_bee2evp.Sessions.Context.Drop.{dropped, left_by, drop-IsDropped}

-- A session that the call leaves in the cache.
abbrev pub stays : ℤ → Cache → ℕ → Bool
stays now c a = not (is_zero now || sess_timedout now (c.heap a))

abbrev pub keep : (ℕ → Bool) → List ℕ → List ℕ
keep test [] = []
keep test (x ∷ xs) = if test x then x ∷ keep test xs else keep test xs

keep-delete :
    (test : ℕ → Bool) (d : ℕ) (xs : List ℕ)
    → test d ≡ false
    → keep test (delete d xs) ≡ keep test xs
keep-delete test d [] goes = refl
keep-delete test d (x ∷ xs) goes = elim (Bool-cases (x == d)) [
  | inl one ↦
      let same : d ≡ x = ground (arith, one) in rw (one, subst (λ x. test x ≡ false) same goes) refl
  | inr other ↦ rw (other, keep-delete test d xs goes) refl
]

keep_along :
    (test test' : ℕ → Bool) (xs : List ℕ)
    → ((a : ℕ) → test' a ≡ test a)
    → keep test' xs ≡ keep test xs
keep_along test test' [] same = refl
keep_along test test' (x ∷ xs) same = rw (same x, keep_along test test' xs same) refl

-- A session that times out later stays too.
later_stays :
    (now : ℤ) (c : Cache) (a b : ℕ)
    → fits c a b ≡ true
    → stays now c b ≡ true
    → stays now c a ≡ true
unfolding timeoutcmp sess_timedout
later_stays now c a b e h = ground (arith, e, h)

stays_along : (now : ℤ) (c c' : Cache) → SameCore c c' → (a : ℕ) → stays now c' a ≡ stays now c a
unfolding sess_timedout
stays_along now c c' same a = ap (λ s. not (is_zero now || sess_timedout now s)) (same.same a)

-- If the last session stays, then all do.
all_stay :
    (now : ℤ) (c : Cache) (y : ℕ) (ys : List ℕ)
    → IsOrdered c (y ∷ ys)
    → stays now c (final y ys) ≡ true
    → keep (stays now c) (y ∷ ys) ≡ y ∷ ys
all_stay now c y [] ordered last = rw last refl
all_stay now c y (z ∷ zs) ordered last =
    let e = final-fits c y z zs (ordered.0.0) (ordered.0.1) in
    rw (later_stays now c y (final z zs) e last, all_stay now c z zs (ordered.1) last) refl

module _ {H : Type 0} (t : Table H) (now : ℤ) where
  abbrev rest_after : ℕ → Context H → Option (Context H)
  rest_after n g = flush_sessions t n now g

  unfold_flush :
      (n : ℕ) (g : Context H) (l : Link)
      → g.cache.session_cache_tail ≡ l
      → flush_sessions t (suc n) now g ≡ flush_last t (rest_after n) now l g
  unfolding flush_sessions
  unfold_flush n g l tail = ap (λ l. flush_last t (rest_after n) now l g) tail

  flush_ends :
      (n d : ℕ) (g : Context H)
      → stays now g.cache d ≡ true
      → flush_last t (rest_after n) now (session d) g ≡ some g
  flush_ends n d g last =
      let e : (is_zero now || sess_timedout now (g.cache.heap d)) ≡ false = ground (arith, last) in
      rw e refl

  flush_goes_on :
      (n d : ℕ) (g : Context H) (c : Cache)
      → stays now g.cache d ≡ false
      → list_remove d g.cache ≡ some c
      → flush_last t (rest_after n) now (session d) g ≡ flush_sessions t n now (left_by t g d d c)
  flush_goes_on n d g c last removes =
      let e : (is_zero now || sess_timedout now (g.cache.heap d)) ≡ true = ground (arith, last) in
      rw (e, removes) refl

  -- What the call leaves.
  pub record IsFlushed (n : ℕ) (g : Context H) (xs : List ℕ) (g' : Context H) : Type 0 where
    pub returns : flush_sessions t n now g ≡ some g'
    pub cached : IsCache t g' (keep (stays now g.cache) xs)
    pub same_core : SameCore g.cache g'.cache

  -- `SSL_CTX_flush_sessions`, on a cache whose list and table agree, follows no bad pointer and its loop
  -- ends. The sessions that have timed out at the given time, or all if it is 0, are taken out of the
  -- list and the table, and no other; what is left keeps its order, and list and table agree.
  pub flush_sessions-IsFlushed :
      (laws : IsTable t) (n : ℕ) (g : Context H) (xs : List ℕ)
      → IsCache t g xs
      → length xs < n
      → (g' : Context H) × IsFlushed n g xs g'
  flush_sessions-IsFlushed laws zero g xs held enough = absurd (omega arith)
  flush_sessions-IsFlushed laws (suc n) g [] held enough = (
    g,
    record {
      returns = unfold_flush n g null (tail_is_null g.cache held.is_list);
      cached = held;
      same_core = record { same = λ a. refl };
    },
  )
  flush_sessions-IsFlushed laws (suc n) g (y ∷ ys) held enough =
      let d = final y ys in
      let xs = y ∷ ys in
      let tail = tail_is_final g.cache y ys held.is_list in
      elim (Bool-cases (stays now g.cache d)) [
        | inl last ↦ (
          g,
          record {
            returns = unfold_flush n g (session d) tail ∙ flush_ends n d g last;
            cached = subst (IsCache t g) (sym (all_stay now g.cache y ys held.ordered last)) held;
            same_core = record { same = λ a. refl };
          },
        )
        | inr goes ↦
            let here = final-listed y ys in
            let (c, gone) =
              drop-IsDropped t laws g xs xs held (held.is_list.repeat_free.1) d here in
            let g1 = left_by t g d d c in
            let held1 : IsCache t g1 (delete d xs) =
              change-IsHeld t (change d unresumable (dropped t g d c)) (delete d xs) (delete d xs) d
                free free-IsQuiet
                (change-IsHeld t (dropped t g d c) (delete d xs) (delete d xs) d unresumable
                  unresumable-IsQuiet gone.held_after) in
            let same1 : SameCore g.cache g1.cache =
              SameCore-trans g.cache c g1.cache (SameRest-SameCore g.cache c gone.same_rest) (
                SameCore-trans c (write d unresumable c) g1.cache
                  (write-SameCore d unresumable c (λ s. refl))
                  (write-SameCore d free (write d unresumable c) (λ s. refl))) in
            let (g', flushed) =
              flush_sessions-IsFlushed laws n g1 (delete d xs) held1
                (omega (arith, enough, length-delete d xs here)) in
            let kept =
              keep_along (stays now g.cache) (stays now g1.cache) (delete d xs)
                (stays_along now g.cache g1.cache same1)
              ∙ keep-delete (stays now g.cache) d xs goes in
            (
              g',
              record {
                returns =
                    unfold_flush n g (session d) tail
                    ∙ flush_goes_on n d g c goes gone.returns
                    ∙ flushed.returns;
                cached = subst (IsCache t g') kept flushed.cached;
                same_core = SameCore-trans g.cache g1.cache g'.cache same1 flushed.same_core;
              },
            )
      ]
