-- ===== src/Sessions/Place.antt =====
-- The place of a session in the list: before the first that does not time out later.
use openssl_3_0_bee2evp.Prelude.{
  ℕ, ap₂, ◌≡◌, ◌∙◌, refl, sym, subst, Bool, true, false, ◌||◌, List, [], ◌∷◌, arith, if◌then◌else◌,
  Bool-cases, inl, inr,
}
use openssl_3_0_bee2evp.Sessions.{Link, tail_addr, session, Cache, at_least, timeoutcmp}
use openssl_3_0_bee2evp.Sessions.Timeouts.{at_least_total, at_least_trans}
use openssl_3_0_bee2evp.Sessions.Linked.{
  same_link, same_link-sym, has, IsRepeatFree, rest_of, SameRest,
}
use openssl_3_0_bee2evp.Sessions.Spots.{is_from, Spot, extend}

-- `timeoutcmp(x, y) >= 0`
abbrev pub fits : Cache → ℕ → ℕ → Bool
fits c x y = at_least (c.heap x) (c.heap y)

abbrev pub place : Cache → ℕ → List ℕ → List ℕ
place c x [] = x ∷ []
place c x (y ∷ ys) = if fits c x y then x ∷ y ∷ ys else y ∷ place c x ys

-- The session that the place is before.
abbrev pub fit : Cache → ℕ → List ℕ → Link
fit c x [] = tail_addr
fit c x (y ∷ ys) = if fits c x y then session y else fit c x ys

-- No session of the list times out later.
abbrev pub AreEarlier : Cache → ℕ → List ℕ → Type 0
AreEarlier c x [] = Unit
AreEarlier c x (y ∷ ys) = (fits c x y ≡ true) × AreEarlier c x ys

-- The last to time out comes first.
abbrev pub IsOrdered : Cache → List ℕ → Type 0
IsOrdered c [] = Unit
IsOrdered c (x ∷ xs) = AreEarlier c x xs × IsOrdered c xs

abbrev pub final : ℕ → List ℕ → ℕ
final y [] = y
final y (z ∷ zs) = final z zs

module _ (c : Cache) (x : ℕ) where
  pub place-Spot :
      (l : Link) (xs : List ℕ)
      → is_from l ≡ true
      → (spot : Spot x (l ∷ rest_of (place c x xs)) (l ∷ rest_of xs)) × (spot.q ≡ fit c x xs)
  place-Spot l [] from = (
    record {
      before = [];
      p = l;
      q = tail_addr;
      behind = [];
      full_is = refl;
      short_is = refl;
      from = from;
      to = refl;
    },
    refl,
  )
  place-Spot l (y ∷ ys) from = elim (Bool-cases (fits c x y)) [
    | inl here ↦ (
      record {
        before = [];
        p = l;
        q = session y;
        behind = rest_of ys;
        full_is = rw here refl;
        short_is = refl;
        from = from;
        to = refl;
      },
      rw here refl,
    )
    | inr past ↦ let (spot, e) = place-Spot (session y) ys refl in rw past (extend x l spot, e)
  ]

  pub fit-fits : (xs : List ℕ) (b : ℕ) → fit c x xs ≡ session b → fits c x b ≡ true
  fit-fits [] b e = absurd (ground (arith, e))
  fit-fits (y ∷ ys) b e = elim (Bool-cases (fits c x y)) [
    | inl here ↦
        let same : y ≡ b = ground (arith, e, here) in subst (λ b. fits c x b ≡ true) same here
    | inr past ↦ fit-fits ys b (ground (arith, e, past))
  ]

  AreEarlier-trans :
      (z : ℕ) (zs : List ℕ) → fits c x z ≡ true → AreEarlier c z zs → AreEarlier c x zs
  AreEarlier-trans z [] e a = tt
  AreEarlier-trans z (w ∷ zs) e a =
      (at_least_trans (c.heap x) (c.heap z) (c.heap w) e (a.0), AreEarlier-trans z zs e (a.1))

  pub final-fits :
      (z : ℕ) (zs : List ℕ) → fits c x z ≡ true → AreEarlier c x zs → fits c x (final z zs) ≡ true
  final-fits z [] e a = e
  final-fits z (w ∷ zs) e a = final-fits w zs (a.0) (a.1)

  skipped : (y : ℕ) (ys : List ℕ) → fits c x y ≡ false → fit c x (y ∷ ys) ≡ fit c x ys
  skipped y ys past = rw past refl

  -- In an ordered list, the last session fits if any does.
  pub last_fits :
      (y : ℕ) (ys : List ℕ) (b : ℕ)
      → IsOrdered c (y ∷ ys)
      → fit c x (y ∷ ys) ≡ session b
      → fits c x (final y ys) ≡ true
  last_fits y [] b ordered e = ground (arith, e)
  last_fits y (z ∷ zs) b ordered e = elim (Bool-cases (fits c x y)) [
    | inl here ↦ final-fits y (z ∷ zs) here (AreEarlier-trans y (z ∷ zs) here (ordered.0))
    | inr past ↦ last_fits z zs b (ordered.1) (sym (skipped y (z ∷ zs) past) ∙ e)
  ]

  pub last_does_not_fit :
      (y : ℕ) (ys : List ℕ) → fit c x (y ∷ ys) ≡ tail_addr → fits c x (final y ys) ≡ false
  last_does_not_fit y [] e = ground (arith, e)
  last_does_not_fit y (z ∷ zs) e = last_does_not_fit z zs (ground (arith, e))

  place-AreEarlier :
      (z : ℕ) (xs : List ℕ) → fits c z x ≡ true → AreEarlier c z xs → AreEarlier c z (place c x xs)
  place-AreEarlier z [] e a = (e, tt)
  place-AreEarlier z (y ∷ ys) e a = elim (Bool-cases (fits c x y)) [
    | inl here ↦ rw here (e, a)
    | inr past ↦ rw past (a.0, place-AreEarlier z ys e (a.1))
  ]

  pub place-IsOrdered : (xs : List ℕ) → IsOrdered c xs → IsOrdered c (place c x xs)
  place-IsOrdered [] ordered = (tt, tt)
  place-IsOrdered (y ∷ ys) ordered = elim (Bool-cases (fits c x y)) [
    | inl here ↦ rw here ((here, AreEarlier-trans y ys here (ordered.0)), ordered)
    | inr past ↦ rw past (
      place-AreEarlier y ys (at_least_total (c.heap x) (c.heap y) past) (ordered.0),
      place-IsOrdered ys (ordered.1),
    )
  ]

  pub has-place :
      (m : Link) (xs : List ℕ)
      → has m (rest_of (place c x xs)) ≡ (same_link m (session x) || has m (rest_of xs))
  has-place m [] = ground arith
  has-place m (y ∷ ys) = ground (arith, has-place m ys)

  pub place-IsRepeatFree :
      (xs : List ℕ)
      → IsRepeatFree (rest_of xs)
      → has (session x) (rest_of xs) ≡ false
      → IsRepeatFree (rest_of (place c x xs))
  place-IsRepeatFree [] free new = (refl, free)
  place-IsRepeatFree (y ∷ ys) free new = elim (Bool-cases (fits c x y)) [
    | inl here ↦ rw here (new, free)
    | inr past ↦ rw past (
      ground (arith, has-place (session y) ys, free.0, new, same_link-sym (session x) (session y)),
      place-IsRepeatFree ys (free.1) (ground (arith, new)),
    )
  ]

-- The place depends on the timeouts alone.
module _ (c c' : Cache) (same : SameRest c c') where
  fits-same : (x y : ℕ) → fits c' x y ≡ fits c x y
  unfolding timeoutcmp
  fits-same x y = ap₂ at_least (same.same x) (same.same y)

  pub place-same : (x : ℕ) (xs : List ℕ) → place c' x xs ≡ place c x xs
  place-same x [] = refl
  place-same x (y ∷ ys) = rw (fits-same x y, place-same x ys) refl

  AreEarlier-same : (x : ℕ) (xs : List ℕ) → AreEarlier c x xs → AreEarlier c' x xs
  AreEarlier-same x [] a = tt
  AreEarlier-same x (y ∷ ys) a = (fits-same x y ∙ a.0, AreEarlier-same x ys (a.1))

  pub IsOrdered-same : (xs : List ℕ) → IsOrdered c xs → IsOrdered c' xs
  IsOrdered-same [] ordered = tt
  IsOrdered-same (x ∷ xs) ordered =
      (AreEarlier-same x xs (ordered.0), IsOrdered-same xs (ordered.1))
