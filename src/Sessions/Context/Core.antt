-- ===== src/Sessions/Context/Core.antt =====
-- What the removal of a session leaves alone in every session, and what depends on that only.
use openssl_3_0_bee2evp.Prelude.{
  ap₂, ℕ, ◌≡◌, ◌∙◌, refl, ap, false, List, [], ◌∷◌, ◌==◌, Bool-cases, inl, inr,
}
use openssl_3_0_bee2evp.Sessions.{Session, Cache, write, at_least, timeoutcmp}
use openssl_3_0_bee2evp.Sessions.Linked.{SameRest, bare}
use openssl_3_0_bee2evp.Sessions.Place.{fits, place}

-- A session but for what the removal of a session changes.
abbrev pub core : Session → Session
core s = record (bare s) { not_resumable = false; references = 0 }

pub record SameCore (c c' : Cache) : Type 0 where
  pub same : (a : ℕ) → core (c'.heap a) ≡ core (c.heap a)

pub SameRest-SameCore : (c c' : Cache) → SameRest c c' → SameCore c c'
SameRest-SameCore c c' same = record { same = λ a. ap core (same.same a) }

pub SameCore-trans : (c c' c'' : Cache) → SameCore c c' → SameCore c' c'' → SameCore c c''
SameCore-trans c c' c'' same same' = record { same = λ a. same'.same a ∙ same.same a }

pub write-SameCore :
    (x : ℕ) (f : Session → Session) (c : Cache)
    → ((s : Session) → core (f s) ≡ core s)
    → SameCore c (write x f c)
unfolding write
write-SameCore x f c same = record {
  same = λ a. elim (Bool-cases (a == x)) [
    | inl here ↦ rw here (same (c.heap a))
    | inr other ↦ rw other refl
  ];
}

module _ (c c' : Cache) (same : SameCore c c') where
  pub fits-along : (a b : ℕ) → fits c' a b ≡ fits c a b
  unfolding timeoutcmp
  fits-along a b = ap₂ at_least (same.same a) (same.same b)

  pub place-along : (x : ℕ) (xs : List ℕ) → place c' x xs ≡ place c x xs
  place-along x [] = refl
  place-along x (y ∷ ys) = rw (fits-along x y, place-along x ys) refl
