-- ===== src/Prelude/Tests.antt =====
-- Boolean tests on the native numbers, the conditional, and case splits that keep the equation.
use Prim.Native.Nat.{ℕ, zero, suc, ◌<◌, compare, Ordering}
use native.Mathlib.Omega.{arith}
use mathlib.Core.Path.{◌≡◌, refl, ap, ◌∙◌}
use mathlib.Core.Logic.{◌⊎◌, inl, inr}
use mathlib.Core.Bool.{Bool, true, false}

abbrev pub ltb : ℕ → ℕ → Bool
ltb a b = elim (compare a b) [ Ordering.lt ↦ true | _ ↦ false ]

abbrev pub leb : ℕ → ℕ → Bool
leb a b = elim (compare a b) [ Ordering.gt ↦ false | _ ↦ true ]

infix 50 ◌==◌
abbrev pub ◌==◌ : ℕ → ℕ → Bool
a == b = elim (compare a b) [ Ordering.eq ↦ true | _ ↦ false ]

infix 1 if◌then◌else◌
abbrev pub if◌then◌else◌ {ℓ} : {A : Type ℓ} → Bool → A → A → A
if true then x else y = x
if false then x else y = y

pub Bool-cases : (b : Bool) → (b ≡ true) ⊎ (b ≡ false)
Bool-cases true = inl refl
Bool-cases false = inr refl

-- An equation between a conditional and a value, by the branch taken.
pub if-eq :
    {A P : Type 0} {x y z : A} (b : Bool)
    → (b ≡ true → x ≡ z → P)
    → (b ≡ false → y ≡ z → P)
    → (if b then x else y) ≡ z
    → P
if-eq true f g h = f refl h
if-eq false f g h = g refl h

-- A property of both branches.
pub if-holds {ℓ κ} :
    {A : Type ℓ} (P : A → Type κ) (b : Bool) {x y : A} → P x → P y → P (if b then x else y)
if-holds P true h h' = h
if-holds P false h h' = h'

-- A test of all numbers below a bound, and what its success says.
abbrev pub holds_below : ℕ → (ℕ → Bool) → Bool
holds_below zero test = true
holds_below (suc n) test = if test n then holds_below n test else false

pub holds_below-each :
    (n : ℕ) (test : ℕ → Bool) (i : ℕ) → holds_below n test ≡ true → i < n → test i ≡ true
holds_below-each zero test i h below = absurd (omega arith)
holds_below-each (suc n) test i h below = elim (Bool-cases (i == n)) [
  | inl here ↦
      let same : i ≡ n = ground (arith, here) in
      ap test same ∙ if-eq (test n) (λ yes _. yes) (λ no e. absurd (ground (arith, e))) h
  | inr further ↦
      if-eq (test n) (λ yes e. holds_below-each n test i e (ground (arith, below, further)))
        (λ no e. absurd (ground (arith, e))) h
]

abbrev pub same_bool : Bool → Bool → Bool
same_bool true b = b
same_bool false true = false
same_bool false false = true

pub same_bool-eq : (a b : Bool) → same_bool a b ≡ true → a ≡ b
same_bool-eq true b h = ground (arith, h)
same_bool-eq false true h = ground (arith, h)
same_bool-eq false false h = refl
