-- ===== src/Dtls/Pqueue/Order.antt =====
-- The queue is kept in strictly ascending order of priority, so that `pop` returns the least.
use openssl_3_0_bee2evp.Prelude.{
  ℕ, ◌+◌, ◌≤◌, ◌<◌, ◌≡◌, ◌⊎◌, true, false, some, List, [], ◌∷◌, length, arith,
}
use openssl_3_0_bee2evp.Dtls.Pqueue.{Pitem, insert, peek, pop, size_from, size}

-- Each item of the list is above a priority.
abbrev pub Above : {A : Type 0} → ℕ → List (Pitem A) → Type 0
Above n [] = Unit
Above n (x ∷ q) = (n < x.priority) × Above n q

-- Strictly ascending priorities.
abbrev pub IsSorted : {A : Type 0} → List (Pitem A) → Type 0
IsSorted [] = Unit
IsSorted (x ∷ q) = Above x.priority q × IsSorted q

module _ {A : Type 0} where
  pub Above-trans : (n m : ℕ) (q : List (Pitem A)) → n ≤ m → Above m q → Above n q
  Above-trans n m [] h a = tt
  Above-trans n m (x ∷ q) h a = (omega arith, Above-trans n m q h (a.1))

  insert-Above :
      (n : ℕ) (q : List (Pitem A)) (x : Pitem A)
      → n < x.priority
      → Above n q
      → Above n (insert q x).0
  unfolding insert
  insert-Above n [] x h a = (h, tt)
  insert-Above n (y ∷ q) x h a = ground (arith, insert-Above n q x h (a.1))

  -- Inserting keeps the order, also when the priority is there already.
  pub insert-IsSorted : (q : List (Pitem A)) (x : Pitem A) → IsSorted q → IsSorted (insert q x).0
  unfolding insert
  insert-IsSorted [] x s = (tt, tt)
  insert-IsSorted (y ∷ q) x s = ground (
    arith,
    insert-IsSorted q x (s.1),
    insert-Above y.priority q x,
    λ (h : x.priority ≤ y.priority). Above-trans x.priority y.priority q h (s.0),
  )

  -- What `pop` returns is what `peek` returned, it is below all the items that are left, and these
  -- are in order again.
  pop_least :
      (q : List (Pitem A)) (x : Pitem A)
      → IsSorted q
      → peek q ≡ some x
      → ((pop q).0 ≡ some x) × Above x.priority (pop q).1 × IsSorted (pop q).1
  unfolding peek pop
  pop_least [] x s h = cc
  pop_least (y ∷ q) x s h = ground arith

  size_from-eq : (n : ℕ) (q : List (Pitem A)) → size_from n q ≡ n + length q
  unfolding size_from
  size_from-eq n [] = omega arith
  size_from-eq n (x ∷ q) = omega (arith, size_from-eq (n + 1) q)

  insert-length :
      (q : List (Pitem A)) (x : Pitem A)
      → (((insert q x).1 ≡ true) × (length (insert q x).0 ≡ length q + 1))
        ⊎ (((insert q x).1 ≡ false) × ((insert q x).0 ≡ q))
  unfolding insert
  insert-length [] x = ground arith
  insert-length (y ∷ q) x = ground (arith, insert-length q x)

  -- An insertion that takes place makes the queue one longer; one that does not leaves the queue as
  -- it was.
  insert-size :
      (q : List (Pitem A)) (x : Pitem A)
      → (((insert q x).1 ≡ true) × (size (insert q x).0 ≡ size q + 1))
        ⊎ (((insert q x).1 ≡ false) × ((insert q x).0 ≡ q))
  unfolding size
  insert-size q x =
      ground (arith, insert-length q x, size_from-eq 0 q, size_from-eq 0 (insert q x).0)
