-- ===== src/Dtls/Pqueue/Find.antt =====
-- The queue as a map from priorities to items.
use openssl_3_0_bee2evp.Prelude.{
  ℕ, ◌≤◌, ◌≡◌, refl, Option, none, some, List, [], ◌∷◌, ◌==◌, if◌then◌else◌, arith,
}
use openssl_3_0_bee2evp.Dtls.Pqueue.{Pitem, insert, pop, find}
use openssl_3_0_bee2evp.Dtls.Pqueue.Order.{Above, IsSorted, Above-trans}

abbrev pub or_else : {A : Type 0} → Option A → Option A → Option A
or_else none b = b
or_else (some a) b = some a

module _ {A : Type 0} where
  -- The search as a plain recursion.
  pub find-cons :
      (x : Pitem A) (q : List (Pitem A)) (n : ℕ)
      → find (x ∷ q) n ≡ (if x.priority == n then some x else find q n)
  unfolding find
  find-cons x [] n = refl
  find-cons x (y ∷ q) n = refl

  pub find-Above : (n : ℕ) (q : List (Pitem A)) → Above n q → find q n ≡ none
  find-Above n [] a = unfold find in refl
  find-Above n (x ∷ q) a = ground (arith, find-cons x q n, find-Above n q (a.1))

  -- After an insertion the item of a priority is the one that was there before, if there was one,
  -- and else the new item at its own priority.
  find-insert :
      (q : List (Pitem A)) (x : Pitem A) (n : ℕ)
      → IsSorted q
      → find (insert q x).0 n ≡ or_else (find q n) (if x.priority == n then some x else none)
  unfolding insert
  find-insert [] x n s = ground (arith, find-cons x [] n, find-Above n [] tt)
  find-insert (y ∷ q) x n s = ground (
    arith,
    find-cons y q n,
    find-cons x (y ∷ q) n,
    find-cons y (insert q x).0 n,
    find-insert q x n (s.1),
    λ (h : n ≤ y.priority). find-Above n q (Above-trans n y.priority q h (s.0)),
  )

  -- After `pop` the item that it returned is not found any more, and every other item still is.
  find-pop :
      (x : Pitem A) (q : List (Pitem A)) (n : ℕ)
      → IsSorted (x ∷ q)
      → find (pop (x ∷ q)).1 n ≡ (if x.priority == n then none else find (x ∷ q) n)
  unfolding pop
  find-pop x q n s = ground (arith, find-cons x q n, find-Above n q)
