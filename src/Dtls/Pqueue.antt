-- ===== src/Dtls/Pqueue.antt =====
-- The priority queue of ssl/pqueue.c: a linked list, as the list of its items. A priority is the
-- number that its eight bytes encode, since the code compares them as big-endian numbers.
pub mod Order
pub mod Find
use openssl_3_0_bee2evp.Prelude.{
  ℕ, suc, ◌+◌, Bool, true, false, Option, none, some, List, [], ◌∷◌, ltb, ◌==◌, if◌then◌else◌,
}

-- `pitem`, but for the link
pub record Pitem (A : Type 0) : Type 0 where
  pub priority : ℕ
  pub value : A

module _ {A : Type 0} where
  unfoldable pub pitem_new : ℕ → A → Pitem A
  pitem_new prio x = record { priority = prio; value = x }

  -- The new queue, and whether the item was inserted: an item of the same priority is kept instead.
  unfoldable pub insert : List (Pitem A) → Pitem A → List (Pitem A) × Bool
  insert [] item = (item ∷ [], true)
  insert (next ∷ rest) item =
      let (rest', done) = insert rest item in
      if ltb item.priority next.priority
      then (item ∷ next ∷ rest, true)
      else if next.priority == item.priority
      then (next ∷ rest, false)
      else (next ∷ rest', done)

  unfoldable pub peek : List (Pitem A) → Option (Pitem A)
  peek [] = none
  peek (item ∷ rest) = some item

  unfoldable pub pop : List (Pitem A) → Option (Pitem A) × List (Pitem A)
  pop [] = (none, [])
  pop (item ∷ rest) = (some item, rest)

  -- The loop stops at the last item, which is looked at after it.
  unfoldable pub find : List (Pitem A) → ℕ → Option (Pitem A)
  find [] prio = none
  find (last ∷ []) prio = if last.priority == prio then some last else none
  find (next ∷ other ∷ rest) prio =
      let later = find (other ∷ rest) prio in if next.priority == prio then some next else later

  -- `pqueue_iterator` is `peek`; an iterator is the list of the items still to come.
  unfoldable pub next_item : List (Pitem A) → Option (Pitem A) × List (Pitem A)
  next_item [] = (none, [])
  next_item (item ∷ rest) = (some item, rest)

  unfoldable pub size_from : ℕ → List (Pitem A) → ℕ
  size_from count [] = count
  size_from count (item ∷ rest) = size_from (count + 1) rest

  -- `pqueue_size`; a list in memory is too short for `size_t` to wrap.
  unfoldable pub size : List (Pitem A) → ℕ
  unfolding size_from
  size q = size_from 0 q
