-- ===== src/Dtls/Inbox/Items.antt =====
-- The items of the queue of received messages.
use openssl_3_0_bee2evp.Prelude.{
  subst, ℕ, ◌+◌, ◌≤◌, ◌≡◌, ◌∙◌, ap, sym, Bool, true, ◌||◌, some, List, [], ◌∷◌, length, ltb, leb,
  ◌==◌, if-eq, Bool-cases, inl, inr, arith,
}
use openssl_3_0_bee2evp.Dtls.Pqueue.{Pitem, insert, find}
use openssl_3_0_bee2evp.Dtls.Pqueue.Order.{IsSorted, Above}
use openssl_3_0_bee2evp.Dtls.Pqueue.Find.{find-cons}
use openssl_3_0_bee2evp.Dtls.Reassembly.{HmFragment}
use openssl_3_0_bee2evp.Dtls.Inbox.{set_value}

-- A message number that may wait: at most 10 ahead, or what may be left from before a restart.
abbrev pub near : ℕ → ℕ → Bool
near read_seq seq = leb seq (read_seq + 10) || leb seq 11

-- An item whose message is near, not longer than `max`, and fits its buffer exactly.
pub record IsItem (read_seq max : ℕ) (item : Pitem HmFragment) : Type 0 where
  pub numbered : item.priority ≡ item.value.msg_header.seq
  pub is_near : near read_seq item.value.msg_header.seq ≡ true
  pub short : item.value.msg_header.msg_len ≤ max
  pub fits : length item.value.fragment ≡ item.value.msg_header.msg_len

pub data AreItems (read_seq max : ℕ) : List (Pitem HmFragment) → Type 0 where
  no_items : AreItems read_seq max []
  an_item :
      (item : Pitem HmFragment) (q : List (Pitem HmFragment))
      → IsItem read_seq max item
      → AreItems read_seq max q
      → AreItems read_seq max (item ∷ q)

module _ (read_seq max : ℕ) where
  pub insert-AreItems :
      (q : List (Pitem HmFragment)) (x : Pitem HmFragment)
      → IsItem read_seq max x
      → AreItems read_seq max q
      → AreItems read_seq max (insert q x).0
  unfolding insert
  insert-AreItems _ x h no_items = an_item x [] h no_items
  insert-AreItems _ x h (an_item item q i is) = elim (Bool-cases (ltb x.priority item.priority)) [
    | inl before ↦ rw before (an_item x _ h (an_item item q i is))
    | inr after ↦ elim (Bool-cases (item.priority == x.priority)) [
      | inl same ↦ rw (after, same) (an_item item q i is)
      | inr other ↦ rw (after, other) (an_item item _ i (insert-AreItems q x h is))
    ]
  ]

  pub set_value-AreItems :
      (prio : ℕ) (frag : HmFragment) (q : List (Pitem HmFragment))
      → IsItem read_seq max (record { priority = prio; value = frag })
      → AreItems read_seq max q
      → AreItems read_seq max (set_value prio frag q)
  set_value-AreItems prio frag _ h no_items = no_items
  set_value-AreItems prio frag _ h (an_item item q i is) =
      elim (Bool-cases (item.priority == prio)) [
        | inl here ↦
            let same : prio ≡ item.priority = ground (arith, here) in
            rw here (
              an_item _ q
                (record {
                  numbered = sym same ∙ h.numbered;
                  is_near = h.is_near;
                  short = h.short;
                  fits = h.fits;
                })
                is)
        | inr other ↦ rw other (an_item item _ i (set_value-AreItems prio frag q h is))
      ]

  pub find-IsItem :
      (q : List (Pitem HmFragment)) (prio : ℕ) (x : Pitem HmFragment)
      → AreItems read_seq max q
      → find q prio ≡ some x
      → IsItem read_seq max x
  find-IsItem _ prio x no_items e = absurd (unfold find in ground (arith, e))
  find-IsItem _ prio x (an_item item q i is) e =
      if-eq (item.priority == prio) (λ here e. subst (IsItem read_seq max) (ground (arith, e)) i)
        (λ other e. find-IsItem q prio x is e) (sym (find-cons item q prio) ∙ e)

module _ (prio : ℕ) (frag : HmFragment) where
  set_value-Above :
      (n : ℕ) (q : List (Pitem HmFragment)) → Above n q → Above n (set_value prio frag q)
  set_value-Above n [] a = tt
  set_value-Above n (item ∷ q) a = elim (Bool-cases (item.priority == prio)) [
    | inl here ↦ rw here a
    | inr other ↦ rw other (a.0, set_value-Above n q (a.1))
  ]

  pub set_value-IsSorted :
      (q : List (Pitem HmFragment)) → IsSorted q → IsSorted (set_value prio frag q)
  set_value-IsSorted [] s = tt
  set_value-IsSorted (item ∷ q) s = elim (Bool-cases (item.priority == prio)) [
    | inl here ↦ rw here s
    | inr other ↦ rw other (set_value-Above item.priority q (s.0), set_value-IsSorted q (s.1))
  ]

pub some_same : (x y : Pitem HmFragment) → some x ≡ some y → x ≡ y
some_same x y e = ground (arith, e)

pub find-priority :
    (q : List (Pitem HmFragment)) (prio : ℕ) (x : Pitem HmFragment)
    → find q prio ≡ some x
    → x.priority ≡ prio
find-priority [] prio x e = absurd (unfold find in ground (arith, e))
find-priority (item ∷ q) prio x e =
    if-eq (item.priority == prio)
      (λ here e. sym (ap (λ i. i.priority) (some_same item x e)) ∙ ground (arith, here))
      (λ other e. find-priority q prio x e) (sym (find-cons item q prio) ∙ e)
