-- ===== src/Sessions/Tests/Assoc.antt =====
-- A table that has the documented behaviour: a list of keys and items, with memory or without.
use openssl_3_0_bee2evp.Prelude.{
  ℕ, suc, ◌-◌, ◌<◌, ◌≡◌, ◌∙◌, refl, sym, subst, Bool, true, false, Option, none, some, List, [],
  ◌∷◌, arith, Bool-cases, inl, inr, if◌then◌else◌,
}
use openssl_3_0_bee2evp.Sessions.Context.{Key, same_key, Table}
use openssl_3_0_bee2evp.Sessions.Context.Index.{is_some, IsTable, same_key-eq, same_key_refl}

abbrev pub Items : Type 0
Items = List (Key × ℕ)

abbrev pub find : Items → Key → Option ℕ
find [] k = none
find ((j, x) ∷ h) k = if same_key k j then some x else find h k

abbrev pub drop : Items → Key → Items
drop [] k = []
drop ((j, x) ∷ h) k = if same_key k j then drop h k else (j, x) ∷ drop h k

-- The number of keys.
abbrev pub count : Items → ℕ
count [] = 0
count ((j, x) ∷ h) = if is_some (find h j) then count h else suc (count h)

abbrev pub table : Bool → Table Items
table memory = record {
  retrieve = find;
  insert = λ h k x. if memory then ((k, x) ∷ drop h k, find h k) else (h, none);
  delete = λ h k. (drop h k, find h k);
  num_items = count;
  has_memory = λ h. memory;
}

same_key-sym : (k j : Key) → same_key k j ≡ false → same_key j k ≡ false
same_key-sym k j apart = elim (Bool-cases (same_key j k)) [
  | inl same ↦
      let e = same_key-eq j k same in
      absurd (ground (arith, apart, subst (λ j. same_key k j ≡ true) (sym e) (same_key_refl k)))
  | inr other ↦ other
]

find-drop : (h : Items) (k j : Key) → find (drop h k) j ≡ (if same_key k j then none else find h j)
find-drop [] k j = ground arith
find-drop ((i, x) ∷ h) k j = elim (Bool-cases (same_key k i)) [
  | inl same ↦ elim (Bool-cases (same_key k j)) [
    | inl also ↦ rw (same, also) (find-drop h k j ∙ rw also refl)
    | inr apart ↦
        let e = same_key-eq k i same in
        let other : same_key j i ≡ false =
          subst (λ i. same_key j i ≡ false) e (same_key-sym k j apart) in
        rw (same, other) (find-drop h k j)
  ]
  | inr apart ↦ elim (Bool-cases (same_key k j)) [
    | inl also ↦
        let e = same_key-eq k j also in
        let other : same_key j i ≡ false = subst (λ j. same_key j i ≡ false) e apart in
        rw (apart, other, also) (find-drop h k j ∙ rw also refl)
    | inr other ↦ ground (arith, apart, other, find-drop h k j)
  ]
]

counted : (h : Items) (k : Key) → is_some (find h k) ≡ true → 0 < count h
counted [] k e = absurd (ground (arith, e))
counted ((j, x) ∷ h) k e = ground (arith, counted h j)

count-drop :
    (h : Items) (k : Key) → count (drop h k) ≡ (if is_some (find h k) then count h - 1 else count h)
count-drop [] k = ground arith
count-drop ((j, x) ∷ h) k = elim (Bool-cases (same_key k j)) [
  | inl same ↦
      let e = same_key-eq k j same in
      rw same (
        count-drop h k
        ∙ subst
            (λ j.
              (if is_some (find h k) then count h - 1 else count h)
              ≡ (if is_some (find h j) then count h else suc (count h)) - 1)
            e (ground arith))
  | inr apart ↦
      rw (apart, find-drop h k j, apart) (ground (arith, count-drop h k, counted h k, counted h j))
]

found :
    (h : Items) (k : Key) (x : ℕ) (j : Key)
    → find ((k, x) ∷ drop h k) j ≡ (if same_key k j then some x else find h j)
found h k x j = elim (Bool-cases (same_key k j)) [
  | inl same ↦
      let e = same_key-eq k j same in
      let back : same_key j k ≡ true = subst (λ j. same_key j k ≡ true) e (same_key_refl k) in
      rw (same, back) refl
  | inr apart ↦ rw (apart, same_key-sym k j apart) (find-drop h k j ∙ rw apart refl)
]

size :
    (h : Items) (k : Key) (x : ℕ)
    → count ((k, x) ∷ drop h k) ≡ (if is_some (find h k) then count h else suc (count h))
size h k x =
    let none_left : find (drop h k) k ≡ none = find-drop h k k ∙ rw (same_key_refl k) refl in
    rw none_left (ground (arith, count-drop h k, counted h k))

pub table-IsTable : (memory : Bool) → IsTable (table memory)
table-IsTable memory = record {
  insert_fails = λ h k x e. rw e refl;
  insert_returns = λ h k x e. rw e refl;
  retrieve_insert = λ h k x j e. rw e (found h k x j);
  num_items_insert = λ h k x e. rw e (size h k x);
  delete_returns = λ h k. refl;
  retrieve_delete = find-drop;
  num_items_delete = count-drop;
}
