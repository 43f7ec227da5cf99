-- ===== src/Sessions/Context/Index.antt =====
-- What the code relies on of the hash table (`lh_SSL_SESSION_insert` and the others), and what it holds.
use openssl_3_0_bee2evp.Prelude.{
  ℕ, suc, ◌-◌, ◌<◌, ◌≡◌, ◌∙◌, refl, sym, ap, subst, Bool, true, false, Option, none, some, List, [],
  ◌∷◌, ◌==◌, length, arith, if◌then◌else◌, Bool-cases, inl, inr,
}
use openssl_3_0_bee2evp.Sessions.{session, Cache}
use openssl_3_0_bee2evp.Sessions.Linked.{has, IsRepeatFree, rest_of}
use openssl_3_0_bee2evp.Sessions.Remove.{delete, has-delete-same}
use openssl_3_0_bee2evp.Sessions.Context.{Key, same_id, same_key, key, Table, is_empty}

abbrev pub is_some : {A : Type 0} → Option A → Bool
is_some none = false
is_some (some a) = true

-- The documented behaviour of the functions of a hash table.
pub record IsTable {H : Type 0} (t : Table H) : Type 0 where
  pub insert_fails : (h : H) (k : Key) (x : ℕ) → t.has_memory h ≡ false → t.insert h k x ≡ (h, none)
  pub insert_returns :
      (h : H) (k : Key) (x : ℕ) → t.has_memory h ≡ true → (t.insert h k x).1 ≡ t.retrieve h k
  pub retrieve_insert :
      (h : H) (k : Key) (x : ℕ) (j : Key)
      → t.has_memory h ≡ true
      → t.retrieve (t.insert h k x).0 j ≡ (if same_key k j then some x else t.retrieve h j)
  pub num_items_insert :
      (h : H) (k : Key) (x : ℕ)
      → t.has_memory h ≡ true
      → t.num_items (t.insert h k x).0
        ≡ (if is_some (t.retrieve h k) then t.num_items h else suc (t.num_items h))
  pub delete_returns : (h : H) (k : Key) → (t.delete h k).1 ≡ t.retrieve h k
  pub retrieve_delete :
      (h : H) (k j : Key)
      → t.retrieve (t.delete h k).0 j ≡ (if same_key k j then none else t.retrieve h j)
  pub num_items_delete :
      (h : H) (k : Key)
      → t.num_items (t.delete h k).0
        ≡ (if is_some (t.retrieve h k) then t.num_items h - 1 else t.num_items h)

abbrev pub listed : ℕ → List ℕ → Bool
listed a xs = has (session a) (rest_of xs)

-- The table holds these sessions, each under its key and no key empty.
pub record IsIndexed {H : Type 0} (t : Table H) (c : Cache) (h : H) (xs : List ℕ) : Type 0 where
  pub holds : (a : ℕ) → listed a xs ≡ true → t.retrieve h (key (c.heap a)) ≡ some a
  pub only :
      (k : Key) (a : ℕ) → t.retrieve h k ≡ some a → (listed a xs ≡ true) × (key (c.heap a) ≡ k)
  pub counted : t.num_items h ≡ length xs
  pub named : (a : ℕ) → listed a xs ≡ true → is_empty (c.heap a).session_id ≡ false

same_id-eq : (x y : List ℕ) → same_id x y ≡ true → x ≡ y
same_id-eq [] [] e = refl
same_id-eq [] (b ∷ y) e = absurd (ground (arith, e))
same_id-eq (a ∷ x) [] e = absurd (ground (arith, e))
same_id-eq (a ∷ x) (b ∷ y) e = ground (arith, e, same_id-eq x y)

same_id_refl : (x : List ℕ) → same_id x x ≡ true
same_id_refl [] = refl
same_id_refl (a ∷ x) = ground (arith, same_id_refl x)

pub same_key-eq : (k j : Key) → same_key k j ≡ true → k ≡ j
same_key-eq k j e = ground (arith, e, same_id-eq k.session_id j.session_id)

pub same_key_refl : (k : Key) → same_key k k ≡ true
same_key_refl k = ground (arith, same_id_refl k.session_id)

-- A list with a member is not empty.
pub positive : (a : ℕ) (xs : List ℕ) → listed a xs ≡ true → 0 < length xs
positive a [] there = absurd (ground (arith, there))
positive a (y ∷ ys) there = omega arith

pub length-delete :
    (a : ℕ) (xs : List ℕ) → listed a xs ≡ true → length (delete a xs) ≡ length xs - 1
length-delete a [] there = absurd (ground (arith, there))
length-delete a (y ∷ ys) there = elim (Bool-cases (y == a)) [
  | inl found ↦ rw found (omega arith)
  | inr other ↦
      let later : listed a ys ≡ true = ground (arith, there, other) in
      rw other (omega (arith, length-delete a ys later, positive a ys later))
]

module _ {H : Type 0} (t : Table H) (laws : IsTable t) (c : Cache) (h : H) (xs : List ℕ)
    (indexed : IsIndexed t c h xs) where
  -- Two members with one key are one.
  one_key :
      (a b : ℕ)
      → listed a xs ≡ true
      → listed b xs ≡ true
      → same_key (key (c.heap a)) (key (c.heap b)) ≡ true
      → a ≡ b
  one_key a b there here same = ground (
    arith,
    indexed.holds a there,
    indexed.holds b here,
    ap (t.retrieve h) (same_key-eq (key (c.heap a)) (key (c.heap b)) same),
  )

  module _ (a : ℕ) (there : listed a xs ≡ true) (free : IsRepeatFree (rest_of xs)) where
    kept_holds :
        (b : ℕ)
        → listed b (delete a xs) ≡ true
        → t.retrieve (t.delete h (key (c.heap a))).0 (key (c.heap b)) ≡ some b
    kept_holds b here =
        let k = key (c.heap a) in
        let j = key (c.heap b) in
        let still = has-delete-same a b xs free in
        let member : listed b xs ≡ true = ground (arith, here, still) in
        let other : same_key k j ≡ false = elim (Bool-cases (same_key k j)) [
          | inl same ↦ absurd (ground (arith, here, still, one_key a b there member same))
          | inr other ↦ other
        ] in
        laws.retrieve_delete h k j ∙ rw other (indexed.holds b member)

    kept_only :
        (j : Key) (b : ℕ)
        → t.retrieve (t.delete h (key (c.heap a))).0 j ≡ some b
        → (listed b (delete a xs) ≡ true) × (key (c.heap b) ≡ j)
    kept_only j b e =
        let k = key (c.heap a) in
        let found : (if same_key k j then none else t.retrieve h j) ≡ some b =
          sym (laws.retrieve_delete h k j) ∙ e in
        let old : t.retrieve h j ≡ some b = ground (arith, found) in
        let apart : same_key k j ≡ false = ground (arith, found) in
        let fact = indexed.only j b old in
        let other : (b == a) ≡ false = elim (Bool-cases (b == a)) [
          | inl one ↦
              let same : b ≡ a = ground (arith, one) in
              let k_is : k ≡ j = ap (λ a. key (c.heap a)) (sym same) ∙ fact.1 in
              absurd
                (ground (arith, apart, subst (λ j. same_key k j ≡ true) k_is (same_key_refl k)))
          | inr other ↦ other
        ] in
        (ground (arith, fact.0, other, has-delete-same a b xs free), fact.1)

    pub delete-IsIndexed : IsIndexed t c (t.delete h (key (c.heap a))).0 (delete a xs)
    delete-IsIndexed = record {
      holds = kept_holds;
      only = kept_only;
      counted = ground (
        arith,
        laws.num_items_delete h (key (c.heap a)),
        indexed.holds a there,
        indexed.counted,
        length-delete a xs there,
      );
      named = λ b here. indexed.named b (ground (arith, here, has-delete-same a b xs free));
    }
