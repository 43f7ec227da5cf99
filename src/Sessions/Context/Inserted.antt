-- ===== src/Sessions/Context/Inserted.antt =====
-- What the hash table holds after a session was inserted.
use openssl_3_0_bee2evp.Prelude.{
  ℕ, suc, ◌≡◌, ◌∙◌, refl, sym, ap, subst, true, false, not, ◌&&◌, Option, none, some, List, ◌∷◌,
  ◌==◌, length, arith, if◌then◌else◌, Bool-cases, inl, inr,
}
use openssl_3_0_bee2evp.Sessions.{Cache}
use openssl_3_0_bee2evp.Sessions.Linked.{IsRepeatFree, rest_of}
use openssl_3_0_bee2evp.Sessions.Remove.{delete, has-delete-same}
use openssl_3_0_bee2evp.Sessions.Context.{Key, same_key, key, Table, is_empty}
use openssl_3_0_bee2evp.Sessions.Context.Index.{
  IsTable, listed, IsIndexed, same_key-eq, same_key_refl, positive, length-delete,
}

module _ {H : Type 0} (t : Table H) (laws : IsTable t) (c : Cache) (h : H) (xs : List ℕ)
    (indexed : IsIndexed t c h xs) where
  -- A session is inserted; `ys` are the members with other keys.
  module _ (x : ℕ) (room : t.has_memory h ≡ true) (name : is_empty (c.heap x).session_id ≡ false)
      (ys : List ℕ)
      (are_others : (b : ℕ)
        → listed b ys ≡ (listed b xs && not (same_key (key (c.heap x)) (key (c.heap b))))) where
    new_holds :
        (b : ℕ)
        → listed b (x ∷ ys) ≡ true
        → t.retrieve (t.insert h (key (c.heap x)) x).0 (key (c.heap b)) ≡ some b
    new_holds b here = elim (Bool-cases (b == x)) [
      | inl one ↦
          let same : x ≡ b = ground (arith, one) in
          subst (λ b. t.retrieve (t.insert h (key (c.heap x)) x).0 (key (c.heap b)) ≡ some b) same
            (laws.retrieve_insert h (key (c.heap x)) x (key (c.heap x)) room
              ∙ rw (same_key_refl (key (c.heap x))) refl)
      | inr other ↦
          let both : (listed b xs && not (same_key (key (c.heap x)) (key (c.heap b)))) ≡ true =
            ground (arith, here, other, are_others b) in
          let apart : same_key (key (c.heap x)) (key (c.heap b)) ≡ false = ground (arith, both) in
          laws.retrieve_insert h (key (c.heap x)) x (key (c.heap b)) room
          ∙ rw apart (indexed.holds b (ground (arith, both)))
    ]

    new_only :
        (j : Key) (b : ℕ)
        → t.retrieve (t.insert h (key (c.heap x)) x).0 j ≡ some b
        → (listed b (x ∷ ys) ≡ true) × (key (c.heap b) ≡ j)
    new_only j b e =
        let k = key (c.heap x) in
        let found : (if same_key k j then some x else t.retrieve h j) ≡ some b =
          sym (laws.retrieve_insert h k x j room) ∙ e in
        elim (Bool-cases (same_key k j)) [
          | inl same ↦
              let one : x ≡ b = ground (arith, found, same) in
              (ground (arith, one), ap (λ b. key (c.heap b)) (sym one) ∙ same_key-eq k j same)
          | inr apart ↦
              let fact = indexed.only j b (ground (arith, found, apart)) in
              let apart' : same_key k (key (c.heap b)) ≡ false =
                subst (λ j. same_key k j ≡ false) (sym (fact.1)) apart in
              (ground (arith, fact.0, apart', are_others b), fact.1)
        ]

    new_named : (b : ℕ) → listed b (x ∷ ys) ≡ true → is_empty (c.heap b).session_id ≡ false
    new_named b here = elim (Bool-cases (b == x)) [
      | inl one ↦
          let same : x ≡ b = ground (arith, one) in
          subst (λ b. is_empty (c.heap b).session_id ≡ false) same name
      | inr other ↦ indexed.named b (ground (arith, here, other, are_others b))
    ]

    pub insert-IsIndexed :
        t.num_items (t.insert h (key (c.heap x)) x).0 ≡ suc (length ys)
        → IsIndexed t c (t.insert h (key (c.heap x)) x).0 (x ∷ ys)
    insert-IsIndexed count = record {
      holds = new_holds;
      only = new_only;
      counted = count;
      named = new_named;
    }

-- The members with another key than a session that may be new.
abbrev pub others : Option ℕ → List ℕ → List ℕ
others none xs = xs
others (some s) xs = delete s xs

module _ {H : Type 0} (t : Table H) (laws : IsTable t) (c : Cache) (h : H) (xs : List ℕ)
    (indexed : IsIndexed t c h xs) (free : IsRepeatFree (rest_of xs)) (x : ℕ)
    (room : t.has_memory h ≡ true) (name : is_empty (c.heap x).session_id ≡ false) where
  -- A member with the key of the session is what the table has under this key.
  found_under :
      (b : ℕ)
      → listed b xs ≡ true
      → same_key (key (c.heap x)) (key (c.heap b)) ≡ true
      → t.retrieve h (key (c.heap x)) ≡ some b
  found_under b here same =
      ap (t.retrieve h) (same_key-eq (key (c.heap x)) (key (c.heap b)) same) ∙ indexed.holds b here

  are_others :
      (old : Option ℕ)
      → t.retrieve h (key (c.heap x)) ≡ old
      → (b : ℕ)
      → listed b (others old xs) ≡ (listed b xs && not (same_key (key (c.heap x)) (key (c.heap b))))
  are_others none e b = ground (arith, e, found_under b)
  are_others (some s) e b =
      let still = has-delete-same s b xs free in
      elim (Bool-cases (b == s)) [
        | inl one ↦
            let same : s ≡ b = ground (arith, one) in
            let match : same_key (key (c.heap x)) (key (c.heap b)) ≡ true =
              subst (λ j. same_key (key (c.heap x)) j ≡ true)
                (sym (indexed.only (key (c.heap x)) s e).1 ∙ ap (λ b. key (c.heap b)) same)
                (same_key_refl (key (c.heap x))) in
            still ∙ ground (arith, one, match)
        | inr other ↦ still ∙ ground (arith, other, e, found_under b)
      ]

  pub inserted-IsIndexed :
      (old : Option ℕ)
      → t.retrieve h (key (c.heap x)) ≡ old
      → IsIndexed t c (t.insert h (key (c.heap x)) x).0 (x ∷ others old xs)
  inserted-IsIndexed none e =
      insert-IsIndexed t laws c h xs indexed x room name xs (are_others none e)
        (laws.num_items_insert h (key (c.heap x)) x room ∙ rw e (ap suc indexed.counted))
  inserted-IsIndexed (some s) e =
      let member = (indexed.only (key (c.heap x)) s e).0 in
      insert-IsIndexed t laws c h xs indexed x room name (delete s xs) (are_others (some s) e) (
        ground (
          arith,
          laws.num_items_insert h (key (c.heap x)) x room,
          e,
          indexed.counted,
          length-delete s xs member,
          positive s xs member,
        ))

  pub others_absent :
      (old : Option ℕ) → t.retrieve h (key (c.heap x)) ≡ old → listed x (others old xs) ≡ false
  others_absent old e =
      let self = same_key_refl (key (c.heap x)) in are_others old e x ∙ ground (arith, self)
