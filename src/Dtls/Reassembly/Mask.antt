-- ===== src/Dtls/Reassembly/Mask.antt =====
-- The bits that `RSMBLY_BITMASK_MARK` sets.
use openssl_3_0_bee2evp.Prelude.{
  ℕ, zero, suc, ◌+◌, ◌-◌, ◌*◌, ◌/◌, ◌%◌, ◌<◌, ◌≤◌, ◌≡◌, ◌∙◌, refl, ap, inl, inr, Bool, true, false,
  ◌&&◌, ◌||◌, List, [], ◌∷◌, length, ltb, leb, ◌==◌, if◌then◌else◌, Bool-cases, arith, holds_below,
  holds_below-each, same_bool, same_bool-eq,
}
use openssl_3_0_bee2evp.Dtls.Bitmap.{bit_at, zeros_before}
use openssl_3_0_bee2evp.Dtls.Reassembly.{
  element, update, or_bits, bitmask_start_values, bitmask_end_values, full_byte, mark_bits,
  fill_bytes, mark,
}

-- A bit of the bitmask.
abbrev pub covered : List (List Bool) → ℕ → Bool
covered m i = bit_at (element [] m (i / 8)) (i % 8)

pub element-update {ℓ} :
    {A : Type ℓ} (d : A) (f : A → A) (xs : List A) (i j : ℕ)
    → element d (update f xs i) j
      ≡ (if i == j && ltb i (length xs) then f (element d xs j) else element d xs j)
element-update d f [] i j = ground arith
element-update d f (x ∷ xs) zero zero = ground arith
element-update d f (x ∷ xs) zero (suc j) = ground arith
element-update d f (x ∷ xs) (suc i) zero = ground arith
element-update d f (x ∷ xs) (suc i) (suc j) = ground (arith, element-update d f xs i j)

pub length-update {ℓ} :
    {A : Type ℓ} (f : A → A) (xs : List A) (i : ℕ) → length (update f xs i) ≡ length xs
length-update f [] i = refl
length-update f (x ∷ xs) zero = refl
length-update f (x ∷ xs) (suc i) = ap suc (length-update f xs i)

bit_at-or_bits : (a b : List Bool) (i : ℕ) → bit_at (or_bits a b) i ≡ (bit_at a i || bit_at b i)
bit_at-or_bits [] b i = refl
bit_at-or_bits (x ∷ a) [] i = ground arith
bit_at-or_bits (x ∷ a) (y ∷ b) zero = refl
bit_at-or_bits (x ∷ a) (y ∷ b) (suc i) = bit_at-or_bits a b i

bit_at-single : (n i : ℕ) → bit_at (zeros_before n (true ∷ [])) i ≡ (i == n)
unfolding zeros_before
bit_at-single zero zero = refl
bit_at-single zero (suc i) = ground arith
bit_at-single (suc n) zero = ground arith
bit_at-single (suc n) (suc i) = ground (arith, bit_at-single n i)

-- The tables, by evaluation.
abbrev start_bit_is : ℕ → ℕ → Bool
start_bit_is k j = same_bool (bit_at (element [] bitmask_start_values k) j) (leb k j)

abbrev end_bit_is : ℕ → ℕ → Bool
end_bit_is k j = same_bool (bit_at (element [] bitmask_end_values k) j) (k == 0 || ltb j k)

start_table : holds_below 8 (λ k. holds_below 8 (start_bit_is k)) ≡ true
start_table = refl

end_table : holds_below 8 (λ k. holds_below 8 (end_bit_is k)) ≡ true
end_table = refl

bit_at-start : (k j : ℕ) → k < 8 → j < 8 → bit_at (element [] bitmask_start_values k) j ≡ leb k j
bit_at-start k j p q = same_bool-eq _ _ (
    holds_below-each 8 (start_bit_is k) j
      (holds_below-each 8 (λ x. holds_below 8 (start_bit_is x)) k start_table p) q)

pub bit_at-end :
    (k j : ℕ) → k < 8 → j < 8 → bit_at (element [] bitmask_end_values k) j ≡ (k == 0 || ltb j k)
bit_at-end k j p q = same_bool-eq _ _ (
    holds_below-each 8 (end_bit_is k) j
      (holds_below-each 8 (λ x. holds_below 8 (end_bit_is x)) k end_table p) q)

pub bit_at-full : (j : ℕ) → j < 8 → bit_at full_byte j ≡ true
bit_at-full j q = holds_below-each 8 (bit_at full_byte) j refl q

-- One byte of the bitmask.
covered-or :
    (m : List (List Bool)) (b : List Bool) (n i : ℕ)
    → n < length m
    → covered (update (or_bits b) m n) i
      ≡ (if n == i / 8 then bit_at b (i % 8) || covered m i else covered m i)
covered-or m b n i h =
    ap (λ byte. bit_at byte (i % 8)) (element-update [] (or_bits b) m n (i / 8))
    ∙ go (n == i / 8) (ltb n (length m)) (ground (arith, h))
  where
    go :
        (here : Bool) (inside : Bool)
        → inside ≡ true
        → bit_at
            (if here && inside then or_bits b (element [] m (i / 8)) else element [] m (i / 8))
            (i % 8)
          ≡ (if here then bit_at b (i % 8) || covered m i else covered m i)
    go true true e = bit_at-or_bits b (element [] m (i / 8)) (i % 8)
    go false true e = refl
    go here false e = absurd (ground (arith, e))

covered-mark_bits :
    (n ii : ℕ) (m : List (List Bool)) (i : ℕ)
    → ii + n ≤ 8 * length m
    → covered (mark_bits n ii m) i ≡ (covered m i || (leb ii i && ltb i (ii + n)))
unfolding mark_bits
covered-mark_bits zero ii m i h = ground arith
covered-mark_bits (suc n) ii m i h =
    let b = zeros_before (ii % 8) (true ∷ []) in
    let m' = update (or_bits b) m (ii / 8) in
    ground (
      arith,
      h,
      length-update (or_bits b) m (ii / 8),
      covered-mark_bits n (suc ii) m' i,
      covered-or m b (ii / 8) i,
      bit_at-single (ii % 8) (i % 8),
    )

covered-full :
    (m : List (List Bool)) (n i : ℕ)
    → n < length m
    → covered (update (λ b. full_byte) m n) i ≡ (n == i / 8 || covered m i)
covered-full m n i h =
    ap (λ byte. bit_at byte (i % 8)) (element-update [] (λ b. full_byte) m n (i / 8))
    ∙ go (n == i / 8) (ltb n (length m)) (ground (arith, h))
  where
    go :
        (here : Bool) (inside : Bool)
        → inside ≡ true
        → bit_at (if here && inside then full_byte else element [] m (i / 8)) (i % 8)
          ≡ (here || covered m i)
    go true true e = bit_at-full (i % 8) (omega arith)
    go false true e = refl
    go here false e = absurd (ground (arith, e))

covered-fill_bytes :
    (n ii : ℕ) (m : List (List Bool)) (i : ℕ)
    → ii + n ≤ length m
    → covered (fill_bytes n ii m) i ≡ (covered m i || (leb ii (i / 8) && ltb (i / 8) (ii + n)))
unfolding fill_bytes
covered-fill_bytes zero ii m i h = ground arith
covered-fill_bytes (suc n) ii m i h =
    let m' = update (λ b. full_byte) m ii in
    ground (
      arith,
      h,
      length-update (λ b. full_byte) m ii,
      covered-fill_bytes n (suc ii) m' i,
      covered-full m ii i,
    )

length-fill_bytes : (n ii : ℕ) (m : List (List Bool)) → length (fill_bytes n ii m) ≡ length m
unfolding fill_bytes
length-fill_bytes zero ii m = refl
length-fill_bytes (suc n) ii m =
    length-fill_bytes n (suc ii) (update (λ b. full_byte) m ii)
    ∙ length-update (λ b. full_byte) m ii

-- The bits that the first byte, the whole bytes and the last byte add up to.
bits_add_up :
    (start end i : ℕ) (c : Bool)
    → start + 8 < end
    → (if (end - 1) / 8 == i / 8
        then (end % 8 == 0 || ltb (i % 8) (end % 8))
          || ((if start / 8 == i / 8 then leb (start % 8) (i % 8) || c else c)
              || (leb (start / 8 + 1) (i / 8)
                  && ltb (i / 8) (start / 8 + 1 + ((end - 1) / 8 - (start / 8 + 1)))))
        else ((if start / 8 == i / 8 then leb (start % 8) (i % 8) || c else c)
            || (leb (start / 8 + 1) (i / 8)
                && ltb (i / 8) (start / 8 + 1 + ((end - 1) / 8 - (start / 8 + 1))))))
      ≡ (c || (leb start i && ltb i end))
bits_add_up start end i true long = ground (arith, long)
bits_add_up start end i false long = ground (arith, long)

mark_long :
    (start end i : ℕ) (m : List (List Bool))
    → start + 8 < end
    → end ≤ 8 * length m
    → covered
        (update
          (or_bits (element [] bitmask_end_values (end % 8)))
          (fill_bytes
            ((end - 1) / 8 - (start / 8 + 1))
            (start / 8 + 1)
            (update (or_bits (element [] bitmask_start_values (start % 8))) m (start / 8)))
          ((end - 1) / 8))
        i
      ≡ (covered m i || (leb start i && ltb i end))
mark_long start end i m long inside =
    let first = element [] bitmask_start_values (start % 8) in
    let last = element [] bitmask_end_values (end % 8) in
    let m1 = update (or_bits first) m (start / 8) in
    let n = (end - 1) / 8 - (start / 8 + 1) in
    let m2 = fill_bytes n (start / 8 + 1) m1 in
    let size1 = length-update (or_bits first) m (start / 8) in
    let size2 : length m2 ≡ length m = length-fill_bytes n (start / 8 + 1) m1 ∙ size1 in
    rw
      (
        covered-or m2 last ((end - 1) / 8) i (omega (arith, size2, long, inside)),
        covered-fill_bytes n (start / 8 + 1) m1 i (omega (arith, size1, long, inside)),
        covered-or m first (start / 8) i (omega (arith, long, inside)),
        bit_at-start (start % 8) (i % 8) (omega arith) (omega arith),
        bit_at-end (end % 8) (i % 8) (omega arith) (omega arith),
      )
      (bits_add_up start end i (covered m i) long)

-- `RSMBLY_BITMASK_MARK` sets the bits of the bytes from `start` to the one before `end`, and no other.
pub covered-mark :
    (start end i : ℕ) (m : List (List Bool))
    → start < end
    → end ≤ 8 * length m
    → covered (mark start end m) i ≡ (covered m i || (leb start i && ltb i end))
unfolding mark
covered-mark start end i m some_byte inside = elim (Bool-cases (leb (end - start) 8)) [
  | inl short ↦ rw short (
      covered-mark_bits (end - start) start m i (omega (arith, some_byte, inside))
      ∙ ap (λ e. covered m i || (leb start i && ltb i e)) (omega (arith, some_byte)))
  | inr long ↦ rw long (mark_long start end i m (ground (arith, long)) inside)
]

length-mark_bits : (n ii : ℕ) (m : List (List Bool)) → length (mark_bits n ii m) ≡ length m
unfolding mark_bits
length-mark_bits zero ii m = refl
length-mark_bits (suc n) ii m =
    let b = zeros_before (ii % 8) (true ∷ []) in
    length-mark_bits n (suc ii) (update (or_bits b) m (ii / 8))
    ∙ length-update (or_bits b) m (ii / 8)

pub length-mark : (start end : ℕ) (m : List (List Bool)) → length (mark start end m) ≡ length m
unfolding mark
length-mark start end m = elim (Bool-cases (leb (end - start) 8)) [
  | inl short ↦ rw short (length-mark_bits (end - start) start m)
  | inr long ↦ rw long (
      length-update (or_bits (element [] bitmask_end_values (end % 8))) _ ((end - 1) / 8)
      ∙ length-fill_bytes ((end - 1) / 8 - (start / 8 + 1)) (start / 8 + 1) _
      ∙ length-update (or_bits (element [] bitmask_start_values (start % 8))) m (start / 8))
]
