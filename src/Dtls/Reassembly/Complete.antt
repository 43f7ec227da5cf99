-- ===== src/Dtls/Reassembly/Complete.antt =====
-- `RSMBLY_BITMASK_IS_COMPLETE` against the bits of the bitmask.
use openssl_3_0_bee2evp.Prelude.{
  ℕ, zero, suc, ◌+◌, ◌-◌, ◌*◌, ◌/◌, ◌%◌, ◌<◌, ◌≤◌, ◌≡◌, ◌∙◌, ◌↔◌, refl, ap₂, sym, Bool, true, false,
  not, List, [], ltb, ◌==◌, Bool-cases, arith, if-eq, inl, inr, subst,
}
use openssl_3_0_bee2evp.Dtls.Bitmap.{bit_at}
use openssl_3_0_bee2evp.Dtls.Reassembly.{
  element, same_bits, bitmask_end_values, full_byte, all_full, is_complete,
}
use openssl_3_0_bee2evp.Dtls.Reassembly.Mask.{covered, bit_at-end, bit_at-full}

same_bits-each :
    (n : ℕ) (a b : List Bool) (j : ℕ) → same_bits n a b ≡ true → j < n → bit_at a j ≡ bit_at b j
same_bits-each zero a b j h below = absurd (omega (arith, below))
same_bits-each (suc n) a b j h below = elim (Bool-cases (j == n)) [
  | inl here ↦
      let same : n ≡ j = ground (arith, here) in
      subst (λ i. bit_at a i ≡ bit_at b i) same (ground (arith, h))
  | inr further ↦ same_bits-each n a b j (ground (arith, h)) (ground (arith, below, further))
]

each-same_bits :
    (n : ℕ) (a b : List Bool) → ((j : ℕ) → j < n → bit_at a j ≡ bit_at b j) → same_bits n a b ≡ true
each-same_bits zero a b h = refl
each-same_bits (suc n) a b h =
    ground (arith, h n (omega arith), each-same_bits n a b (λ j below. h j (omega (arith, below))))

all_full-covered :
    (n : ℕ) (m : List (List Bool)) (i : ℕ) → all_full n m ≡ true → i < 8 * n → covered m i ≡ true
unfolding all_full
all_full-covered zero m i h below = absurd (omega (arith, below))
all_full-covered (suc n) m i h below =
    if-eq (not (same_bits 8 (element [] m n) full_byte)) (λ no e. absurd (ground (arith, e)))
      (λ yes e. elim (Bool-cases (i / 8 == n)) [
        | inl here ↦
            let same : n ≡ i / 8 = ground (arith, here) in
            subst (λ k. bit_at (element [] m k) (i % 8) ≡ true) same
              (same_bits-each 8 (element [] m n) full_byte (i % 8) (ground (arith, yes))
                  (omega arith)
                ∙ bit_at-full (i % 8) (omega arith))
        | inr further ↦ all_full-covered n m i e (ground (arith, below, further))
      ])
      h

-- A bit of a byte.
byte_bit :
    (m : List (List Bool)) (n j : ℕ) → j < 8 → bit_at (element [] m n) j ≡ covered m (8 * n + j)
byte_bit m n j below =
    let byte : n ≡ (8 * n + j) / 8 = omega (arith, below) in
    let bit : j ≡ (8 * n + j) % 8 = omega (arith, below) in
    ap₂ (λ k l. bit_at (element [] m k) l) byte bit

covered-all_full :
    (n : ℕ) (m : List (List Bool))
    → ((i : ℕ) → i < 8 * n → covered m i ≡ true)
    → all_full n m ≡ true
unfolding all_full
covered-all_full zero m h = refl
covered-all_full (suc n) m h =
    rw
      (each-same_bits 8 (element [] m n) full_byte (λ j below.
        byte_bit m n j below ∙ h (8 * n + j) (omega (arith, below)) ∙ sym (bit_at-full j below)))
      (covered-all_full n m (λ i below. h i (omega (arith, below))))

-- The last byte, bit by bit.
last_bit :
    (len j : ℕ)
    → 0 < len
    → j < 8
    → bit_at (element [] bitmask_end_values (len % 8)) j ≡ ltb (8 * ((len - 1) / 8) + j) len
last_bit len j positive below =
    bit_at-end (len % 8) j (omega arith) below ∙ ground (arith, positive, below)

complete_sound :
    (len : ℕ) (m : List (List Bool))
    → 0 < len
    → is_complete len m ≡ true
    → (i : ℕ) → i < len
    → covered m i ≡ true
unfolding is_complete
complete_sound len m positive h i below =
    let last = element [] bitmask_end_values (len % 8) in
    let byte = element [] m ((len - 1) / 8) in
    if-eq (not (same_bits 8 byte last)) (λ no e. absurd (ground (arith, e)))
      (λ yes e. elim (Bool-cases (i / 8 == (len - 1) / 8)) [
        | inl here ↦
            let same : (len - 1) / 8 ≡ i / 8 = ground (arith, here) in
            subst (λ k. bit_at (element [] m k) (i % 8) ≡ true) same
              (same_bits-each 8 byte last (i % 8) (ground (arith, yes)) (omega arith)
                ∙ last_bit len (i % 8) positive (omega arith)
                ∙ ground (arith, same, below))
        | inr further ↦ all_full-covered ((len - 1) / 8) m i e (ground (arith, below, further))
      ])
      h

complete_total :
    (len : ℕ) (m : List (List Bool))
    → 0 < len
    → ((i : ℕ) → i < 8 * ((len + 7) / 8) → covered m i ≡ ltb i len)
    → is_complete len m ≡ true
unfolding is_complete
complete_total len m positive h =
    let last = element [] bitmask_end_values (len % 8) in
    let byte = element [] m ((len - 1) / 8) in
    rw
      (each-same_bits 8 byte last (λ j below.
        byte_bit m ((len - 1) / 8) j below
        ∙ h (8 * ((len - 1) / 8) + j) (omega (arith, positive, below))
        ∙ sym (last_bit len j positive below)))
      (covered-all_full ((len - 1) / 8) m
        (λ i below. h i (omega (arith, below, positive)) ∙ ground (arith, below, positive)))

exactly :
    (len : ℕ) (m : List (List Bool))
    → ((i : ℕ) → i < len → covered m i ≡ true)
    → ((i : ℕ) → len ≤ i → i < 8 * ((len + 7) / 8) → covered m i ≡ false)
    → (i : ℕ) → i < 8 * ((len + 7) / 8)
    → covered m i ≡ ltb i len
exactly len m h clean i inside = elim (Bool-cases (ltb i len)) [
  | inl below ↦ h i (ground (arith, below)) ∙ sym below
  | inr above ↦ clean i (ground (arith, above)) inside ∙ sym above
]

-- If no bit is set from the length on, then the macro says whether all bits below the length are set,
-- for a message that is not empty.
pub is_complete-covered :
    (len : ℕ) (m : List (List Bool))
    → 0 < len
    → ((i : ℕ) → len ≤ i → i < 8 * ((len + 7) / 8) → covered m i ≡ false)
    → (is_complete len m ≡ true) ↔ ((i : ℕ) → i < len → covered m i ≡ true)
is_complete-covered len m positive clean =
    (complete_sound len m positive, λ h. complete_total len m positive (exactly len m h clean))
