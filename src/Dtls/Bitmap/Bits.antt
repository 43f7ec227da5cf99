-- ===== src/Dtls/Bitmap/Bits.antt =====
-- The bits of a shifted word and of a word with a bit set.
use openssl_3_0_bee2evp.Prelude.{
  ℕ, zero, suc, ◌+◌, ◌-◌, ◌≤◌, ◌<◌, ◌≡◌, refl, inl, inr, Bool, Bool-cases, true, false, List, [],
  ◌∷◌, length, ltb, ◌==◌, if◌then◌else◌, arith,
}
use openssl_3_0_bee2evp.Dtls.Bitmap.{
  bit_at, set_bit, take, zeros_before, shift_left, one, advance, mark, map_bits,
}

pub bit_at-set_bit :
    (m : List Bool) (i j : ℕ)
    → i < length m
    → bit_at (set_bit m i) j ≡ (if i == j then true else bit_at m j)
unfolding set_bit
bit_at-set_bit [] i j h = elim h [ ]
bit_at-set_bit (b ∷ m) zero zero h = refl
bit_at-set_bit (b ∷ m) zero (suc j) h = ground arith
bit_at-set_bit (b ∷ m) (suc i) zero h = ground arith
bit_at-set_bit (b ∷ m) (suc i) (suc j) h = ground (arith, bit_at-set_bit m i j (omega arith))

pub length-set_bit : (m : List Bool) (i : ℕ) → length (set_bit m i) ≡ length m
unfolding set_bit
length-set_bit [] i = refl
length-set_bit (b ∷ m) zero = refl
length-set_bit (b ∷ m) (suc i) = omega (arith, length-set_bit m i)

bit_at-take :
    (n : ℕ) (m : List Bool) (j : ℕ) → bit_at (take n m) j ≡ (if ltb j n then bit_at m j else false)
unfolding take
bit_at-take zero m j = ground arith
bit_at-take (suc n) [] j = ground arith
bit_at-take (suc n) (b ∷ m) zero = ground arith
bit_at-take (suc n) (b ∷ m) (suc j) = ground (arith, bit_at-take n m j)

bit_at-zeros_before :
    (n : ℕ) (m : List Bool) (j : ℕ)
    → bit_at (zeros_before n m) j ≡ (if ltb j n then false else bit_at m (j - n))
unfolding zeros_before
bit_at-zeros_before zero m j = ground arith
bit_at-zeros_before (suc n) m zero = ground arith
bit_at-zeros_before (suc n) m (suc j) = ground (arith, bit_at-zeros_before n m j)

length-take : (n : ℕ) (m : List Bool) → n ≤ length m → length (take n m) ≡ n
unfolding take
length-take zero m h = refl
length-take (suc n) [] h = elim h [ ]
length-take (suc n) (b ∷ m) h = omega (arith, length-take n m (omega arith))

length-zeros_before : (n : ℕ) (m : List Bool) → length (zeros_before n m) ≡ n + length m
unfolding zeros_before
length-zeros_before zero m = omega arith
length-zeros_before (suc n) m = omega (arith, length-zeros_before n m)

pub bit_at-shift_left :
    (m : List Bool) (n j : ℕ)
    → bit_at (shift_left m n) j
      ≡ (if ltb j map_bits then if ltb j n then false else bit_at m (j - n) else false)
unfolding shift_left
bit_at-shift_left m n j = rw (bit_at-take map_bits (zeros_before n m) j, bit_at-zeros_before n m j)

pub length-shift_left :
    (m : List Bool) (n : ℕ) → length m ≡ map_bits → length (shift_left m n) ≡ map_bits
unfolding shift_left
length-shift_left m n h =
    length-take map_bits (zeros_before n m) (omega (arith, length-zeros_before n m))

bit_at-one : (j : ℕ) → bit_at one j ≡ (j == 0)
unfolding one
bit_at-one zero = refl
bit_at-one (suc j) = ground (arith, bit_at-zeros_before 63 [] j)

length-one : length one ≡ map_bits
unfolding one
length-one = omega (arith, length-zeros_before 63 [])

pub bit_at-advance :
    (m : List Bool) (n j : ℕ)
    → length m ≡ map_bits
    → j < map_bits
    → bit_at (advance m n) j
      ≡ (if j == 0 then true else if ltb j n then false else bit_at m (j - n))
unfolding advance
bit_at-advance m n j w h = elim (Bool-cases (ltb n map_bits)) [
  | inl near ↦ ground (
    arith,
    bit_at-set_bit (shift_left m n) 0 j (rw (length-shift_left m n w) (omega arith)),
    bit_at-shift_left m n j,
  )
  | inr far ↦ ground (arith, bit_at-one j)
]

pub length-advance : (m : List Bool) (n : ℕ) → length m ≡ map_bits → length (advance m n) ≡ map_bits
unfolding advance
length-advance m n w =
    ground (arith, length-set_bit (shift_left m n) 0, length-shift_left m n w, length-one)

pub bit_at-mark :
    (m : List Bool) (n j : ℕ)
    → length m ≡ map_bits
    → j < map_bits
    → bit_at (mark m n) j ≡ (if n == j then true else bit_at m j)
unfolding mark
bit_at-mark m n j w h = ground (arith, bit_at-set_bit m n j)

pub length-mark : (m : List Bool) (n : ℕ) → length m ≡ map_bits → length (mark m n) ≡ map_bits
unfolding mark
length-mark m n w = ground (arith, length-set_bit m n)
