-- ===== src/Dtls/Bitmap/Window.antt =====
-- The replay window against the list of all sequence numbers that were recorded in it.
use Prim.Native.Nat.{min}
use openssl_3_0_bee2evp.Prelude.{
  ℕ, ◌-◌, ◌^◌, ◌≤◌, ◌<◌, ◌≡◌, ◌↔◌, ◌⊎◌, inl, inr, Bool, true, false, not, ◌&&◌, ◌||◌, List, [], ◌∷◌,
  length, ltb, leb, ◌==◌, Bool-cases, if◌then◌else◌, arith,
}
use openssl_3_0_bee2evp.Dtls.Bitmap.{
  Bitmap, Reader, map_bits, bit_at, advance, mark, record_replay_check, record_bitmap_update,
}
use openssl_3_0_bee2evp.Dtls.Bitmap.Bits.{bit_at-advance, length-advance, bit_at-mark, length-mark}
use openssl_3_0_bee2evp.Dtls.Bitmap.Compare.{satsub64be_lem}

unfoldable pub mem : ℕ → List ℕ → Bool
mem n [] = false
mem n (x ∷ xs) = n == x || mem n xs

-- The window holds what it can of a history: no number in the history is above the maximum, and bit
-- `i` says whether the number `i` below the maximum is in it.
pub record Tracks (b : Bitmap) (seen : List ℕ) : Type 0 where
  pub width : length b.map ≡ map_bits
  pub bound : b.max_seq_num < 2 ^ 64
  pub below : (n : ℕ) → mem n seen ≡ true → n ≤ b.max_seq_num
  pub bits :
      (i : ℕ)
      → i < map_bits
      → bit_at b.map i ≡ (leb i b.max_seq_num && mem (b.max_seq_num - i) seen)

module _ (r : Reader) (b : Bitmap) (small : r.read_sequence < 2 ^ 64)
    (bound : b.max_seq_num < 2 ^ 64) where
  check_lem : (record_replay_check r b).1 ≡ (
      if ltb b.max_seq_num r.read_sequence
      then true
      else if leb map_bits (b.max_seq_num - r.read_sequence)
      then false
      else not (bit_at b.map (b.max_seq_num - r.read_sequence)))
  unfolding record_replay_check
  check_lem = ground (arith, satsub64be_lem r.read_sequence b.max_seq_num small bound)

  update_lem : record_bitmap_update r b ≡ (
      if ltb b.max_seq_num r.read_sequence
      then record {
        map = advance b.map (min (r.read_sequence - b.max_seq_num) 128);
        max_seq_num = r.read_sequence;
      }
      else record b { map = mark b.map (min (b.max_seq_num - r.read_sequence) 128) })
  unfolding record_bitmap_update
  update_lem = ground (arith, satsub64be_lem r.read_sequence b.max_seq_num small bound)

-- The check accepts exactly the numbers above the maximum and the numbers in the window that are not
-- in the history.
check_iff :
    (r : Reader) (b : Bitmap) (seen : List ℕ)
    → Tracks b seen
    → r.read_sequence < 2 ^ 64
    → ((record_replay_check r b).1 ≡ true) ↔ (
        (b.max_seq_num < r.read_sequence)
        ⊎ ((b.max_seq_num - r.read_sequence < map_bits) × (mem r.read_sequence seen ≡ false)))
check_iff r b seen t small = (
  λ h. ground (arith, check_lem r b small (t.bound), bit),
  λ h. ground (arith, check_lem r b small (t.bound), bit),
)
  where
    bit :
        r.read_sequence ≤ b.max_seq_num
        → b.max_seq_num - r.read_sequence < map_bits
        → bit_at b.map (b.max_seq_num - r.read_sequence) ≡ mem r.read_sequence seen
    bit le near = ground (arith, t.bits (b.max_seq_num - r.read_sequence) near)

pub check-fresh :
    (r : Reader) (b : Bitmap) (seen : List ℕ)
    → Tracks b seen
    → r.read_sequence < 2 ^ 64
    → (record_replay_check r b).1 ≡ true
    → mem r.read_sequence seen ≡ false
check-fresh r b seen t small h =
    ground (arith, (check_iff r b seen t small).0 h, t.below r.read_sequence)

module _ (r : Reader) (b : Bitmap) (seen : List ℕ) (t : Tracks b seen)
    (small : r.read_sequence < 2 ^ 64) where
  update_width : length (record_bitmap_update r b).map ≡ map_bits
  update_width = rw (update_lem r b small (t.bound)) (
      ground (
        arith,
        length-advance b.map (min (r.read_sequence - b.max_seq_num) 128) (t.width),
        length-mark b.map (min (b.max_seq_num - r.read_sequence) 128) (t.width),
      ))

  update_bound : (record_bitmap_update r b).max_seq_num < 2 ^ 64
  update_bound = rw (update_lem r b small (t.bound)) (ground (arith, t.bound))

  update_below :
      (n : ℕ) → mem n (r.read_sequence ∷ seen) ≡ true → n ≤ (record_bitmap_update r b).max_seq_num
  unfolding mem
  update_below n = rw (update_lem r b small (t.bound)) (λ h. ground (arith, t.below n))

  bits_up :
      (i : ℕ)
      → i < map_bits
      → b.max_seq_num < r.read_sequence
      → bit_at (advance b.map (min (r.read_sequence - b.max_seq_num) 128)) i
        ≡ (leb i r.read_sequence && mem (r.read_sequence - i) (r.read_sequence ∷ seen))
  unfolding mem
  bits_up i h up = ground (
    arith,
    bit_at-advance b.map (min (r.read_sequence - b.max_seq_num) 128) i (t.width) h,
    t.below (r.read_sequence - i),
    t.bits (i - (r.read_sequence - b.max_seq_num)),
  )

  bits_stay :
      (i : ℕ)
      → i < map_bits
      → r.read_sequence ≤ b.max_seq_num
      → bit_at (mark b.map (min (b.max_seq_num - r.read_sequence) 128)) i
        ≡ (leb i b.max_seq_num && mem (b.max_seq_num - i) (r.read_sequence ∷ seen))
  unfolding mem
  bits_stay i h stay = ground (
    arith,
    bit_at-mark b.map (min (b.max_seq_num - r.read_sequence) 128) i (t.width) h,
    t.bits i h,
  )

  update_bits :
      (i : ℕ)
      → i < map_bits
      → bit_at (record_bitmap_update r b).map i ≡ (
          leb i (record_bitmap_update r b).max_seq_num
          && mem ((record_bitmap_update r b).max_seq_num - i) (r.read_sequence ∷ seen))
  update_bits i h =
      rw (update_lem r b small (t.bound)) (elim (Bool-cases (ltb b.max_seq_num r.read_sequence)) [
        | inl up ↦ simp up (bits_up i h (ground arith))
        | inr stay ↦ simp stay (bits_stay i h (ground arith))
      ])

  -- The update keeps track of the history with the new number, whatever the number is.
  pub update-Tracks : Tracks (record_bitmap_update r b) (r.read_sequence ∷ seen)
  update-Tracks = record {
    width = update_width;
    bound = update_bound;
    below = update_below;
    bits = update_bits;
  }
