-- ===== src/Dtls/Bitmap.antt =====
-- The replay window of ssl/record/dtls1_bitmap.c. A sequence number is the number that its eight
-- bytes encode; `map` is a word of 64 bits, the lowest first.
pub mod Bits
pub mod Compare
pub mod Window
pub mod Replay
use openssl_3_0_bee2evp.Prelude.{
  ℕ, zero, suc, ◌+◌, ◌-◌, ◌%◌, ◌^◌, Bool, true, false, ◌&&◌, List, [], ◌∷◌, ltb, leb, if◌then◌else◌,
}
use openssl_3_0_bee2evp.Prelude.Int.{ℤ, pos, negsuc, pos_part, neg_part, neg, ltb_ℤ}

-- `DTLS1_BITMAP`
pub record Bitmap : Type 0 where
  pub map : List Bool
  pub max_seq_num : ℕ

-- The sequence numbers of the record layer: the one read last, and the one of the record that is
-- handed on.
pub record Reader : Type 0 where
  pub read_sequence : ℕ
  pub rrec_seq_num : ℕ

-- `sizeof(bitmap->map) * 8`
abbrev pub map_bits : ℕ
map_bits = 64

-- `map & (1UL << i)`
abbrev pub bit_at : List Bool → ℕ → Bool
bit_at [] i = false
bit_at (b ∷ m) zero = b
bit_at (b ∷ m) (suc i) = bit_at m i

-- `map |= 1UL << i`
unfoldable pub set_bit : List Bool → ℕ → List Bool
set_bit [] i = []
set_bit (b ∷ m) zero = true ∷ m
set_bit (b ∷ m) (suc i) = b ∷ set_bit m i

-- The first bits of a word, and so many zeros where it has no more.
unfoldable pub take : ℕ → List Bool → List Bool
take zero m = []
take (suc n) [] = []
take (suc n) (b ∷ m) = b ∷ take n m

unfoldable pub zeros_before : ℕ → List Bool → List Bool
zeros_before zero m = m
zeros_before (suc n) m = false ∷ zeros_before n m

-- `map << n`
unfoldable pub shift_left : List Bool → ℕ → List Bool
shift_left m n = take map_bits (zeros_before n m)

-- `1UL`
unfoldable pub one : List Bool
one = true ∷ zeros_before 63 []

-- The signed number that a word of 64 bits stands for.
abbrev pub signed64 : ℕ → ℤ
signed64 w = if ltb w (2 ^ 63) then pos w else neg (2 ^ 64 - w)

unfoldable pub satsub64be : ℕ → ℕ → ℤ
satsub64be l1 l2 =
    let ret = signed64 ((l1 + 2 ^ 64 - l2) % 2 ^ 64) in
    if ltb l2 l1 && ltb_ℤ ret (pos 0)
    then pos 128
    else if ltb l1 l2 && ltb_ℤ (pos 0) ret
    then neg 128
    else if ltb_ℤ (pos 128) ret
    then pos 128
    else if ltb_ℤ ret (neg 128)
    then neg 128
    else ret

unfoldable pub record_replay_check : Reader → Bitmap → Reader × Bool
record_replay_check r b =
    let cmp = satsub64be r.read_sequence b.max_seq_num in
    let shift = neg_part cmp in
    if ltb_ℤ (pos 0) cmp
    then (record r { rrec_seq_num = r.read_sequence }, true)
    else if leb map_bits shift
    then (r, false)
    else if bit_at b.map shift
    then (r, false)
    else (record r { rrec_seq_num = r.read_sequence }, true)

-- The map once the maximum has moved up by `shift`.
unfoldable pub advance : List Bool → ℕ → List Bool
advance m shift = if ltb shift map_bits then set_bit (shift_left m shift) 0 else one

-- The map with the number `shift` below the maximum recorded.
unfoldable pub mark : List Bool → ℕ → List Bool
mark m shift = if ltb shift map_bits then set_bit m shift else m

unfoldable pub record_bitmap_update : Reader → Bitmap → Bitmap
record_bitmap_update r b =
    let cmp = satsub64be r.read_sequence b.max_seq_num in
    if ltb_ℤ (pos 0) cmp
    then record { map = advance b.map (pos_part cmp); max_seq_num = r.read_sequence }
    else record b { map = mark b.map (neg_part cmp) }
