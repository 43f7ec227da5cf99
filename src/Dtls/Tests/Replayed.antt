-- ===== src/Dtls/Tests/Replayed.antt =====
-- Records that arrive at an empty replay window.
use openssl_3_0_bee2evp.Prelude.{ℕ, zero, suc, ◌≡◌, refl, true, false, List, [], ◌∷◌, arith}
use openssl_3_0_bee2evp.Dtls.Bitmap.{Bitmap, bit_at, zeros_before}
use openssl_3_0_bee2evp.Dtls.Bitmap.Window.{mem, Tracks}
use openssl_3_0_bee2evp.Dtls.Bitmap.Replay.{Arrival, receive_all, Distinct, receive_all-Distinct}

abbrev empty : Bitmap
empty = record { map = zeros_before 64 []; max_seq_num = 0 }

-- Every bit of the empty map is zero.
all_zero : (n i : ℕ) → bit_at (zeros_before n []) i ≡ false
unfolding zeros_before
all_zero zero i = refl
all_zero (suc n) zero = refl
all_zero (suc n) (suc i) = all_zero n i

empty-Tracks : Tracks empty []
unfolding mem zeros_before
empty-Tracks = record {
  width = refl;
  bound = omega arith;
  below = λ n h. ground arith;
  bits = λ i h. ground (arith, all_zero 64 i);
}

-- A replay, a record out of order, and one that fails to decrypt.
abbrev arrivals : List Arrival
arrivals = (7, true) ∷ (7, true) ∷ (3, true) ∷ (100, false) ∷ (3, true) ∷ []

receive_all-Distinct_example :
    let (b', seen') = receive_all empty [] arrivals in Distinct seen' × Tracks b' seen'
receive_all-Distinct_example = receive_all-Distinct empty [] arrivals empty-Tracks tt (ground arith)
