-- ===== src/Dtls/Bitmap/Replay.antt =====
-- No record is accepted twice: the check of ssl/record/dtls1_bitmap.c before a record is processed,
-- and the update after it (as in `dtls1_get_record` and `dtls1_process_record` of
-- ssl/record/ssl3_record.c).
use openssl_3_0_bee2evp.Prelude.{
  ℕ, ◌^◌, ◌<◌, ◌≡◌, inl, inr, Bool, true, false, ◌&&◌, List, [], ◌∷◌, Bool-cases, if◌then◌else◌,
  arith,
}
use openssl_3_0_bee2evp.Dtls.Bitmap.{Bitmap, Reader, record_replay_check, record_bitmap_update}
use openssl_3_0_bee2evp.Dtls.Bitmap.Window.{mem, Tracks, check-fresh, update-Tracks}

-- A record as it arrives: its sequence number, and whether its processing will succeed.
abbrev pub Arrival : Type 0
Arrival = ℕ × Bool

abbrev pub reader : ℕ → Reader
reader seq = record { read_sequence = seq; rrec_seq_num = 0 }

abbrev pub is_accepted : Bitmap → Arrival → Bool
is_accepted b (seq, valid) = (record_replay_check (reader seq) b).1 && valid

-- The window and the accepted sequence numbers, the last first, after the records given.
unfoldable pub receive_all : Bitmap → List ℕ → List Arrival → Bitmap × List ℕ
receive_all b seen [] = (b, seen)
receive_all b seen ((seq, valid) ∷ rest) =
    let next = receive_all (record_bitmap_update (reader seq) b) (seq ∷ seen) rest in
    let same = receive_all b seen rest in if is_accepted b (seq, valid) then next else same

abbrev pub Distinct : List ℕ → Type 0
Distinct [] = Unit
Distinct (x ∷ xs) = (mem x xs ≡ false) × Distinct xs

abbrev pub All64 : List Arrival → Type 0
All64 [] = Unit
All64 ((seq, valid) ∷ rest) = (seq < 2 ^ 64) × All64 rest

-- Whatever records arrive, in whatever order and however often, no sequence number is accepted
-- twice, and the window keeps track of the accepted ones.
pub receive_all-Distinct :
    (b : Bitmap) (seen : List ℕ) (rs : List Arrival)
    → Tracks b seen
    → Distinct seen
    → All64 rs
    → let (b', seen') = receive_all b seen rs in Distinct seen' × Tracks b' seen'
unfolding receive_all
receive_all-Distinct b seen [] t d a = (d, t)
receive_all-Distinct b seen ((seq, valid) ∷ rest) t d a =
    elim (Bool-cases (is_accepted b (seq, valid))) [
      | inr refused ↦ rw refused (receive_all-Distinct b seen rest t d (a.1))
      | inl taken ↦ rw taken (
          receive_all-Distinct (record_bitmap_update (reader seq) b) (seq ∷ seen) rest
            (update-Tracks (reader seq) b seen t (a.0))
            (
              check-fresh (reader seq) b seen t (a.0)
                  (left (record_replay_check (reader seq) b).1 valid taken),
              d,
            )
            (a.1))
    ]
  where
    left : (x y : Bool) → (x && y) ≡ true → x ≡ true
    left x y h = ground arith
