-- ===== src/Dtls/Bitmap/Compare.antt =====
-- What `satsub64be` computes.
use Prim.Native.Nat.{min}
use openssl_3_0_bee2evp.Prelude.{ℕ, ◌-◌, ◌^◌, ◌<◌, ◌≡◌, leb, if◌then◌else◌, arith}
use openssl_3_0_bee2evp.Prelude.Int.{pos, neg}
use openssl_3_0_bee2evp.Dtls.Bitmap.{satsub64be}

-- The difference of two 64-bit numbers, cut off at 128 and at -128; no wrap-around is seen.
pub satsub64be_lem :
    (l1 l2 : ℕ)
    → l1 < 2 ^ 64
    → l2 < 2 ^ 64
    → satsub64be l1 l2 ≡ (if leb l2 l1 then pos (min (l1 - l2) 128) else neg (min (l2 - l1) 128))
unfolding satsub64be
satsub64be_lem l1 l2 h1 h2 = ground arith
