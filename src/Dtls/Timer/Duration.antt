-- ===== src/Dtls/Timer/Duration.antt =====
-- The duration of the timer: it doubles up to a minute, and never wraps.
use Prim.Native.Nat.{min}
use native.Mathlib.Nat.{pow-suc}
use openssl_3_0_bee2evp.Prelude.{ℕ, zero, suc, ◌*◌, ◌^◌, ◌≤◌, ◌≡◌, refl, arith}
use openssl_3_0_bee2evp.Dtls.Timer.{first_duration, double_timeout, next_duration}
use mathlib.Core.Option.{none}

pub double_timeout-min : (d : ℕ) → d ≤ 60000000 → double_timeout d ≡ min (d * 2) 60000000
unfolding double_timeout
double_timeout-min d h = ground arith

-- The duration after so many timeouts in a row, with no callback installed.
unfoldable pub backoff : ℕ → ℕ
backoff zero = first_duration none
backoff (suc k) = next_duration none (backoff k)

-- With no callback installed, the duration after k timeouts in a row is 2 ^ k seconds, or a minute
-- if that is less.
backoff_lem : (k : ℕ) → backoff k ≡ min (1000000 * 2 ^ k) 60000000
unfolding backoff first_duration next_duration
backoff_lem zero = refl
backoff_lem (suc k) = omega (
  arith,
  backoff_lem k,
  double_timeout-min (backoff k) (omega (arith, backoff_lem k)),
  pow-suc 2 k,
)
