-- ===== src/Dtls/Timer/Expiry.antt =====
-- When the timer expires.
use openssl_3_0_bee2evp.Prelude.{
  ℕ, ◌+◌, ◌-◌, ◌*◌, ◌<◌, ◌≡◌, ◌↔◌, true, false, some, ltb, if◌then◌else◌, arith,
}
use openssl_3_0_bee2evp.Dtls.Timer.{
  Timeval, D1, TimerEnv, is_zero_time, add_duration, start_timer, time_left, get_timeout,
  is_timer_expired,
}

-- A time in microseconds.
abbrev pub micros : Timeval → ℕ
micros t = t.tv_sec * 1000000 + t.tv_usec

abbrev pub IsNormal : Timeval → Type 0
IsNormal t = t.tv_usec < 1000000

pub add_duration_lem :
    (now : Timeval) (d : ℕ)
    → IsNormal now
    → (micros (add_duration now d) ≡ micros now + d) × IsNormal (add_duration now d)
unfolding add_duration
add_duration_lem now d n = ground arith

-- The time that a timer has left is the difference, except that less than 15 ms count as none; and
-- only a timer that is not set has no time.
get_timeout_lem :
    (now left : Timeval) (d : D1)
    → IsNormal now
    → IsNormal d.next_timeout
    → get_timeout now d ≡ some left
    → (is_zero_time d.next_timeout ≡ false)
      × (micros left ≡ (
          if ltb (micros d.next_timeout) (micros now + 15000)
          then 0
          else micros d.next_timeout - micros now))
unfolding get_timeout time_left
get_timeout_lem now left d n m h = ground arith

-- The timer has expired exactly when it is set and less than 15 ms are left.
pub expired_iff :
    (now : Timeval) (d : D1)
    → IsNormal now
    → IsNormal d.next_timeout
    → (is_timer_expired now d ≡ true)
      ↔ ((is_zero_time d.next_timeout ≡ false) × (micros d.next_timeout < micros now + 15000))
unfolding is_timer_expired get_timeout time_left
expired_iff now d n m = ground arith

module _ (e : TimerEnv) (now : Timeval) (d : D1) (n : IsNormal now) where
  pub start_micros :
      micros (start_timer e now d).next_timeout
      ≡ micros now + (start_timer e now d).timeout_duration_us
  unfolding start_timer
  start_micros = (add_duration_lem now _ n).0

  pub start_IsNormal : IsNormal (start_timer e now d).next_timeout
  unfolding start_timer
  start_IsNormal = (add_duration_lem now _ n).1

  start_set : is_zero_time now ≡ false → is_zero_time (start_timer e now d).next_timeout ≡ false
  start_set z = ground (arith, start_micros)

-- A timer that is started at one time has expired at another exactly when its duration, less 15 ms,
-- has passed; the clock does not stand at zero.
start_timer-expires :
    (e : TimerEnv) (now later : Timeval) (d : D1)
    → IsNormal now
    → IsNormal later
    → is_zero_time now ≡ false
    → (is_timer_expired later (start_timer e now d) ≡ true)
      ↔ (micros now + (start_timer e now d).timeout_duration_us < micros later + 15000)
start_timer-expires e now later d n m z =
    let iff = expired_iff later (start_timer e now d) m (start_IsNormal e now d n) in
    let at = start_micros e now d n in
    (λ h. rw (← at) (iff.0 h).1, λ h. iff.1 (start_set e now d n z, rw at h))
