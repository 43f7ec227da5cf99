-- ===== src/Dtls/Timer/Handle.antt =====
-- Handling a timeout: retransmission with a longer timeout, or the end of the connection.
use openssl_3_0_bee2evp.Prelude.{
  ℕ, suc, ◌+◌, ◌-◌, ◌*◌, ◌^◌, ◌≤◌, ◌<◌, ◌≡◌, ◌⊎◌, refl, true, false, List, [], ◌∷◌, length, arith,
}
use openssl_3_0_bee2evp.Ssl.{no_alert, Ssl}
use openssl_3_0_bee2evp.Statem.Control.{HasFailed, fatal-HasFailed}
use openssl_3_0_bee2evp.Dtls.Timer.{
  Timeval, D1, TimerEnv, is_zero_time, start_timer, stop_timer, is_timer_expired, lower_mtu,
  check_timeout_num, next_duration, Handled, not_expired, failed, retransmit, handle_timeout,
}
use openssl_3_0_bee2evp.Dtls.Timer.Expiry.{micros, IsNormal, start_micros}

-- Handling a timeout does nothing while the timer has not expired. After that it counts one more
-- timeout, and, if there have been too many, puts the connection into the permanent error state, or
-- else leaves the connection as it is, does not raise the MTU, and asks for a retransmission.
handle_timeout_lem :
    (e : TimerEnv) (now later : Timeval) (s : Ssl) (d : D1)
    → d.timeout_num_alerts < 2 ^ 32 - 1
    → let (s', d', what) = handle_timeout e now later s d in
      ((is_timer_expired now d ≡ false) × (what ≡ not_expired) × (s' ≡ s) × (d' ≡ d))
      ⊎ ((is_timer_expired now d ≡ true)
          × (what ≡ failed)
          × (e.tmo_alert_count < d.timeout_num_alerts + 1)
          × (d'.timeout_num_alerts ≡ d.timeout_num_alerts + 1)
          × HasFailed s')
      ⊎ ((is_timer_expired now d ≡ true)
          × (what ≡ retransmit)
          × (d.timeout_num_alerts + 1 ≤ e.tmo_alert_count)
          × (s' ≡ s)
          × (d'.timeout_num_alerts ≡ d.timeout_num_alerts + 1)
          × (d'.mtu ≤ d.mtu))
unfolding handle_timeout check_timeout_num lower_mtu start_timer
handle_timeout_lem e now later s d h = ground (arith, fatal-HasFailed no_alert s)

start_duration :
    (e : TimerEnv) (now : Timeval) (d : D1)
    → is_zero_time d.next_timeout ≡ false
    → (start_timer e now d).timeout_duration_us ≡ d.timeout_duration_us
unfolding start_timer
start_duration e now d z = ground arith

-- The check of the number of timeouts leaves the timer alone.
check_keeps :
    (e : TimerEnv) (s : Ssl) (d : D1)
    → ((check_timeout_num e s d).1.next_timeout ≡ d.next_timeout)
      × ((check_timeout_num e s d).1.timeout_duration_us ≡ d.timeout_duration_us)
unfolding check_timeout_num lower_mtu
check_keeps e s d = ground arith

-- When a retransmission is due, the timer is set again: from the later reading of the clock, for the
-- next duration.
handle_timeout_restarts :
    (e : TimerEnv) (now later : Timeval) (s : Ssl) (d : D1)
    → IsNormal later
    → is_zero_time d.next_timeout ≡ false
    → (handle_timeout e now later s d).2 ≡ retransmit
    → micros (handle_timeout e now later s d).1.next_timeout
      ≡ micros later + next_duration e.timer_cb d.timeout_duration_us
unfolding handle_timeout
handle_timeout_restarts e now later s d n z h =
    let d' = record d { timeout_duration_us = next_duration e.timer_cb d.timeout_duration_us } in
    let d'' = (check_timeout_num e s d').1 in
    let keeps = check_keeps e s d' in
    let same = start_duration e later d'' (rw (keeps.0) z) in
    ground (arith, start_micros e later d'' n, same, keeps.1)

abbrev is_retransmit : Handled → ℕ
is_retransmit retransmit = 1
is_retransmit _ = 0

-- What happens to the timer of a connection: `dtls1_handle_timeout` is called, with two readings of the
-- clock; a flight is sent, which starts the timer; or a flight has been answered, which stops it.
pub data Event : Type 0 where
  handled : Timeval → Timeval → Event
  started : Timeval → Event
  answered : Event

-- The number of flights that are answered.
abbrev pub answers : List Event → ℕ
answers [] = 0
answers (answered ∷ es) = suc (answers es)
answers (_ ∷ es) = answers es

-- The number of retransmissions that a series of events leads to.
unfoldable pub retransmissions : TimerEnv → Ssl → D1 → List Event → ℕ
retransmissions e s d [] = 0
retransmissions e s d (handled now later ∷ rest) =
    let (s', d', what) = handle_timeout e now later s d in
    is_retransmit what + retransmissions e s' d' rest
retransmissions e s d (started now ∷ rest) = retransmissions e s (start_timer e now d) rest
retransmissions e s d (answered ∷ rest) = retransmissions e s (stop_timer d) rest

start_count :
    (e : TimerEnv) (now : Timeval) (d : D1)
    → (start_timer e now d).timeout_num_alerts ≡ d.timeout_num_alerts
unfolding start_timer
start_count e now d = refl

stop_count : (d : D1) → (stop_timer d).timeout_num_alerts ≡ 0
unfolding stop_timer
stop_count d = refl

-- For each flight there are at most as many retransmissions as the limit of timeouts allows: in any
-- series of timeouts, starts and stops of the timer, at most what is left of the limit for the flight
-- under way, and the limit once more for each time that the timer is stopped because a flight has been
-- answered. The condition is that the count of timeouts and the number of events are together below
-- 2 ^ 32, so that the count does not wrap.
pub retransmissions-le :
    (e : TimerEnv) (s : Ssl) (d : D1) (es : List Event)
    → d.timeout_num_alerts + length es < 2 ^ 32
    → retransmissions e s d es
      ≤ e.tmo_alert_count - d.timeout_num_alerts + answers es * e.tmo_alert_count
unfolding retransmissions
retransmissions-le e s d [] h = omega arith
retransmissions-le e s d (handled now later ∷ rest) h = ground (
  arith,
  handle_timeout_lem e now later s d,
  retransmissions-le e (handle_timeout e now later s d).0 (handle_timeout e now later s d).1 rest,
)
retransmissions-le e s d (started now ∷ rest) h =
    let same = start_count e now d in
    ground (arith, same, retransmissions-le e s (start_timer e now d) rest)
retransmissions-le e s d (answered ∷ rest) h =
    let zero_is = stop_count d in
    ground (arith, zero_is, retransmissions-le e s (stop_timer d) rest)
