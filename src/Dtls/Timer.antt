-- ===== src/Dtls/Timer.antt =====
-- The retransmission timer of ssl/d1_lib.c. The clock, the callback for the timeout, the MTU that
-- the socket falls back to and the retransmission itself are parameters; SCTP is left out.
pub mod Duration
pub mod Expiry
pub mod Handle
use openssl_3_0_bee2evp.Prelude.{
  ℕ, ◌+◌, ◌-◌, ◌*◌, ◌/◌, ◌%◌, ◌^◌, Bool, true, false, not, ◌&&◌, ◌||◌, Option, none, some, List, [],
  ltb, leb, ◌==◌, if◌then◌else◌,
}
use openssl_3_0_bee2evp.Ssl.{no_alert, Ssl}
use openssl_3_0_bee2evp.Statem.{fatal}
use openssl_3_0_bee2evp.Dtls.Pqueue.{Pitem}

-- `struct timeval`
pub record Timeval : Type 0 where
  pub tv_sec : ℕ
  pub tv_usec : ℕ

-- The members of `DTLS1_STATE` that the timer uses; `sent_messages` holds messages as numbers.
pub record D1 : Type 0 where
  pub next_timeout : Timeval
  pub timeout_duration_us : ℕ
  pub timeout_num_alerts : ℕ
  pub mtu : ℕ
  pub no_query_mtu : Bool
  pub sent_messages : List (Pitem ℕ)

-- What the code calls: the timer callback, if one is installed, the MTU to fall back to, and the
-- number of alerts after which the connection fails.
pub record TimerEnv : Type 0 where
  pub timer_cb : Option (ℕ → ℕ)
  pub fallback_mtu : ℕ
  pub tmo_alert_count : ℕ

abbrev pub zero_time : Timeval
zero_time = record { tv_sec = 0; tv_usec = 0 }

abbrev pub is_zero_time : Timeval → Bool
is_zero_time t = t.tv_sec == 0 && t.tv_usec == 0

abbrev pub u32 : ℕ → ℕ
u32 n = n % 2 ^ 32

-- The first duration: the callback's, or one second. (`timeout_duration_us` is an `unsigned int`.)
unfoldable pub first_duration : Option (ℕ → ℕ) → ℕ
first_duration none = 1000000
first_duration (some cb) = u32 (cb 0)

unfoldable pub add_duration : Timeval → ℕ → Timeval
add_duration now d =
    let sec = d / 1000000 in
    let usec = d - sec * 1000000 in
    if leb 1000000 (now.tv_usec + usec)
    then record { tv_sec = now.tv_sec + sec + 1; tv_usec = now.tv_usec + usec - 1000000 }
    else record { tv_sec = now.tv_sec + sec; tv_usec = now.tv_usec + usec }

-- `now` is what `get_current_time` returns.
unfoldable pub start_timer : TimerEnv → Timeval → D1 → D1
start_timer e now d =
    let dur =
      if is_zero_time d.next_timeout then first_duration e.timer_cb else d.timeout_duration_us in
    record d { next_timeout = add_duration now dur; timeout_duration_us = dur }

-- The time left, where the timer has not expired. The seconds are borrowed from where they are
-- needed, so that no number goes below zero.
unfoldable pub time_left : Timeval → Timeval → Timeval
time_left next now =
    if ltb next.tv_usec now.tv_usec
    then record {
      tv_sec = next.tv_sec - now.tv_sec - 1;
      tv_usec = next.tv_usec + 1000000 - now.tv_usec;
    }
    else record { tv_sec = next.tv_sec - now.tv_sec; tv_usec = next.tv_usec - now.tv_usec }

unfoldable pub get_timeout : Timeval → D1 → Option Timeval
get_timeout now d =
    let next = d.next_timeout in
    let left = time_left next now in
    if is_zero_time next
    then none
    else if ltb next.tv_sec now.tv_sec
        || (next.tv_sec == now.tv_sec && leb next.tv_usec now.tv_usec)
    then some zero_time
    else if left.tv_sec == 0 && ltb left.tv_usec 15000
    then some zero_time
    else some left

unfoldable pub is_timer_expired : Timeval → D1 → Bool
is_timer_expired now d = elim (get_timeout now d) [
  | none ↦ false
  | some left ↦ not (ltb 0 left.tv_sec || ltb 0 left.tv_usec)
]

unfoldable pub double_timeout : ℕ → ℕ
double_timeout d = if ltb 60000000 (u32 (d * 2)) then 60000000 else u32 (d * 2)

-- `dtls1_clear_sent_buffer` empties the queue of sent messages.
unfoldable pub stop_timer : D1 → D1
stop_timer d = record d {
  timeout_num_alerts = 0;
  next_timeout = zero_time;
  timeout_duration_us = 1000000;
  sent_messages = [];
}

unfoldable pub lower_mtu : TimerEnv → D1 → D1
lower_mtu e d =
    if ltb 2 d.timeout_num_alerts && not d.no_query_mtu
    then if ltb e.fallback_mtu d.mtu then record d { mtu = e.fallback_mtu } else d
    else d

-- The result `true` is the return value -1: the connection has failed.
unfoldable pub check_timeout_num : TimerEnv → Ssl → D1 → Ssl × D1 × Bool
check_timeout_num e s d =
    let d' = lower_mtu e (record d { timeout_num_alerts = u32 (d.timeout_num_alerts + 1) }) in
    if ltb e.tmo_alert_count d'.timeout_num_alerts
    then (fatal no_alert s, d', true)
    else (s, d', false)

unfoldable pub next_duration : Option (ℕ → ℕ) → ℕ → ℕ
next_duration none d = double_timeout d
next_duration (some cb) d = u32 (cb d)

-- What `dtls1_handle_timeout` did: nothing, since no timer had expired; it failed the connection; or
-- it restarted the timer, after which it retransmits the buffered messages.
pub data Handled : Type 0 where
  not_expired failed retransmit : Handled

-- `now` and `later` are the times of the two readings of the clock.
unfoldable pub handle_timeout : TimerEnv → Timeval → Timeval → Ssl → D1 → Ssl × D1 × Handled
handle_timeout e now later s d =
    let d' = record d { timeout_duration_us = next_duration e.timer_cb d.timeout_duration_us } in
    let (s'', d'', bad) = check_timeout_num e s d' in
    if not (is_timer_expired now d)
    then (s, d, not_expired)
    else if bad
    then (s'', d'', failed)
    else (s'', start_timer e later d'', retransmit)
