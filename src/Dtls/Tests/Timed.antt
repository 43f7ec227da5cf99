-- ===== src/Dtls/Tests/Timed.antt =====
-- A timer that is started at one second past ten.
use openssl_3_0_bee2evp.Prelude.{
  ℕ, ◌+◌, ◌-◌, ◌*◌, ◌≤◌, ◌<◌, ◌≡◌, refl, ◌↔◌, true, false, none, List, [], ◌∷◌, arith,
}
use openssl_3_0_bee2evp.Ssl.{ok}
use openssl_3_0_bee2evp.Dtls.Timer.{
  Timeval, D1, TimerEnv, zero_time, is_zero_time, is_timer_expired, handle_timeout, get_timeout,
  time_left, check_timeout_num, lower_mtu, start_timer, stop_timer, next_duration, double_timeout,
  first_duration, add_duration,
}
use openssl_3_0_bee2evp.Dtls.Timer.Expiry.{micros, expired_iff}
use openssl_3_0_bee2evp.Dtls.Timer.Handle.{
  Event, handled, started, answered, retransmissions, retransmissions-le,
}
use openssl_3_0_bee2evp.Statem.Fixtures.{tls12}

abbrev env : TimerEnv
env = record { timer_cb = none; fallback_mtu = 228; tmo_alert_count = 12 }

abbrev at : ℕ → Timeval
at n = record { tv_sec = n; tv_usec = 0 }

abbrev stopped : D1
stopped = record {
  next_timeout = zero_time;
  timeout_duration_us = 1000000;
  timeout_num_alerts = 0;
  mtu = 1400;
  no_query_mtu = false;
  sent_messages = [];
}

-- It expires at eleven.
abbrev running : D1
running = record stopped { next_timeout = at 11 }

expired_iff_example :
    (is_timer_expired (at 11) running ≡ true)
    ↔ ((is_zero_time (at 11) ≡ false) × (micros (at 11) < micros (at 11) + 15000))
expired_iff_example = expired_iff (at 11) running (omega arith) (omega arith)

-- Two timeouts, a flight that is answered, and a timeout of the next flight.
abbrev events : List Event
events =
    handled (at 11) (at 11)
    ∷ handled (at 13) (at 13)
    ∷ answered
    ∷ started (at 14)
    ∷ handled (at 15) (at 15)
    ∷ []

three_times : retransmissions env (tls12 ok) running events ≡ 3
unfolding retransmissions handle_timeout is_timer_expired get_timeout time_left check_timeout_num
    lower_mtu start_timer stop_timer next_duration double_timeout first_duration add_duration
three_times = refl

retransmissions-le_example : retransmissions env (tls12 ok) running events ≤ 12 - 0 + 1 * 12
retransmissions-le_example = retransmissions-le env (tls12 ok) running events (omega arith)
