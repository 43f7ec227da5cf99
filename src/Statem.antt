-- ===== src/Statem.antt =====
-- The functions of ssl/statem/statem.c that other code calls: the state queries, the resets and the
-- fatal error, and `ssl3_renegotiate_check` of ssl/s3_lib.c.
pub mod Control
pub mod Trace
pub mod Client
pub mod Server
pub mod Agreement
pub mod Renegotiation
pub mod Work
pub mod Flow
pub mod Fixtures
mod Tests
use openssl_3_0_bee2evp.Prelude.{
  ℕ, ◌+◌, ◌-◌, Bool, true, false, not, ◌&&◌, ◌||◌, Option, none, some, ◌∷◌, ◌==◌, if◌then◌else◌,
}
use openssl_3_0_bee2evp.Ssl.{
  HandState, before, ok, cw_clnt_hello, sw_hello_req, sw_finished, sr_clnt_hello, early_data,
  pending_early_data_end, MsgType, ◌is◌, change_cipher_spec, FlowState, flow_uninited, flow_error,
  ExtEarlyData, early_data_not_sent, early_data_rejected, ed_finished_writing, ssl_reading, Alert,
  unexpected_message, Ssl, goto, is_hrr_complete, is_accepted, is_flow_error, is_flow_uninited,
  is_invalid, is_no_alert, is_write_retry, is_writing, is_finished_reading,
}

abbrev pub is_ok : HandState → Bool
is_ok ok = true
is_ok _ = false

abbrev pub is_before : HandState → Bool
is_before before = true
is_before _ = false

abbrev pub is_early_data : HandState → Bool
is_early_data early_data = true
is_early_data _ = false

abbrev is_pending_early_data_end : HandState → Bool
is_pending_early_data_end pending_early_data_end = true
is_pending_early_data_end _ = false

abbrev is_sr_clnt_hello : HandState → Bool
is_sr_clnt_hello sr_clnt_hello = true
is_sr_clnt_hello _ = false

abbrev is_cw_clnt_hello : HandState → Bool
is_cw_clnt_hello cw_clnt_hello = true
is_cw_clnt_hello _ = false

abbrev is_sw_finished : HandState → Bool
is_sw_finished sw_finished = true
is_sw_finished _ = false

abbrev is_rejected : ExtEarlyData → Bool
is_rejected early_data_rejected = true
is_rejected _ = false

abbrev is_not_sent : ExtEarlyData → Bool
is_not_sent early_data_not_sent = true
is_not_sent _ = false

unfoldable pub is_init_finished : Ssl → Bool
is_init_finished s = not s.statem.in_init && is_ok s.statem.hand_state

unfoldable pub in_before : Ssl → Bool
in_before s = is_before s.statem.hand_state && is_flow_uninited s.statem.flow

unfoldable pub clear : Ssl → Ssl
clear s = record s {
  statem = record (s.statem) {
    flow = flow_uninited;
    hand_state = before;
    in_init = true;
    no_cert_verify = false;
  };
}

unfoldable pub set_renegotiate : Ssl → Ssl
set_renegotiate s = record s {
  statem = record (s.statem) { in_init = true; request_state = sw_hello_req };
}

-- `ossl_statem_send_fatal`, to which `SSLfatal` comes down.
unfoldable pub fatal : Alert → Ssl → Ssl
fatal al s = if s.statem.in_init && is_flow_error s.statem.flow then s else record s {
  statem = record (s.statem) { in_init = true; flow = flow_error };
  alerts =
      if not (is_no_alert al) && not (is_invalid s.statem.enc_write_state)
      then al ∷ s.alerts
      else s.alerts;
}

unfoldable pub in_error : Ssl → Bool
in_error s = is_flow_error s.statem.flow

unfoldable pub set_in_init : Bool → Ssl → Ssl
set_in_init b s = record s { statem = record (s.statem) { in_init = b } }

-- The counter is an `int` that is decremented only after an increment.
unfoldable pub set_in_handshake : Bool → Ssl → Ssl
set_in_handshake inhand s = record s {
  statem = record (s.statem) {
    in_handshake = if inhand then s.statem.in_handshake + 1 else s.statem.in_handshake - 1;
  };
}

unfoldable pub skip_early_data : Ssl → Bool
skip_early_data s =
    if not (is_rejected s.ext_early_data)
    then false
    else not (
        not s.server
        || not (is_early_data s.statem.hand_state)
        || is_hrr_complete s.hello_retry_request)

-- What the caller of `ossl_statem_check_finish_init` is about: `sending` is 1, 0 or -1.
pub data Sending : Type 0 where
  sending_data receiving_data handshaking : Sending

stop_early_writing : Ssl → Ssl
stop_early_writing s =
    if is_write_retry s.early_data_state
    then record s { early_data_state = ed_finished_writing }
    else s

waits_for_early_data : Ssl → Bool
waits_for_early_data s =
    is_pending_early_data_end s.statem.hand_state || is_early_data s.statem.hand_state

check_server : Ssl → Ssl
unfolding set_in_init
check_server s =
    if is_finished_reading s.early_data_state && is_early_data s.statem.hand_state
    then set_in_init true s
    else s

unfoldable pub check_finish_init : Sending → Ssl → Ssl
unfolding stop_early_writing waits_for_early_data check_server set_in_init
check_finish_init handshaking s =
    if waits_for_early_data s then stop_early_writing (set_in_init true s) else s
check_finish_init sending_data s =
    if s.server
    then check_server s
    else if waits_for_early_data s && not (is_writing s.early_data_state)
    then stop_early_writing (set_in_init true s)
    else s
check_finish_init receiving_data s =
    if s.server
    then check_server s
    else if is_early_data s.statem.hand_state
    then set_in_init true s
    else s

unfoldable pub set_hello_verify_done : Ssl → Ssl
set_hello_verify_done s = record s {
  statem = record (s.statem) { flow = flow_uninited; in_init = true; hand_state = sr_clnt_hello };
}

unfoldable pub app_data_allowed : Ssl → Bool
app_data_allowed s =
    if is_flow_uninited s.statem.flow
    then false
    else if not s.in_read_app_data || s.total_renegotiations == 0
    then false
    else if s.server
    then is_before s.statem.hand_state || is_sr_clnt_hello s.statem.hand_state
    else is_cw_clnt_hello s.statem.hand_state

unfoldable pub export_allowed : Ssl → Bool
export_allowed s =
    not (s.previous_server_finished_len == 0) && not (is_sw_finished s.statem.hand_state)

unfoldable pub export_early_allowed : Ssl → Bool
export_early_allowed s =
    is_accepted s.ext_early_data || (not s.server && not (is_not_sent s.ext_early_data))

-- `ssl3_renegotiate_check`
unfoldable pub renegotiate_check : Ssl → Bool → Ssl × Bool
unfolding set_renegotiate
renegotiate_check s initok =
    if s.s3_renegotiate
      && (not s.read_pending && not s.write_pending && (initok || not s.statem.in_init))
    then (
      record (set_renegotiate s) {
        s3_renegotiate = false;
        num_renegotiations = s.num_renegotiations + 1;
        total_renegotiations = s.total_renegotiations + 1;
      },
      true,
    )
    else (s, false)

-- The code at the label `err` of the read transitions.
unfoldable pub unexpected : MsgType → Ssl → Ssl
unfolding fatal
unexpected mt s =
    if s.is_dtls && mt is change_cipher_spec
    then record s { init_num = 0; rwstate = ssl_reading; retry_read = true }
    else fatal unexpected_message s

-- The end of a read transition: the next state if there is a valid move, else the code at `err`.
unfoldable pub finish_read : MsgType → Ssl → Option Ssl → Ssl × Bool
finish_read mt s (some s') = (s', true)
finish_read mt s none = (unexpected mt s, false)
