-- ===== src/Ssl.antt =====
-- The connection object: the enumerations of ssl/statem/statem.h and ssl/ssl_local.h, and the
-- members of `SSL` that the handshake state machine reads or writes.
use openssl_3_0_bee2evp.Prelude.{
  ℕ, ◌+◌, Bool, true, false, not, ◌&&◌, ◌||◌, List, Option, leb, ◌==◌,
}

-- `OSSL_HANDSHAKE_STATE` of the public header openssl/ssl.h: the states that `SSL_state_string_long`
-- names. The model only compares them.
pub data HandState : Type 0 where
  before ok : HandState
  cr_hello_verify_request cr_srvr_hello cr_cert cr_cert_status cr_key_exch cr_cert_req : HandState
  cr_srvr_done cr_session_ticket cr_change cr_finished cr_encrypted_extensions : HandState
  cr_cert_vrfy cr_hello_req cr_key_update : HandState
  cw_clnt_hello cw_cert cw_key_exch cw_cert_vrfy cw_change cw_next_proto cw_finished : HandState
  cw_key_update cw_end_of_early_data : HandState
  sw_hello_req sw_hello_verify_request sw_srvr_hello sw_cert sw_cert_status sw_key_exch : HandState
  sw_cert_req sw_srvr_done sw_session_ticket sw_change sw_finished : HandState
  sw_encrypted_extensions sw_cert_vrfy sw_key_update : HandState
  sr_clnt_hello sr_cert sr_key_exch sr_cert_vrfy sr_next_proto sr_change sr_finished : HandState
  sr_end_of_early_data sr_key_update : HandState
  early_data pending_early_data_end : HandState

-- The handshake message types of the public header openssl/ssl3.h, with the two that stand for no handshake message (the change of
-- cipher specification and the dummy). `unknown` is any other value of the type octet.
pub data MsgType : Type 0 where
  hello_request client_hello server_hello hello_verify_request newsession_ticket : MsgType
  end_of_early_data encrypted_extensions certificate server_key_exchange : MsgType
  certificate_request server_done certificate_verify client_key_exchange finished : MsgType
  certificate_status key_update next_proto change_cipher_spec dummy : MsgType
  unknown : ℕ → MsgType

-- A number for each message type, by which two are compared.
abbrev pub code : MsgType → ℕ
code hello_request = 0
code client_hello = 1
code server_hello = 2
code hello_verify_request = 3
code newsession_ticket = 4
code end_of_early_data = 5
code encrypted_extensions = 6
code certificate = 7
code server_key_exchange = 8
code certificate_request = 9
code server_done = 10
code certificate_verify = 11
code client_key_exchange = 12
code finished = 13
code certificate_status = 14
code key_update = 15
code next_proto = 16
code change_cipher_spec = 17
code dummy = 18
code (unknown n) = 19 + n

infix 50 ◌is◌
abbrev pub ◌is◌ : MsgType → MsgType → Bool
a is b = code a == code b

pub data WriteTran : Type 0 where
  tran_error tran_continue tran_finished : WriteTran

pub data WorkState : Type 0 where
  work_error work_finished_stop work_finished_continue : WorkState
  work_more_a work_more_b work_more_c : WorkState

pub data FlowState : Type 0 where
  flow_uninited flow_error flow_reading flow_writing flow_finished : FlowState

pub data ReadState : Type 0 where
  read_header read_body read_post_process : ReadState

pub data WriteState : Type 0 where
  write_transition write_pre_work write_send write_post_work : WriteState

pub data EncWriteState : Type 0 where
  enc_write_valid enc_write_invalid enc_write_plain_alerts : EncWriteState

pub data EncReadState : Type 0 where
  enc_read_valid enc_read_allow_plain_alerts : EncReadState

-- `SSL_PHA_STATE`
pub data PhaState : Type 0 where
  pha_none pha_ext_sent pha_ext_received pha_request_pending pha_requested : PhaState

-- `hello_retry_request`
pub data HrrState : Type 0 where
  hrr_none hrr_pending hrr_complete : HrrState

-- `SSL_EARLY_DATA_STATE`
pub data EarlyDataState : Type 0 where
  ed_none ed_connect_retry ed_connecting ed_write_retry ed_writing ed_write_flush : EarlyDataState
  ed_unauth_writing ed_finished_writing ed_accept_retry ed_accepting ed_read_retry : EarlyDataState
  ed_reading ed_finished_reading : EarlyDataState

-- `ext.early_data`
pub data ExtEarlyData : Type 0 where
  early_data_not_sent early_data_rejected early_data_accepted : ExtEarlyData

-- `rwstate`
pub data RwState : Type 0 where
  ssl_nothing ssl_writing ssl_reading : RwState

-- The alert of a fatal error; `no_alert` is `SSL_AD_NO_ALERT`.
pub data Alert : Type 0 where
  no_alert unexpected_message internal_error handshake_failure illegal_parameter : Alert

-- The number of a cipher suite, and the bits of `algorithm_mkey` and `algorithm_auth` that the state machine tests.
pub record Cipher : Type 0 where
  pub id : ℕ
  pub k_dhe : Bool
  pub k_ecdhe : Bool
  pub k_psk : Bool
  pub k_rsapsk : Bool
  pub k_dhepsk : Bool
  pub k_ecdhepsk : Bool
  pub k_srp : Bool
  pub k_bdhe : Bool
  pub k_bdhepsk : Bool
  pub k_bdhtpsk : Bool
  pub a_null : Bool
  pub a_srp : Bool
  pub a_psk : Bool

-- `alg & SSL_PSK`
abbrev pub any_psk : Cipher → Bool
any_psk c = c.k_psk || c.k_rsapsk || c.k_ecdhepsk || c.k_dhepsk || c.k_bdhepsk || c.k_bdhtpsk

-- `algorithm_auth & (SSL_aNULL | SSL_aSRP | SSL_aPSK)`
abbrev pub no_cert_auth : Cipher → Bool
no_cert_auth c = c.a_null || c.a_srp || c.a_psk

-- What the code takes from public headers: the version numbers it compares with, and the longest
-- plain record.
pub record PublicConstants : Type 0 where
  pub ssl3_version : ℕ
  pub ssl3_version_major : ℕ
  pub dtls1_version : ℕ
  pub tls1_version : ℕ
  pub tls1_3_version : ℕ
  pub tls_any_version : ℕ
  pub dtls1_bad_ver : ℕ
  pub rt_max_plain_length : ℕ

-- `struct ossl_statem_st`
pub record Statem : Type 0 where
  pub flow : FlowState
  pub write_state : WriteState
  pub write_state_work : WorkState
  pub read_state : ReadState
  pub read_state_work : WorkState
  pub hand_state : HandState
  pub request_state : HandState
  pub in_init : Bool
  pub read_state_first_init : Bool
  pub in_handshake : ℕ
  pub cleanuphand : Bool
  pub no_cert_verify : Bool
  pub use_timer : Bool
  pub enc_write_state : EncWriteState
  pub enc_read_state : EncReadState

-- The members of `SSL` that the state machine uses. A pointer that is only compared with NULL and
-- a bit of a flag word are Booleans. `alerts` are the fatal alerts handed to `ssl3_send_alert`, the
-- last first.
-- `everything_else` numbers the states of all that is not modelled, the network included, so that
-- the functions called can depend on it and change it.
pub record Ssl : Type 0 where
  pub statem : Statem
  pub server : Bool
  pub is_dtls : Bool
  pub method_version : ℕ
  pub version : ℕ
  pub hit : Bool
  pub new_cipher : Cipher
  pub ticket_expected : Bool
  pub status_expected : Bool
  pub ext_early_data : ExtEarlyData
  pub extra_tickets_expected : ℕ
  pub session_secret_cb : Bool
  pub session_tick : Bool
  pub session_peer : Bool
  pub psk_identity_hint : Bool
  pub post_handshake_auth : PhaState
  pub hello_retry_request : HrrState
  pub early_data_state : EarlyDataState
  pub middlebox_compat : Bool
  pub cookie_exchange : Bool
  pub cookie_verified : Bool
  pub sent_shutdown : Bool
  pub key_update_pending : Bool
  pub cert_req : ℕ
  pub cert_request : Bool
  pub npn_seen : Bool
  pub skip_cert_verify : Bool
  pub renegotiate : Bool
  pub verify_peer : Bool
  pub verify_fail_if_no_peer_cert : Bool
  pub verify_client_once : Bool
  pub verify_post_handshake : Bool
  pub certreqs_sent : ℕ
  pub finish_md_len : ℕ
  pub peer_finish_md_len : ℕ
  pub num_tickets : ℕ
  pub sent_tickets : ℕ
  pub s3_renegotiate : Bool
  pub read_pending : Bool
  pub write_pending : Bool
  pub num_renegotiations : ℕ
  pub total_renegotiations : ℕ
  pub in_read_app_data : Bool
  pub previous_server_finished_len : ℕ
  pub init_num : ℕ
  pub rwstate : RwState
  pub retry_read : Bool
  pub max_cert_list : ℕ
  pub message_size : ℕ
  pub first_packet : Bool
  pub alerts : List Alert
  pub max_early_data : ℕ
  pub stateless : Bool
  pub session_cipher : Option Cipher
  pub session_compress : ℕ
  pub new_compression : Option ℕ
  pub enc_write_ctx : Bool
  pub init_buf : Bool
  pub new_session : Bool
  pub ccs_received : Bool
  pub handshake_read_seq : ℕ
  pub handshake_write_seq : ℕ
  pub next_handshake_write_seq : ℕ
  pub session_cache_client : Bool
  pub everything_else : ℕ

-- `st->hand_state = h`
abbrev pub goto : HandState → Ssl → Ssl
goto h s = record s { statem = record (s.statem) { hand_state = h } }

-- `SSL_IS_TLS13`
abbrev pub is_tls13 : PublicConstants → Ssl → Bool
is_tls13 k s =
    not s.is_dtls
    && leb k.tls1_3_version s.method_version
    && not (s.method_version == k.tls_any_version)

-- `SSL_IS_FIRST_HANDSHAKE`
abbrev pub is_first_handshake : Ssl → Bool
is_first_handshake s = s.finish_md_len == 0 || s.peer_finish_md_len == 0

abbrev pub is_pha_requested : PhaState → Bool
is_pha_requested pha_requested = true
is_pha_requested _ = false

abbrev pub is_pha_request_pending : PhaState → Bool
is_pha_request_pending pha_request_pending = true
is_pha_request_pending _ = false

abbrev pub is_pha_ext_sent : PhaState → Bool
is_pha_ext_sent pha_ext_sent = true
is_pha_ext_sent _ = false

abbrev pub is_hrr_pending : HrrState → Bool
is_hrr_pending hrr_pending = true
is_hrr_pending _ = false

abbrev pub is_hrr_none : HrrState → Bool
is_hrr_none hrr_none = true
is_hrr_none _ = false

abbrev pub is_hrr_complete : HrrState → Bool
is_hrr_complete hrr_complete = true
is_hrr_complete _ = false

abbrev pub is_accepted : ExtEarlyData → Bool
is_accepted early_data_accepted = true
is_accepted _ = false

abbrev pub is_flow_error : FlowState → Bool
is_flow_error flow_error = true
is_flow_error _ = false

abbrev pub is_flow_uninited : FlowState → Bool
is_flow_uninited flow_uninited = true
is_flow_uninited _ = false

abbrev pub is_invalid : EncWriteState → Bool
is_invalid enc_write_invalid = true
is_invalid _ = false

abbrev pub is_no_alert : Alert → Bool
is_no_alert no_alert = true
is_no_alert _ = false

abbrev pub is_connecting : EarlyDataState → Bool
is_connecting ed_connecting = true
is_connecting _ = false

abbrev pub is_write_retry : EarlyDataState → Bool
is_write_retry ed_write_retry = true
is_write_retry _ = false

abbrev pub is_finished_writing : EarlyDataState → Bool
is_finished_writing ed_finished_writing = true
is_finished_writing _ = false

abbrev pub is_ed_none : EarlyDataState → Bool
is_ed_none ed_none = true
is_ed_none _ = false

abbrev pub is_accepting : EarlyDataState → Bool
is_accepting ed_accepting = true
is_accepting _ = false

abbrev pub is_writing : EarlyDataState → Bool
is_writing ed_writing = true
is_writing _ = false

abbrev pub is_reading : EarlyDataState → Bool
is_reading ed_reading = true
is_reading _ = false

abbrev pub is_finished_reading : EarlyDataState → Bool
is_finished_reading ed_finished_reading = true
is_finished_reading _ = false

-- What the transitions call and this library does not model: restoring the digest for
-- authentication after the handshake, and `tls_setup_handshake`. Each returns the connection and
-- whether it succeeded.
pub record Env : Type 0 where
  pub consts : PublicConstants
  pub restore_handshake_digest : Ssl → Ssl × Bool
  pub setup_handshake : Ssl → Ssl × Bool
