-- ===== src/Statem/Fixtures.antt =====
-- Concrete connections for the tests: TLS below version 1.3, and TLSv1.3.

use openssl_3_0_bee2evp.Prelude.{ℕ, Bool, true, false, none, []}
use openssl_3_0_bee2evp.Ssl.{
  HandState, before, flow_reading, write_transition, read_header, work_more_a,
  work_finished_continue, enc_write_valid, enc_read_valid, early_data_not_sent, pha_none, hrr_none,
  ed_none, ssl_nothing, Cipher, Env, Ssl,
}
use openssl_3_0_bee2evp.Statem.Work.{Calls}
use openssl_3_0_bee2evp.Statem.Flow.{FlowCalls, continue_reading, constructed}

abbrev pub env : Env
env = record {
  consts = record {
    ssl3_version = 768;
    ssl3_version_major = 3;
    dtls1_version = 65279;
    tls1_version = 769;
    tls1_3_version = 772;
    tls_any_version = 65536;
    dtls1_bad_ver = 256;
    rt_max_plain_length = 16384;
  };
  restore_handshake_digest = λ s. (s, true);
  setup_handshake = λ s. (s, true);
}

-- Ephemeral Diffie-Hellman with a certificate.
abbrev pub ecdhe : Cipher
ecdhe = record {
  id = 49199;
  k_dhe = false;
  k_ecdhe = true;
  k_psk = false;
  k_rsapsk = false;
  k_dhepsk = false;
  k_ecdhepsk = false;
  k_srp = false;
  k_bdhe = false;
  k_bdhepsk = false;
  k_bdhtpsk = false;
  a_null = false;
  a_srp = false;
  a_psk = false;
}

-- A TLS connection of a version in a state of the handshake.
abbrev pub connection : ℕ → HandState → Ssl
connection v h = record {
  statem = record {
    flow = flow_reading;
    write_state = write_transition;
    write_state_work = work_more_a;
    read_state = read_header;
    read_state_work = work_more_a;
    hand_state = h;
    request_state = before;
    in_init = true;
    read_state_first_init = false;
    in_handshake = 1;
    cleanuphand = true;
    no_cert_verify = false;
    use_timer = false;
    enc_write_state = enc_write_valid;
    enc_read_state = enc_read_valid;
  };
  server = false;
  is_dtls = false;
  method_version = v;
  version = v;
  hit = false;
  new_cipher = ecdhe;
  ticket_expected = false;
  status_expected = false;
  ext_early_data = early_data_not_sent;
  extra_tickets_expected = 0;
  session_secret_cb = false;
  session_tick = false;
  session_peer = true;
  psk_identity_hint = false;
  post_handshake_auth = pha_none;
  hello_retry_request = hrr_none;
  early_data_state = ed_none;
  middlebox_compat = true;
  cookie_exchange = false;
  cookie_verified = false;
  sent_shutdown = false;
  key_update_pending = false;
  cert_req = 0;
  cert_request = true;
  npn_seen = false;
  skip_cert_verify = false;
  renegotiate = false;
  verify_peer = true;
  verify_fail_if_no_peer_cert = false;
  verify_client_once = false;
  verify_post_handshake = false;
  certreqs_sent = 0;
  finish_md_len = 0;
  peer_finish_md_len = 0;
  num_tickets = 2;
  sent_tickets = 0;
  s3_renegotiate = false;
  read_pending = false;
  write_pending = false;
  num_renegotiations = 0;
  total_renegotiations = 0;
  in_read_app_data = false;
  previous_server_finished_len = 0;
  init_num = 0;
  rwstate = ssl_nothing;
  retry_read = false;
  max_cert_list = 102400;
  message_size = 0;
  first_packet = false;
  alerts = [];
  max_early_data = 0;
  stateless = false;
  session_cipher = none;
  session_compress = 0;
  new_compression = none;
  enc_write_ctx = false;
  init_buf = true;
  new_session = true;
  ccs_received = false;
  handshake_read_seq = 0;
  handshake_write_seq = 0;
  next_handshake_write_seq = 0;
  session_cache_client = false;
  everything_else = 0;
}

abbrev pub tls12 : HandState → Ssl
tls12 h = connection 771 h

abbrev pub tls13 : HandState → Ssl
tls13 h = connection 772 h

-- Calls that succeed and change nothing.
abbrev succeeds : Ssl → Ssl × Bool
succeeds s = (s, true)

abbrev pub calls : Calls
calls = record {
  bio_flush = succeeds;
  connection_closed = λ s. false;
  init_finished_mac = succeeds;
  clear_sent_buffer = λ s. s;
  clear_received_buffer = λ s. s;
  reset_seq_numbers = λ s. s;
  setup_key_block = succeeds;
  cleanup_key_block = λ s. s;
  change_cipher_state = λ k s. (s, true);
  generate_master_secret = succeeds;
  update_key = succeeds;
  save_digest_for_pha = succeeds;
  client_key_exchange_post_work = succeeds;
  free_wbio_buffer = succeeds;
  update_cache_server = λ s. s;
  update_cache_client = λ s. s;
  remove_session = λ s. s;
}

-- No message has arrived, and nothing can be written.
abbrev pub flow_calls : FlowCalls
flow_calls = record {
  work = calls;
  dtls_get_message = λ s. (s, none);
  get_message_header = λ s. (s, none);
  dtls_get_message_body = λ s. (s, false);
  get_message_body = λ s. (s, false);
  grow_init_buf = succeeds;
  packet_buf_init = λ s. true;
  client_process = λ p s. (s, continue_reading);
  server_process = λ p s. (s, continue_reading);
  client_post_process = λ p w s. (s, work_finished_continue);
  server_post_process = λ p w s. (s, work_finished_continue);
  stop_timer = λ s. s;
  start_timer = λ s. s;
  start_packet = λ mt s. (s, true);
  construct = λ c s. (s, constructed);
  close_packet = λ mt s. (s, true);
  write_ccs = λ s. (s, false);
  write_handshake = λ s. (s, false);
  ssl_clear = succeeds;
  allows_version = λ s. true;
  new_init_buf = succeeds;
  setup_buffers = succeeds;
  init_wbio_buffer = succeeds;
}
