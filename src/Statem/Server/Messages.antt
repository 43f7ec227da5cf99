-- ===== src/Statem/Server/Messages.antt =====
-- The message that the server constructs in each state, and the longest message that it reads
-- (ssl/statem/statem_srvr.c).
use openssl_3_0_bee2evp.Prelude.{ℕ, Option, none, some, if◌then◌else◌}
use openssl_3_0_bee2evp.Ssl.{
  HandState, sw_hello_req, sw_hello_verify_request, sw_srvr_hello, sw_cert, sw_cert_status,
  sw_key_exch, sw_cert_req, sw_srvr_done, sw_session_ticket, sw_change, sw_finished,
  sw_encrypted_extensions, sw_cert_vrfy, sw_key_update, sr_clnt_hello, sr_cert, sr_key_exch,
  sr_cert_vrfy, sr_next_proto, sr_change, sr_finished, sr_end_of_early_data, sr_key_update,
  early_data, MsgType, hello_request, server_hello, hello_verify_request, newsession_ticket,
  encrypted_extensions, certificate, server_key_exchange, certificate_request, server_done,
  certificate_verify, finished, certificate_status, key_update, change_cipher_spec, dummy,
  internal_error, PublicConstants, Ssl,
}
use openssl_3_0_bee2evp.Statem.{fatal}
use openssl_3_0_bee2evp.Statem.Client.Messages.{
  end_of_early_data_max_length, ccs_max_length, finished_max_length, key_update_max_length,
}

-- The construction functions; `no_construct` is a NULL pointer.
pub data ServerConstruct : Type 0 where
  no_construct construct_ccs construct_dtls_ccs construct_hello_verify_request : ServerConstruct
  construct_server_hello construct_server_certificate construct_cert_verify : ServerConstruct
  construct_server_key_exchange construct_certificate_request : ServerConstruct
  construct_server_done construct_new_session_ticket construct_cert_status : ServerConstruct
  construct_finished construct_encrypted_extensions construct_key_update : ServerConstruct

unfoldable pub server_message_of : HandState → Ssl → Option (ServerConstruct × MsgType)
server_message_of sw_change s =
    some (if s.is_dtls then construct_dtls_ccs else construct_ccs, change_cipher_spec)
server_message_of sw_hello_verify_request s =
    some (construct_hello_verify_request, hello_verify_request)
server_message_of sw_hello_req s = some (no_construct, hello_request)
server_message_of sw_srvr_hello s = some (construct_server_hello, server_hello)
server_message_of sw_cert s = some (construct_server_certificate, certificate)
server_message_of sw_cert_vrfy s = some (construct_cert_verify, certificate_verify)
server_message_of sw_key_exch s = some (construct_server_key_exchange, server_key_exchange)
server_message_of sw_cert_req s = some (construct_certificate_request, certificate_request)
server_message_of sw_srvr_done s = some (construct_server_done, server_done)
server_message_of sw_session_ticket s = some (construct_new_session_ticket, newsession_ticket)
server_message_of sw_cert_status s = some (construct_cert_status, certificate_status)
server_message_of sw_finished s = some (construct_finished, finished)
server_message_of early_data s = some (no_construct, dummy)
server_message_of sw_encrypted_extensions s =
    some (construct_encrypted_extensions, encrypted_extensions)
server_message_of sw_key_update s = some (construct_key_update, key_update)
server_message_of _ s = none

-- `ossl_statem_server_construct_message`; `none` is the return value 0.
unfoldable pub server_construct_message : Ssl → Ssl × Option (ServerConstruct × MsgType)
unfolding server_message_of fatal
server_construct_message s = elim (server_message_of s.statem.hand_state s) [
  | none ↦ (fatal internal_error s, none)
  | some m ↦ (s, some m)
]

abbrev pub client_hello_max_length : ℕ
client_hello_max_length = 131396

abbrev pub client_key_exch_max_length : ℕ
client_key_exch_max_length = 2048

abbrev pub next_proto_max_length : ℕ
next_proto_max_length = 514

unfoldable pub server_max_size_of : PublicConstants → HandState → Ssl → ℕ
server_max_size_of k sr_clnt_hello s = client_hello_max_length
server_max_size_of k sr_end_of_early_data s = end_of_early_data_max_length
server_max_size_of k sr_cert s = s.max_cert_list
server_max_size_of k sr_key_exch s = client_key_exch_max_length
server_max_size_of k sr_cert_vrfy s = k.rt_max_plain_length
server_max_size_of k sr_next_proto s = next_proto_max_length
server_max_size_of k sr_change s = ccs_max_length
server_max_size_of k sr_finished s = finished_max_length
server_max_size_of k sr_key_update s = key_update_max_length
server_max_size_of k _ s = 0

-- `ossl_statem_server_max_message_size`
unfoldable pub server_max_message_size : PublicConstants → Ssl → ℕ
unfolding server_max_size_of
server_max_message_size k s = server_max_size_of k s.statem.hand_state s
