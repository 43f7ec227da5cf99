-- ===== src/Statem/Client/Messages.antt =====
-- The message that the client constructs in each state, and the longest message that it reads
-- (ssl/statem/statem_clnt.c, with the limits of ssl/statem/statem_local.h).
use openssl_3_0_bee2evp.Prelude.{ℕ, Option, none, some, ◌==◌, if◌then◌else◌}
use openssl_3_0_bee2evp.Ssl.{
  HandState, cr_hello_verify_request, cr_srvr_hello, cr_cert, cr_cert_status, cr_key_exch,
  cr_cert_req, cr_srvr_done, cr_session_ticket, cr_change, cr_finished, cr_encrypted_extensions,
  cr_cert_vrfy, cr_key_update, cw_clnt_hello, cw_cert, cw_key_exch, cw_cert_vrfy, cw_change,
  cw_next_proto, cw_finished, cw_key_update, cw_end_of_early_data, pending_early_data_end, MsgType,
  client_hello, end_of_early_data, certificate, certificate_verify, client_key_exchange, finished,
  key_update, next_proto, change_cipher_spec, dummy, internal_error, PublicConstants, Ssl, is_tls13,
}
use openssl_3_0_bee2evp.Statem.{fatal}

-- The construction functions; `no_construct` is a NULL pointer.
pub data ClientConstruct : Type 0 where
  no_construct construct_ccs construct_dtls_ccs construct_client_hello : ClientConstruct
  construct_end_of_early_data construct_client_certificate : ClientConstruct
  construct_client_key_exchange construct_cert_verify construct_next_proto : ClientConstruct
  construct_finished construct_key_update : ClientConstruct

unfoldable pub client_message_of : HandState → Ssl → Option (ClientConstruct × MsgType)
client_message_of cw_change s =
    some (if s.is_dtls then construct_dtls_ccs else construct_ccs, change_cipher_spec)
client_message_of cw_clnt_hello s = some (construct_client_hello, client_hello)
client_message_of cw_end_of_early_data s = some (construct_end_of_early_data, end_of_early_data)
client_message_of pending_early_data_end s = some (no_construct, dummy)
client_message_of cw_cert s = some (construct_client_certificate, certificate)
client_message_of cw_key_exch s = some (construct_client_key_exchange, client_key_exchange)
client_message_of cw_cert_vrfy s = some (construct_cert_verify, certificate_verify)
client_message_of cw_next_proto s = some (construct_next_proto, next_proto)
client_message_of cw_finished s = some (construct_finished, finished)
client_message_of cw_key_update s = some (construct_key_update, key_update)
client_message_of _ s = none

-- `ossl_statem_client_construct_message`; `none` is the return value 0.
unfoldable pub client_construct_message : Ssl → Ssl × Option (ClientConstruct × MsgType)
unfolding client_message_of fatal
client_construct_message s = elim (client_message_of s.statem.hand_state s) [
  | none ↦ (fatal internal_error s, none)
  | some m ↦ (s, some m)
]

abbrev pub hello_verify_request_max_length : ℕ
hello_verify_request_max_length = 258

abbrev pub end_of_early_data_max_length : ℕ
end_of_early_data_max_length = 0

abbrev pub encrypted_extensions_max_length : ℕ
encrypted_extensions_max_length = 20000

abbrev pub session_ticket_max_length_tls13 : ℕ
session_ticket_max_length_tls13 = 131338

abbrev pub session_ticket_max_length_tls12 : ℕ
session_ticket_max_length_tls12 = 65541

abbrev pub server_key_exch_max_length : ℕ
server_key_exch_max_length = 102400

abbrev pub server_hello_done_max_length : ℕ
server_hello_done_max_length = 0

abbrev pub key_update_max_length : ℕ
key_update_max_length = 1

abbrev pub ccs_max_length : ℕ
ccs_max_length = 1

abbrev pub server_hello_max_length : ℕ
server_hello_max_length = 65607

abbrev pub finished_max_length : ℕ
finished_max_length = 64

unfoldable pub client_max_size_of : PublicConstants → HandState → Ssl → ℕ
client_max_size_of k cr_srvr_hello s = server_hello_max_length
client_max_size_of k cr_hello_verify_request s = hello_verify_request_max_length
client_max_size_of k cr_cert s = s.max_cert_list
client_max_size_of k cr_cert_vrfy s = k.rt_max_plain_length
client_max_size_of k cr_cert_status s = k.rt_max_plain_length
client_max_size_of k cr_key_exch s = server_key_exch_max_length
client_max_size_of k cr_cert_req s = s.max_cert_list
client_max_size_of k cr_srvr_done s = server_hello_done_max_length
client_max_size_of k cr_change s = if s.version == k.dtls1_bad_ver then 3 else ccs_max_length
client_max_size_of k cr_session_ticket s =
    if is_tls13 k s then session_ticket_max_length_tls13 else session_ticket_max_length_tls12
client_max_size_of k cr_finished s = finished_max_length
client_max_size_of k cr_encrypted_extensions s = encrypted_extensions_max_length
client_max_size_of k cr_key_update s = key_update_max_length
client_max_size_of k _ s = 0

-- `ossl_statem_client_max_message_size`
unfoldable pub client_max_message_size : PublicConstants → Ssl → ℕ
unfolding client_max_size_of
client_max_message_size k s = client_max_size_of k s.statem.hand_state s
