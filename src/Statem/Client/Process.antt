-- ===== src/Statem/Client/Process.antt =====
-- The function that processes the message of each state of the client (ssl/statem/statem_clnt.c).
use openssl_3_0_bee2evp.Prelude.{Option, none, some}
use openssl_3_0_bee2evp.Ssl.{
  HandState, cr_hello_verify_request, cr_srvr_hello, cr_cert, cr_cert_status, cr_key_exch,
  cr_cert_req, cr_srvr_done, cr_session_ticket, cr_change, cr_finished, cr_encrypted_extensions,
  cr_cert_vrfy, cr_hello_req, cr_key_update,
}

pub data ClientProcess : Type 0 where
  process_server_hello process_hello_verify process_server_certificate : ClientProcess
  process_cert_verify process_cert_status process_key_exchange : ClientProcess
  process_certificate_request process_server_done process_change_cipher_spec : ClientProcess
  process_new_session_ticket process_finished process_hello_req : ClientProcess
  process_encrypted_extensions process_key_update : ClientProcess

-- `ossl_statem_client_process_message`: `none` is the fatal error of the other states.
unfoldable pub client_process_of : HandState → Option ClientProcess
client_process_of cr_srvr_hello = some process_server_hello
client_process_of cr_hello_verify_request = some process_hello_verify
client_process_of cr_cert = some process_server_certificate
client_process_of cr_cert_vrfy = some process_cert_verify
client_process_of cr_cert_status = some process_cert_status
client_process_of cr_key_exch = some process_key_exchange
client_process_of cr_cert_req = some process_certificate_request
client_process_of cr_srvr_done = some process_server_done
client_process_of cr_change = some process_change_cipher_spec
client_process_of cr_session_ticket = some process_new_session_ticket
client_process_of cr_finished = some process_finished
client_process_of cr_hello_req = some process_hello_req
client_process_of cr_encrypted_extensions = some process_encrypted_extensions
client_process_of cr_key_update = some process_key_update
client_process_of _ = none

pub data ClientPost : Type 0 where
  post_server_certificate prepare_client_certificate : ClientPost

-- `ossl_statem_client_post_process_message`
unfoldable pub client_post_process_of : HandState → Option ClientPost
client_post_process_of cr_cert = some post_server_certificate
client_post_process_of cr_cert_vrfy = some prepare_client_certificate
client_post_process_of cr_cert_req = some prepare_client_certificate
client_post_process_of _ = none
