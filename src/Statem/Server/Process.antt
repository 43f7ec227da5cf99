-- ===== src/Statem/Server/Process.antt =====
-- The function that processes the message of each state of the server (ssl/statem/statem_srvr.c).
use openssl_3_0_bee2evp.Prelude.{Option, none, some}
use openssl_3_0_bee2evp.Ssl.{
  HandState, sr_clnt_hello, sr_cert, sr_key_exch, sr_cert_vrfy, sr_next_proto, sr_change,
  sr_finished, sr_end_of_early_data, sr_key_update,
}

pub data ServerProcess : Type 0 where
  process_client_hello process_end_of_early_data process_client_certificate : ServerProcess
  process_client_key_exchange process_cert_verify process_next_proto : ServerProcess
  process_change_cipher_spec process_finished process_key_update : ServerProcess

-- `ossl_statem_server_process_message`: `none` is the fatal error of the other states.
unfoldable pub server_process_of : HandState → Option ServerProcess
server_process_of sr_clnt_hello = some process_client_hello
server_process_of sr_end_of_early_data = some process_end_of_early_data
server_process_of sr_cert = some process_client_certificate
server_process_of sr_key_exch = some process_client_key_exchange
server_process_of sr_cert_vrfy = some process_cert_verify
server_process_of sr_next_proto = some process_next_proto
server_process_of sr_change = some process_change_cipher_spec
server_process_of sr_finished = some process_finished
server_process_of sr_key_update = some process_key_update
server_process_of _ = none

pub data ServerPost : Type 0 where
  post_client_hello post_client_key_exchange : ServerPost

-- `ossl_statem_server_post_process_message`
unfoldable pub server_post_process_of : HandState → Option ServerPost
server_post_process_of sr_clnt_hello = some post_client_hello
server_post_process_of sr_key_exch = some post_client_key_exchange
server_post_process_of _ = none
