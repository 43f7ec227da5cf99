-- ===== src/Statem/Server/Read.antt =====
-- The server's read transitions (ssl/statem/statem_srvr.c): which message is allowed in which state,
-- and the state that it leads to.
use openssl_3_0_bee2evp.Prelude.{
  Bool, true, false, not, ◌&&◌, ◌||◌, none, some, ◌==◌, if◌then◌else◌,
}
use openssl_3_0_bee2evp.Ssl.{
  HandState, before, ok, sw_srvr_done, sw_finished, sw_hello_verify_request, sr_clnt_hello, sr_cert,
  sr_key_exch, sr_cert_vrfy, sr_next_proto, sr_change, sr_finished, sr_end_of_early_data,
  sr_key_update, early_data, MsgType, ◌is◌, client_hello, end_of_early_data, certificate,
  certificate_verify, client_key_exchange, finished, key_update, next_proto, change_cipher_spec,
  handshake_failure, Env, Ssl, goto, is_tls13, is_pha_requested, is_hrr_pending, is_accepted,
  is_reading,
}
use openssl_3_0_bee2evp.Statem.{fatal, finish_read}

-- What the switch below TLSv1.3 found: a valid move, none, or a refusal that has raised its own
-- error.
pub data Move : Type 0 where
  moved : Ssl → Move
  no_move : Move
  refused : Ssl → Move

unfoldable pub finish_move : MsgType → Ssl → Move → Ssl × Bool
finish_move mt s (moved s') = finish_read mt s (some s')
finish_move mt s no_move = finish_read mt s none
finish_move mt s (refused s') = (s', false)

unfoldable pub server13_read_finished : MsgType → Ssl → Ssl × Bool
server13_read_finished mt s =
    if s.cert_request
    then if mt is certificate then (goto sr_cert s, true) else (s, false)
    else if mt is finished
    then (goto sr_finished s, true)
    else (s, false)

unfoldable pub server13_read_from : HandState → MsgType → Ssl → Ssl × Bool
server13_read_from early_data mt s =
    if is_hrr_pending s.hello_retry_request
    then if mt is client_hello then (goto sr_clnt_hello s, true) else (s, false)
    else if is_accepted s.ext_early_data
    then if mt is end_of_early_data then (goto sr_end_of_early_data s, true) else (s, false)
    else server13_read_finished mt s
server13_read_from sr_end_of_early_data mt s = server13_read_finished mt s
server13_read_from sw_finished mt s = server13_read_finished mt s
server13_read_from sr_cert mt s =
    if not s.session_peer
    then if mt is finished then (goto sr_finished s, true) else (s, false)
    else if mt is certificate_verify
    then (goto sr_cert_vrfy s, true)
    else (s, false)
server13_read_from sr_cert_vrfy mt s =
    if mt is finished then (goto sr_finished s, true) else (s, false)
server13_read_from ok mt s =
    if is_reading s.early_data_state
    then (s, false)
    else if mt is certificate && is_pha_requested s.post_handshake_auth
    then (goto sr_cert s, true)
    else if mt is key_update
    then (goto sr_key_update s, true)
    else (s, false)
server13_read_from _ mt s = (s, false)

-- `ossl_statem_server13_read_transition`
unfoldable pub server13_read_transition : Ssl → MsgType → Ssl × Bool
unfolding server13_read_from
server13_read_transition s mt = server13_read_from s.statem.hand_state mt s

-- A ClientHello, at the start of a handshake.
unfoldable pub read_clnt_hello : MsgType → Ssl → Move
read_clnt_hello mt s = if mt is client_hello then moved (goto sr_clnt_hello s) else no_move

-- After ServerHelloDone.
unfoldable pub read_srvr_done : Env → MsgType → Ssl → Move
read_srvr_done e mt s =
    if mt is client_key_exchange
    then if s.cert_request
      then if s.version == e.consts.ssl3_version
        then if s.verify_peer && s.verify_fail_if_no_peer_cert
          then refused (fatal handshake_failure s)
          else moved (goto sr_key_exch s)
        else no_move
      else moved (goto sr_key_exch s)
    else if s.cert_request && mt is certificate
    then moved (goto sr_cert s)
    else no_move

-- After ClientKeyExchange: CertificateVerify, unless there is no client certificate to verify.
unfoldable pub server_read_key_exch : MsgType → Ssl → Move
server_read_key_exch mt s =
    if not s.session_peer || s.statem.no_cert_verify
    then if mt is change_cipher_spec then moved (goto sr_change s) else no_move
    else if mt is certificate_verify
    then moved (goto sr_cert_vrfy s)
    else no_move

unfoldable pub server_read_change : MsgType → Ssl → Move
server_read_change mt s =
    if s.npn_seen
    then if mt is next_proto then moved (goto sr_next_proto s) else no_move
    else if mt is finished
    then moved (goto sr_finished s)
    else no_move

unfoldable pub server_read_from : Env → HandState → MsgType → Ssl → Move
server_read_from e before mt s = read_clnt_hello mt s
server_read_from e ok mt s = read_clnt_hello mt s
server_read_from e sw_hello_verify_request mt s = read_clnt_hello mt s
server_read_from e sw_srvr_done mt s = read_srvr_done e mt s
server_read_from e sr_cert mt s =
    if mt is client_key_exchange then moved (goto sr_key_exch s) else no_move
server_read_from e sr_key_exch mt s = server_read_key_exch mt s
server_read_from e sr_cert_vrfy mt s =
    if mt is change_cipher_spec then moved (goto sr_change s) else no_move
server_read_from e sr_change mt s = server_read_change mt s
server_read_from e sr_next_proto mt s =
    if mt is finished then moved (goto sr_finished s) else no_move
server_read_from e sw_finished mt s =
    if mt is change_cipher_spec then moved (goto sr_change s) else no_move
server_read_from e _ mt s = no_move

-- `ossl_statem_server_read_transition`
unfoldable pub server_read_transition : Env → Ssl → MsgType → Ssl × Bool
server_read_transition e s mt =
    if is_tls13 e.consts s
    then (let (s', allowed) = server13_read_transition s mt in
        if allowed then (s', true) else finish_read mt s' none)
    else finish_move mt s (server_read_from e s.statem.hand_state mt s)
