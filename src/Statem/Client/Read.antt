-- ===== src/Statem/Client/Read.antt =====
-- The client's read transitions (ssl/statem/statem_clnt.c): which message is allowed in which state,
-- and the state that it leads to.
use openssl_3_0_bee2evp.Prelude.{
  Bool, true, false, not, ◌&&◌, ◌||◌, Option, none, some, leb, if◌then◌else◌,
}
use openssl_3_0_bee2evp.Ssl.{
  HandState, ok, cr_hello_verify_request, cr_srvr_hello, cr_cert, cr_cert_status, cr_key_exch,
  cr_cert_req, cr_srvr_done, cr_session_ticket, cr_change, cr_finished, cr_encrypted_extensions,
  cr_cert_vrfy, cr_hello_req, cr_key_update, cw_clnt_hello, cw_finished, early_data, MsgType, ◌is◌,
  hello_request, server_hello, hello_verify_request, newsession_ticket, encrypted_extensions,
  certificate, server_key_exchange, certificate_request, server_done, certificate_verify, finished,
  certificate_status, key_update, change_cipher_spec, pha_requested, Env, Ssl, any_psk,
  no_cert_auth, goto, is_tls13, is_pha_ext_sent,
}
use openssl_3_0_bee2evp.Statem.{finish_read}
use openssl_3_0_bee2evp.Statem.Client.{cert_req_allowed, key_exchange_expected}

-- A CertificateRequest after the handshake.
unfoldable pub client13_pha_request : Env → Ssl → Ssl × Bool
client13_pha_request e s =
    let (s', restored) =
      e.restore_handshake_digest (record s { post_handshake_auth = pha_requested }) in
    if restored then (goto cr_cert_req s', true) else (s', false)

unfoldable pub client13_read_from : Env → HandState → MsgType → Ssl → Ssl × Bool
client13_read_from e cw_clnt_hello mt s =
    if mt is server_hello then (goto cr_srvr_hello s, true) else (s, false)
client13_read_from e cr_srvr_hello mt s =
    if mt is encrypted_extensions then (goto cr_encrypted_extensions s, true) else (s, false)
client13_read_from e cr_encrypted_extensions mt s =
    if s.hit
    then if mt is finished then (goto cr_finished s, true) else (s, false)
    else if mt is certificate_request
    then (goto cr_cert_req s, true)
    else if mt is certificate
    then (goto cr_cert s, true)
    else (s, false)
client13_read_from e cr_cert_req mt s =
    if mt is certificate then (goto cr_cert s, true) else (s, false)
client13_read_from e cr_cert mt s =
    if mt is certificate_verify then (goto cr_cert_vrfy s, true) else (s, false)
client13_read_from e cr_cert_vrfy mt s =
    if mt is finished then (goto cr_finished s, true) else (s, false)
client13_read_from e ok mt s =
    if mt is newsession_ticket
    then (goto cr_session_ticket s, true)
    else if mt is key_update
    then (goto cr_key_update s, true)
    else if mt is certificate_request && (not s.is_dtls && is_pha_ext_sent s.post_handshake_auth)
    then client13_pha_request e s
    else (s, false)
client13_read_from e _ mt s = (s, false)

-- `ossl_statem_client13_read_transition`
unfoldable pub client13_read_transition : Env → Ssl → MsgType → Ssl × Bool
unfolding client13_read_from
client13_read_transition e s mt = client13_read_from e s.statem.hand_state mt s

-- The cases of the switch below TLSv1.3. Four of them fall through into the next.
unfoldable pub read_cert_req : MsgType → Ssl → Option Ssl
read_cert_req mt s = if mt is server_done then some (goto cr_srvr_done s) else none

unfoldable pub read_key_exch : Env → MsgType → Ssl → Option Ssl
read_key_exch e mt s =
    if mt is certificate_request
    then if cert_req_allowed e.consts s then some (goto cr_cert_req s) else none
    else read_cert_req mt s

unfoldable pub read_cert_status : Env → MsgType → Ssl → Option Ssl
read_cert_status e mt s =
    if key_exchange_expected s || (any_psk s.new_cipher && mt is server_key_exchange)
    then if mt is server_key_exchange then some (goto cr_key_exch s) else none
    else read_key_exch e mt s

unfoldable pub read_cert : Env → MsgType → Ssl → Option Ssl
read_cert e mt s =
    if s.status_expected && mt is certificate_status
    then some (goto cr_cert_status s)
    else read_cert_status e mt s

-- After a ServerHello, where the server presents no certificate.
unfoldable pub read_no_cert : Env → MsgType → Ssl → Option Ssl
read_no_cert e mt s =
    if key_exchange_expected s || (any_psk s.new_cipher && mt is server_key_exchange)
    then if mt is server_key_exchange then some (goto cr_key_exch s) else none
    else if mt is certificate_request && cert_req_allowed e.consts s
    then some (goto cr_cert_req s)
    else if mt is server_done
    then some (goto cr_srvr_done s)
    else none

-- After a ServerHello that resumes no session.
unfoldable pub read_srvr_hello_full : Env → MsgType → Ssl → Option Ssl
read_srvr_hello_full e mt s =
    if s.is_dtls && mt is hello_verify_request
    then some (goto cr_hello_verify_request s)
    else if leb e.consts.tls1_version s.version
        && (s.session_secret_cb && (s.session_tick && mt is change_cipher_spec))
    then some (goto cr_change (record s { hit = true }))
    else if not (no_cert_auth s.new_cipher)
    then if mt is certificate then some (goto cr_cert s) else none
    else read_no_cert e mt s

unfoldable pub read_srvr_hello : Env → MsgType → Ssl → Option Ssl
read_srvr_hello e mt s =
    if s.hit
    then if s.ticket_expected
      then if mt is newsession_ticket then some (goto cr_session_ticket s) else none
      else if mt is change_cipher_spec
      then some (goto cr_change s)
      else none
    else read_srvr_hello_full e mt s

unfoldable pub read_cw_finished : MsgType → Ssl → Option Ssl
read_cw_finished mt s =
    if s.ticket_expected
    then if mt is newsession_ticket then some (goto cr_session_ticket s) else none
    else if mt is change_cipher_spec
    then some (goto cr_change s)
    else none

unfoldable pub client_read_from : Env → HandState → MsgType → Ssl → Option Ssl
client_read_from e cw_clnt_hello mt s =
    if mt is server_hello
    then some (goto cr_srvr_hello s)
    else if s.is_dtls && mt is hello_verify_request
    then some (goto cr_hello_verify_request s)
    else none
client_read_from e early_data mt s =
    if mt is server_hello then some (goto cr_srvr_hello s) else none
client_read_from e cr_srvr_hello mt s = read_srvr_hello e mt s
client_read_from e cr_cert mt s = read_cert e mt s
client_read_from e cr_cert_status mt s = read_cert_status e mt s
client_read_from e cr_key_exch mt s = read_key_exch e mt s
client_read_from e cr_cert_req mt s = read_cert_req mt s
client_read_from e cw_finished mt s = read_cw_finished mt s
client_read_from e cr_session_ticket mt s =
    if mt is change_cipher_spec then some (goto cr_change s) else none
client_read_from e cr_change mt s = if mt is finished then some (goto cr_finished s) else none
client_read_from e ok mt s = if mt is hello_request then some (goto cr_hello_req s) else none
client_read_from e _ mt s = none

-- `ossl_statem_client_read_transition`
unfoldable pub client_read_transition : Env → Ssl → MsgType → Ssl × Bool
client_read_transition e s mt =
    if is_tls13 e.consts s
    then (let (s', allowed) = client13_read_transition e s mt in
        if allowed then (s', true) else finish_read mt s' none)
    else finish_read mt s (client_read_from e s.statem.hand_state mt s)
