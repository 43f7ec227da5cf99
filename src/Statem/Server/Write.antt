-- ===== src/Statem/Server/Write.antt =====
-- The server's write transitions (ssl/statem/statem_srvr.c): the state to move to before the next
-- message is written.
use openssl_3_0_bee2evp.Prelude.{Bool, true, false, not, ◌&&◌, ◌||◌, ltb, leb, if◌then◌else◌}
use openssl_3_0_bee2evp.Ssl.{
  HandState, before, ok, sw_hello_req, sw_hello_verify_request, sw_srvr_hello, sw_cert,
  sw_cert_status, sw_key_exch, sw_cert_req, sw_srvr_done, sw_session_ticket, sw_change, sw_finished,
  sw_encrypted_extensions, sw_cert_vrfy, sw_key_update, sr_clnt_hello, sr_finished, sr_key_update,
  early_data, WriteTran, tran_error, tran_continue, tran_finished, pha_ext_received, pha_requested,
  internal_error, Env, Ssl, no_cert_auth, goto, is_tls13, is_first_handshake, is_pha_requested,
  is_pha_request_pending, is_hrr_pending, is_hrr_complete,
}
use openssl_3_0_bee2evp.Statem.{fatal}
use openssl_3_0_bee2evp.Statem.Server.{send_server_key_exchange, send_certificate_request}

abbrev pub is_sw_hello_req : HandState → Bool
is_sw_hello_req sw_hello_req = true
is_sw_hello_req _ = false

unfoldable pub server13_write_ok : Ssl → Ssl × WriteTran
server13_write_ok s =
    if s.key_update_pending
    then (goto sw_key_update s, tran_continue)
    else if is_pha_request_pending s.post_handshake_auth
    then (goto sw_cert_req s, tran_continue)
    else if ltb 0 s.extra_tickets_expected
    then (goto sw_session_ticket s, tran_continue)
    else (s, tran_finished)

unfoldable pub ticket_or_ok : Ssl → HandState
ticket_or_ok s = if ltb s.sent_tickets s.num_tickets then sw_session_ticket else ok

unfoldable pub server13_write_sr_finished : Ssl → Ssl
unfolding ticket_or_ok
server13_write_sr_finished s =
    if is_pha_requested s.post_handshake_auth
    then goto (ticket_or_ok s) (record s { post_handshake_auth = pha_ext_received })
    else if not s.ticket_expected
    then goto ok s
    else goto (ticket_or_ok s) s

unfoldable pub server13_write_session_ticket : Ssl → Ssl
server13_write_session_ticket s =
    if not (is_first_handshake s) && ltb 0 s.extra_tickets_expected
    then s
    else if s.hit || leb s.num_tickets s.sent_tickets
    then goto ok s
    else s

unfoldable pub server13_write_from : Env → HandState → Ssl → Ssl × WriteTran
server13_write_from e ok s = server13_write_ok s
server13_write_from e sr_clnt_hello s = (goto sw_srvr_hello s, tran_continue)
server13_write_from e sw_srvr_hello s = (
  goto
      (if s.middlebox_compat && not (is_hrr_complete s.hello_retry_request)
        then sw_change
        else if is_hrr_pending s.hello_retry_request
        then early_data
        else sw_encrypted_extensions)
      s,
  tran_continue,
)
server13_write_from e sw_change s = (
  goto (if is_hrr_pending s.hello_retry_request then early_data else sw_encrypted_extensions) s,
  tran_continue,
)
server13_write_from e sw_encrypted_extensions s = (
  goto
      (if s.hit
        then sw_finished
        else if send_certificate_request e.consts s
        then sw_cert_req
        else sw_cert)
      s,
  tran_continue,
)
server13_write_from e sw_cert_req s = (
  if is_pha_request_pending s.post_handshake_auth
      then goto ok (record s { post_handshake_auth = pha_requested })
      else goto sw_cert s,
  tran_continue,
)
server13_write_from e sw_cert s = (goto sw_cert_vrfy s, tran_continue)
server13_write_from e sw_cert_vrfy s = (goto sw_finished s, tran_continue)
server13_write_from e sw_finished s = (goto early_data s, tran_continue)
server13_write_from e early_data s = (s, tran_finished)
server13_write_from e sr_finished s = (server13_write_sr_finished s, tran_continue)
server13_write_from e sr_key_update s = (goto ok s, tran_continue)
server13_write_from e sw_key_update s = (goto ok s, tran_continue)
server13_write_from e sw_session_ticket s = (server13_write_session_ticket s, tran_continue)
server13_write_from e _ s = (fatal internal_error s, tran_error)

-- `ossl_statem_server13_write_transition`
unfoldable pub server13_write_transition : Env → Ssl → Ssl × WriteTran
unfolding server13_write_from
server13_write_transition e s = server13_write_from e s.statem.hand_state s

-- The cases of the switch below TLSv1.3. Four of them fall through into the next.
unfoldable pub write_ok : Env → Ssl → Ssl × WriteTran
write_ok e s =
    if is_sw_hello_req s.statem.request_state
    then (
      record s { statem = record (s.statem) { hand_state = sw_hello_req; request_state = before } },
      tran_continue,
    )
    else (let (s', done) = e.setup_handshake s in
        if done then (s', tran_finished) else (s', tran_error))

unfoldable pub write_clnt_hello : Ssl → Ssl
write_clnt_hello s =
    if s.is_dtls && (not s.cookie_verified && s.cookie_exchange)
    then goto sw_hello_verify_request s
    else if not s.renegotiate && not (is_first_handshake s)
    then goto ok s
    else goto sw_srvr_hello s

unfoldable pub after_key_exch : Env → Ssl → HandState
after_key_exch e s = if send_certificate_request e.consts s then sw_cert_req else sw_srvr_done

unfoldable pub after_cert_status : Env → Ssl → HandState
after_cert_status e s = if send_server_key_exchange s then sw_key_exch else after_key_exch e s

unfoldable pub after_cert : Env → Ssl → HandState
after_cert e s = if s.status_expected then sw_cert_status else after_cert_status e s

-- After a ServerHello, where the server presents no certificate.
unfoldable pub after_no_cert : Env → Ssl → HandState
after_no_cert e s =
    if send_server_key_exchange s
    then sw_key_exch
    else if send_certificate_request e.consts s
    then sw_cert_req
    else sw_srvr_done

unfoldable pub after_srvr_hello : Env → Ssl → HandState
after_srvr_hello e s =
    if s.hit
    then if s.ticket_expected then sw_session_ticket else sw_change
    else if not (no_cert_auth s.new_cipher)
    then sw_cert
    else after_no_cert e s

unfoldable pub server_write_from : Env → HandState → Ssl → Ssl × WriteTran
server_write_from e ok s = write_ok e s
server_write_from e before s = (s, tran_finished)
server_write_from e sw_hello_req s = (goto ok s, tran_continue)
server_write_from e sr_clnt_hello s = (write_clnt_hello s, tran_continue)
server_write_from e sw_hello_verify_request s = (s, tran_finished)
server_write_from e sw_srvr_hello s = (goto (after_srvr_hello e s) s, tran_continue)
server_write_from e sw_cert s = (goto (after_cert e s) s, tran_continue)
server_write_from e sw_cert_status s = (goto (after_cert_status e s) s, tran_continue)
server_write_from e sw_key_exch s = (goto (after_key_exch e s) s, tran_continue)
server_write_from e sw_cert_req s = (goto sw_srvr_done s, tran_continue)
server_write_from e sw_srvr_done s = (s, tran_finished)
server_write_from e sr_finished s = (
  goto (if s.hit then ok else if s.ticket_expected then sw_session_ticket else sw_change) s,
  tran_continue,
)
server_write_from e sw_session_ticket s = (goto sw_change s, tran_continue)
server_write_from e sw_change s = (goto sw_finished s, tran_continue)
server_write_from e sw_finished s = if s.hit then (s, tran_finished) else (goto ok s, tran_continue)
server_write_from e _ s = (fatal internal_error s, tran_error)

-- `ossl_statem_server_write_transition`
unfoldable pub server_write_transition : Env → Ssl → Ssl × WriteTran
server_write_transition e s =
    if is_tls13 e.consts s
    then server13_write_transition e s
    else server_write_from e s.statem.hand_state s
