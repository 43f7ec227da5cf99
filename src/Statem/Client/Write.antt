-- ===== src/Statem/Client/Write.antt =====
-- The client's write transitions (ssl/statem/statem_clnt.c): the state to move to before the next
-- message is written.
use openssl_3_0_bee2evp.Prelude.{true, not, ◌&&◌, ◌||◌, ◌==◌, if◌then◌else◌}
use openssl_3_0_bee2evp.Ssl.{
  HandState, before, ok, cr_hello_verify_request, cr_srvr_hello, cr_cert_req, cr_srvr_done,
  cr_session_ticket, cr_finished, cr_hello_req, cr_key_update, cw_clnt_hello, cw_cert, cw_key_exch,
  cw_cert_vrfy, cw_change, cw_next_proto, cw_finished, cw_key_update, cw_end_of_early_data,
  early_data, pending_early_data_end, WriteTran, tran_error, tran_continue, tran_finished,
  internal_error, Env, Ssl, goto, is_tls13, is_pha_requested, is_hrr_pending, is_hrr_none,
  is_accepted, is_connecting, is_write_retry, is_finished_writing,
}
use openssl_3_0_bee2evp.Statem.{fatal, renegotiate_check}

-- Certificate if one was requested, else Finished.
unfoldable pub cert_or_finished : Ssl → HandState
cert_or_finished s = if not (s.cert_req == 0) then cw_cert else cw_finished

unfoldable pub client13_write_from : HandState → Ssl → Ssl × WriteTran
client13_write_from cr_cert_req s =
    if is_pha_requested s.post_handshake_auth
    then (goto cw_cert s, tran_continue)
    else if not s.sent_shutdown
    then (fatal internal_error s, tran_error)
    else (goto ok s, tran_continue)
client13_write_from cr_finished s = (
  goto
      (if is_write_retry s.early_data_state || is_finished_writing s.early_data_state
        then pending_early_data_end
        else if s.middlebox_compat && is_hrr_none s.hello_retry_request
        then cw_change
        else cert_or_finished s)
      s,
  tran_continue,
)
client13_write_from pending_early_data_end s =
    if is_accepted s.ext_early_data
    then (goto cw_end_of_early_data s, tran_continue)
    else (goto (cert_or_finished s) s, tran_continue)
client13_write_from cw_end_of_early_data s = (goto (cert_or_finished s) s, tran_continue)
client13_write_from cw_change s = (goto (cert_or_finished s) s, tran_continue)
client13_write_from cw_cert s =
    (goto (if s.cert_req == 1 then cw_cert_vrfy else cw_finished) s, tran_continue)
client13_write_from cw_cert_vrfy s = (goto cw_finished s, tran_continue)
client13_write_from cr_key_update s = (goto ok s, tran_continue)
client13_write_from cw_key_update s = (goto ok s, tran_continue)
client13_write_from cr_session_ticket s = (goto ok s, tran_continue)
client13_write_from cw_finished s = (goto ok s, tran_continue)
client13_write_from ok s =
    if s.key_update_pending then (goto cw_key_update s, tran_continue) else (s, tran_finished)
client13_write_from _ s = (fatal internal_error s, tran_error)

-- `ossl_statem_client13_write_transition`
unfoldable pub client13_write_transition : Ssl → Ssl × WriteTran
unfolding client13_write_from
client13_write_transition s = client13_write_from s.statem.hand_state s

-- A HelloRequest: renegotiate now, or at a more convenient time.
unfoldable pub write_hello_req : Env → Ssl → Ssl × WriteTran
write_hello_req e s =
    let (s', now) = renegotiate_check s true in
    if now
    then (let (s'', done) = e.setup_handshake s' in
        if done then (goto cw_clnt_hello s'', tran_continue) else (s'', tran_error))
    else (goto ok s', tran_continue)

unfoldable pub write_change : Ssl → HandState
write_change s =
    if is_hrr_pending s.hello_retry_request
    then cw_clnt_hello
    else if is_connecting s.early_data_state
    then early_data
    else if not s.is_dtls && s.npn_seen
    then cw_next_proto
    else cw_finished

unfoldable pub client_write_from : Env → HandState → Ssl → Ssl × WriteTran
client_write_from e ok s =
    if s.renegotiate then (goto cw_clnt_hello s, tran_continue) else (s, tran_finished)
client_write_from e before s = (goto cw_clnt_hello s, tran_continue)
client_write_from e cw_clnt_hello s =
    if is_connecting s.early_data_state
    then (goto (if s.middlebox_compat then cw_change else early_data) s, tran_continue)
    else (s, tran_finished)
client_write_from e cr_srvr_hello s = (
  goto
      (if s.middlebox_compat && not (is_finished_writing s.early_data_state)
        then cw_change
        else cw_clnt_hello)
      s,
  tran_continue,
)
client_write_from e early_data s = (s, tran_finished)
client_write_from e cr_hello_verify_request s = (goto cw_clnt_hello s, tran_continue)
client_write_from e cr_srvr_done s =
    (goto (if not (s.cert_req == 0) then cw_cert else cw_key_exch) s, tran_continue)
client_write_from e cw_cert s = (goto cw_key_exch s, tran_continue)
client_write_from e cw_key_exch s = (
  goto
      (if s.skip_cert_verify
        then cw_change
        else if s.cert_req == 1
        then cw_cert_vrfy
        else cw_change)
      s,
  tran_continue,
)
client_write_from e cw_cert_vrfy s = (goto cw_change s, tran_continue)
client_write_from e cw_change s = (goto (write_change s) s, tran_continue)
client_write_from e cw_next_proto s = (goto cw_finished s, tran_continue)
client_write_from e cw_finished s = if s.hit then (goto ok s, tran_continue) else (s, tran_finished)
client_write_from e cr_finished s = (goto (if s.hit then cw_change else ok) s, tran_continue)
client_write_from e cr_hello_req s = write_hello_req e s
client_write_from e _ s = (fatal internal_error s, tran_error)

-- `ossl_statem_client_write_transition`
unfoldable pub client_write_transition : Env → Ssl → Ssl × WriteTran
client_write_transition e s =
    if is_tls13 e.consts s
    then client13_write_transition s
    else client_write_from e s.statem.hand_state s
