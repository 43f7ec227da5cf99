-- ===== src/Statem/Server/Sends.antt =====
-- After each move to write, the server has a message to send, or ends the handshake.
use openssl_3_0_bee2evp.Prelude.{◌≡◌, ◌≢◌, ◌⊎◌, refl, none, true, if-eq, arith}
use openssl_3_0_bee2evp.Ssl.{
  HandState, before, sw_hello_req, sw_hello_verify_request, sw_cert_req, sw_srvr_done, sr_finished,
  sw_session_ticket, sw_change, sw_finished, ok, sw_srvr_hello, sw_cert, sw_cert_status,
  sw_key_exch, sr_clnt_hello, tran_continue, tran_finished, tran_error, work_finished_continue, Env,
  Ssl, is_tls13,
}
use openssl_3_0_bee2evp.Statem.Work.{Calls}
use openssl_3_0_bee2evp.Statem.Work.Finish.{finish_handshake_stops}
use openssl_3_0_bee2evp.Statem.Work.Server.{server_pre_work_of, server_pre_work}
use openssl_3_0_bee2evp.Statem.Server.Write.{
  is_sw_hello_req, server13_write_ok, ticket_or_ok, server13_write_sr_finished,
  server13_write_session_ticket, server13_write_from, server13_write_transition, write_ok,
  write_clnt_hello, after_key_exch, after_cert_status, after_cert, after_no_cert, after_srvr_hello,
  server_write_from, server_write_transition,
}
use openssl_3_0_bee2evp.Statem.Server.Messages.{server_message_of}

-- There is a message for the state, or it is the state at the end of a handshake.
abbrev HasWork : Ssl → HandState → Type 0
HasWork s h = (server_message_of h s ≢ none) ⊎ (h ≡ ok)

module _ (e : Env) (s s' : Ssl) where
  server13_write_from-HasWork :
      (h : HandState)
      → s.statem.hand_state ≡ h
      → server13_write_from e h s ≡ (s', tran_continue)
      → HasWork s' s'.statem.hand_state
  unfolding server13_write_from server13_write_ok ticket_or_ok server13_write_sr_finished
      server13_write_session_ticket server_message_of
  server13_write_from-HasWork h at w = ground arith

  after_srvr_hello-HasWork : HasWork s' (after_srvr_hello e s)
  unfolding after_srvr_hello after_no_cert server_message_of
  after_srvr_hello-HasWork = ground arith

  after_cert-HasWork :
      HasWork s' (after_cert e s)
      × HasWork s' (after_cert_status e s)
      × HasWork s' (after_key_exch e s)
  unfolding after_cert after_cert_status after_key_exch server_message_of
  after_cert-HasWork = ground arith

  write_ok-HasWork : write_ok e s ≡ (s', tran_continue) → HasWork s' s'.statem.hand_state
  unfolding write_ok server_message_of
  write_ok-HasWork =
      if-eq (is_sw_hello_req s.statem.request_state) (λ b w. ground arith)
        λ b.
          if-eq (e.setup_handshake s).1
            (λ b2 (w : ((e.setup_handshake s).0, tran_finished) ≡ (s', tran_continue)). cc)
            (λ b2 (w : ((e.setup_handshake s).0, tran_error) ≡ (s', tran_continue)). cc)

  write_clnt_hello-HasWork : HasWork s' (write_clnt_hello s).statem.hand_state
  unfolding write_clnt_hello server_message_of
  write_clnt_hello-HasWork = ground arith

  server_write_from-HasWork :
      (h : HandState)
      → server_write_from e h s ≡ (s', tran_continue)
      → HasWork s' s'.statem.hand_state
  unfolding server_write_from server_message_of
  server_write_from-HasWork sw_srvr_hello w = ground (arith, w, after_srvr_hello-HasWork)
  server_write_from-HasWork sw_cert w = ground (arith, w, after_cert-HasWork)
  server_write_from-HasWork sw_cert_status w = ground (arith, w, after_cert-HasWork)
  server_write_from-HasWork sw_key_exch w = ground (arith, w, after_cert-HasWork)
  server_write_from-HasWork ok w = write_ok-HasWork w
  server_write_from-HasWork sr_clnt_hello w = ground (arith, w, write_clnt_hello-HasWork)
  server_write_from-HasWork before w = ground arith
  server_write_from-HasWork sw_hello_req w = ground arith
  server_write_from-HasWork sw_hello_verify_request w = ground arith
  server_write_from-HasWork sw_cert_req w = ground arith
  server_write_from-HasWork sw_srvr_done w = ground arith
  server_write_from-HasWork sr_finished w = ground arith
  server_write_from-HasWork sw_session_ticket w = ground arith
  server_write_from-HasWork sw_change w = ground arith
  server_write_from-HasWork sw_finished w = ground arith
  server_write_from-HasWork _ w = cc

server_write_transition-HasWork :
    (e : Env) (s s' : Ssl)
    → server_write_transition e s ≡ (s', tran_continue)
    → HasWork s' s'.statem.hand_state
unfolding server_write_transition server13_write_transition
server_write_transition-HasWork e s s' =
    if-eq (is_tls13 e.consts s) (λ new. server13_write_from-HasWork e s s' s.statem.hand_state refl)
      (λ old. server_write_from-HasWork e s s' s.statem.hand_state)

-- The handshake goes no further in the state without a message.
server_pre_work_stops :
    (e : Env) (c : Calls) (s : Ssl)
    → (server_pre_work e.consts c s).1 ≡ work_finished_continue
    → s.statem.hand_state ≢ ok
unfolding server_pre_work server_pre_work_of
server_pre_work_stops e c s p at = finish_handshake_stops e.consts c true s (simp at at p)

-- Whenever the server moves to a state in order to write, and the work before the message does not
-- end the handshake or fail, there is a message for the state, so that the fatal error for a state
-- without one is not reached.
server_write_transition_sends :
    (e : Env) (c : Calls) (s s' : Ssl)
    → server_write_transition e s ≡ (s', tran_continue)
    → (server_pre_work e.consts c s').1 ≡ work_finished_continue
    → server_message_of s'.statem.hand_state s' ≢ none
server_write_transition_sends e c s s' w p =
    ground (arith, server_write_transition-HasWork e s s' w, server_pre_work_stops e c s' p)
