-- ===== src/Statem/Server/Length.antt =====
-- How long the server writes below TLSv1.3 (ssl/statem/statem_srvr.c, and the loop of
-- `write_state_machine` in ssl/statem/statem.c).
use openssl_3_0_bee2evp.Prelude.{
  ℕ, zero, suc, ◌+◌, ◌≤◌, ◌<◌, ◌≡◌, ◌∙◌, refl, false, arith, if◌then◌else◌, if-eq,
}
use openssl_3_0_bee2evp.Ssl.{
  HandState, before, ok, sw_hello_req, sw_hello_verify_request, sw_srvr_hello, sw_cert,
  sw_cert_status, sw_key_exch, sw_cert_req, sw_srvr_done, sw_session_ticket, sw_change, sw_finished,
  sr_clnt_hello, sr_finished, tran_continue, tran_finished, tran_error, Env, Ssl, is_tls13,
}
use openssl_3_0_bee2evp.Statem.Agreement.{write-old}
use openssl_3_0_bee2evp.Statem.Server.Write.{
  is_sw_hello_req, write_ok, write_clnt_hello, after_key_exch, after_cert_status, after_cert,
  after_no_cert, after_srvr_hello, server_write_from, server_write_transition,
}

-- How many messages can follow in each state, but for a HelloRequest.
abbrev height : HandState → ℕ
height sr_clnt_hello = 6
height sw_srvr_hello = 5
height sw_cert = 4
height sw_cert_status = 3
height sw_key_exch = 2
height sw_cert_req = 1
height sr_finished = 4
height sw_session_ticket = 3
height sw_change = 2
height sw_finished = 1
height sw_hello_req = 1
height _ = 0

-- The same with the HelloRequest that the application has asked for.
abbrev rank : Ssl → ℕ
rank s = height s.statem.hand_state + (if is_sw_hello_req s.statem.request_state then 2 else 0)

module _ (e : Env) where
  -- What sending a message leaves alone.
  pub record KeepsWriting (s t : Ssl) : Type 0 where
    pub same_state : t.statem.hand_state ≡ s.statem.hand_state
    pub same_request : t.statem.request_state ≡ s.statem.request_state
    pub same_version : is_tls13 e.consts t ≡ is_tls13 e.consts s

  -- So many moves to write, each followed by the sending of a message.
  pub data Continues : Ssl → ℕ → Ssl → Type 0 where
    done : {s : Ssl} → Continues s zero s
    write :
        {s s' u t : Ssl} {n : ℕ}
        → server_write_transition e s ≡ (s', tran_continue)
        → KeepsWriting s' u
        → Continues u n t
        → Continues s (suc n) t

  after_srvr_hello-height : (s : Ssl) → height (after_srvr_hello e s) < 5
  unfolding after_srvr_hello after_no_cert
  after_srvr_hello-height s = ground arith

  after_cert-height :
      (s : Ssl)
      → (height (after_cert e s) < 4)
        × (height (after_cert_status e s) < 3)
        × (height (after_key_exch e s) < 2)
  unfolding after_cert after_cert_status after_key_exch
  after_cert-height s = ground arith

  write_ok-rank :
      (s s' : Ssl)
      → s.statem.hand_state ≡ ok
      → write_ok e s ≡ (s', tran_continue)
      → rank s' < rank s
  unfolding write_ok
  write_ok-rank s s' at =
      if-eq (is_sw_hello_req s.statem.request_state) (λ b w. ground (arith, b, w, at))
        λ b.
          if-eq (e.setup_handshake s).1
            (λ b2 (w : ((e.setup_handshake s).0, tran_finished) ≡ (s', tran_continue)). cc)
            (λ b2 (w : ((e.setup_handshake s).0, tran_error) ≡ (s', tran_continue)). cc)

  write_clnt_hello-rank :
      (s : Ssl) → s.statem.hand_state ≡ sr_clnt_hello → rank (write_clnt_hello s) < rank s
  unfolding write_clnt_hello
  write_clnt_hello-rank s at = ground arith

  server_write_from-rank :
      (s s' : Ssl) (h : HandState)
      → s.statem.hand_state ≡ h
      → server_write_from e h s ≡ (s', tran_continue)
      → rank s' < rank s
  unfolding server_write_from
  server_write_from-rank s s' ok at w = write_ok-rank s s' at w
  server_write_from-rank s s' before at w = cc
  server_write_from-rank s s' sw_hello_req at w = ground arith
  server_write_from-rank s s' sr_clnt_hello at w = ground (arith, w, write_clnt_hello-rank s at)
  server_write_from-rank s s' sw_hello_verify_request at w = cc
  server_write_from-rank s s' sw_srvr_hello at w = ground (arith, w, after_srvr_hello-height s)
  server_write_from-rank s s' sw_cert at w = ground (arith, w, after_cert-height s)
  server_write_from-rank s s' sw_cert_status at w = ground (arith, w, after_cert-height s)
  server_write_from-rank s s' sw_key_exch at w = ground (arith, w, after_cert-height s)
  server_write_from-rank s s' sw_cert_req at w = ground arith
  server_write_from-rank s s' sw_srvr_done at w = cc
  server_write_from-rank s s' sr_finished at w = ground arith
  server_write_from-rank s s' sw_session_ticket at w = ground arith
  server_write_from-rank s s' sw_change at w = ground arith
  server_write_from-rank s s' sw_finished at w = ground arith
  server_write_from-rank s s' _ at w = cc

  write_ok-version :
      (s s' : Ssl) → write_ok e s ≡ (s', tran_continue) → is_tls13 e.consts s' ≡ is_tls13 e.consts s
  unfolding write_ok
  write_ok-version s s' =
      if-eq (is_sw_hello_req s.statem.request_state) (λ b w. ground (arith, w))
        λ b.
          if-eq (e.setup_handshake s).1
            (λ b2 (w : ((e.setup_handshake s).0, tran_finished) ≡ (s', tran_continue)). cc)
            (λ b2 (w : ((e.setup_handshake s).0, tran_error) ≡ (s', tran_continue)). cc)

  -- A move to write does not change the version.
  server_write_from-version :
      (s s' : Ssl) (h : HandState)
      → server_write_from e h s ≡ (s', tran_continue)
      → is_tls13 e.consts s' ≡ is_tls13 e.consts s
  unfolding server_write_from write_clnt_hello
  server_write_from-version s s' ok w = write_ok-version s s' w
  server_write_from-version s s' before w = cc
  server_write_from-version s s' sw_hello_req w = ground (arith, w)
  server_write_from-version s s' sr_clnt_hello w = ground (arith, w)
  server_write_from-version s s' sw_finished w = ground (arith, w)
  server_write_from-version s s' h w = ground (arith, w)

  Continues-rank : (s t : Ssl) (n : ℕ) → is_tls13 e.consts s ≡ false → Continues s n t → n ≤ rank s
  Continues-rank s t n old done = omega arith
  Continues-rank s t n old (write {s' = s'} {u = u} {n = m} w k rest) =
      let w' = write-old e s s' tran_continue old w in
      let v = server_write_from-version s s' s.statem.hand_state w' in
      ground (
        arith,
        server_write_from-rank s s' s.statem.hand_state refl w',
        k.same_state,
        k.same_request,
        Continues-rank u t m (k.same_version ∙ v ∙ old) rest,
      )

  rank-le : (s : Ssl) → rank s ≤ 8
  rank-le s = ground arith

  -- A server below TLSv1.3 that goes on writing, from whatever state, sends at most eight messages
  -- before it stops to read or ends the handshake. Sending a message is assumed to keep the state,
  -- the request of the application and the version.
  pub server12_write_bounded :
      (s t : Ssl) (n : ℕ) → is_tls13 e.consts s ≡ false → Continues s n t → n ≤ 8
  server12_write_bounded s t n old w = omega (arith, Continues-rank s t n old w, rank-le s)
