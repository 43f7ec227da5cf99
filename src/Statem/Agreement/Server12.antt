-- ===== src/Statem/Agreement/Server12.antt =====
-- Below TLSv1.3 the client accepts each message that the server writes.
use openssl_3_0_bee2evp.Prelude.{
  ◌≡◌, ap, true, false, some, inl, inr, Bool-cases, if◌then◌else◌, arith,
}
use openssl_3_0_bee2evp.Ssl.{
  HandState, MsgType, ◌is◌, server_key_exchange, certificate_status, hello_verify_request,
  change_cipher_spec, no_cert_auth, tran_continue, Env, Ssl, is_tls13, sw_srvr_hello, sw_cert,
  sw_cert_status, sw_key_exch, sw_cert_req, sw_srvr_done, sr_finished, sw_session_ticket, sw_change,
  sw_finished, ok, cr_srvr_done, cr_session_ticket, cr_change, cr_finished,
}
use openssl_3_0_bee2evp.Statem.Client.{key_exchange_expected}
use openssl_3_0_bee2evp.Statem.Client.Read.{
  read_cert_req, read_key_exch, read_no_cert, read_cert_status, read_cert, read_srvr_hello,
  read_srvr_hello_full, read_cw_finished, client_read_from, client_read_transition,
}
use openssl_3_0_bee2evp.Statem.Server.{send_server_key_exchange}
use openssl_3_0_bee2evp.Statem.Server.Write.{
  after_key_exch, after_cert_status, after_cert, after_no_cert, after_srvr_hello, server_write_from,
  server_write_transition,
}
use openssl_3_0_bee2evp.Statem.Server.Messages.{
  ServerConstruct, server_message_of, server_construct_message,
}
use openssl_3_0_bee2evp.Statem.Agreement.{
  MovesTo, Accepts, finish_read-Accepts, write-old, construct-message_of, mirror12, send-accepted,
  expected-sent, request-allowed,
}

-- The state is one in which the server writes a flight.
abbrev pub InFlight : HandState → Type 0
InFlight sw_srvr_hello = Unit
InFlight sw_cert = Unit
InFlight sw_cert_status = Unit
InFlight sw_key_exch = Unit
InFlight sw_cert_req = Unit
InFlight sr_finished = Unit
InFlight sw_session_ticket = Unit
InFlight sw_change = Unit
InFlight _ = ⊥

-- What the two sides have agreed on by the ServerHello. The last two fields are conditions on the
-- server: with the key exchange DHT-PSK it has an identity hint, and in an anonymous cipher suite it
-- does not insist on a client certificate.
pub record Agreed (e : Env) (s c : Ssl) : Type 0 where
  pub server_old : is_tls13 e.consts s ≡ false
  pub client_old : is_tls13 e.consts c ≡ false
  pub same_hit : c.hit ≡ s.hit
  pub same_cipher : c.new_cipher ≡ s.new_cipher
  pub same_ticket : c.ticket_expected ≡ s.ticket_expected
  pub status : s.status_expected ≡ true → c.status_expected ≡ true
  pub hint : s.new_cipher.k_bdhtpsk ≡ true → s.psk_identity_hint ≡ true
  pub anon : s.new_cipher.a_null ≡ true → s.verify_fail_if_no_peer_cert ≡ false

module _ (e : Env) (s c s' : Ssl) (f : ServerConstruct) (mt : MsgType) (a : Agreed e s c) where
  -- The messages of the four cases that fall through.
  after_key_exch-MovesTo :
      server_message_of (after_key_exch e s) s' ≡ some (f, mt)
      → MovesTo (mirror12 (after_key_exch e s)) (read_key_exch e mt c)
  unfolding after_key_exch server_message_of read_key_exch read_cert_req
  after_key_exch-MovesTo m = ground (arith, request-allowed s c (a.same_cipher) e.consts (a.anon))

  -- Without a ServerKeyExchange to send, the client expects none.
  not_expected : send_server_key_exchange s ≡ false → key_exchange_expected c ≡ false
  not_expected none_sent = elim (Bool-cases (key_exchange_expected c)) [
    | inl wants ↦ absurd (true≢none (expected-sent s c (a.same_cipher) (a.hint) wants))
    | inr quiet ↦ quiet
  ]
    where
      true≢none : send_server_key_exchange s ≡ true → ⊥
      true≢none sent = cc

  -- Neither of the messages after a ServerKeyExchange is one.
  after_key_exch_not_ske :
      server_message_of (after_key_exch e s) s' ≡ some (f, mt) → (mt is server_key_exchange) ≡ false
  unfolding after_key_exch server_message_of
  after_key_exch_not_ske m = ground arith

  after_cert_status-MovesTo :
      server_message_of (after_cert_status e s) s' ≡ some (f, mt)
      → MovesTo (mirror12 (after_cert_status e s)) (read_cert_status e mt c)
  unfolding after_cert_status server_message_of read_cert_status
  after_cert_status-MovesTo = elim (Bool-cases (send_server_key_exchange s)) [
    | inl sent ↦ rw sent (λ m. ground (arith, send-accepted s c (a.same_cipher) sent))
    | inr quiet ↦ rw quiet (λ m.
        rw (not_expected quiet, after_key_exch_not_ske m)
          (ground (arith, after_key_exch-MovesTo m)))
  ]

  -- Nor is any message after a CertificateStatus one.
  after_cert_status_not_status :
      server_message_of (after_cert_status e s) s' ≡ some (f, mt)
      → (mt is certificate_status) ≡ false
  unfolding after_cert_status after_key_exch server_message_of
  after_cert_status_not_status m = ground arith

  after_cert-MovesTo :
      server_message_of (after_cert e s) s' ≡ some (f, mt)
      → MovesTo (mirror12 (after_cert e s)) (read_cert e mt c)
  unfolding after_cert read_cert server_message_of
  after_cert-MovesTo = elim (Bool-cases s.status_expected) [
    | inl stapled ↦ rw stapled (λ m. ground (arith, a.status stapled))
    | inr plain ↦
        simp plain
          (λ m. ground (arith, after_cert_status_not_status m, after_cert_status-MovesTo m))
  ]

  -- After a ServerHello, where the server presents no certificate.
  no_cert-MovesTo :
      server_message_of (after_no_cert e s) s' ≡ some (f, mt)
      → MovesTo (mirror12 (after_no_cert e s)) (read_no_cert e mt c)
  unfolding after_no_cert read_no_cert server_message_of
  no_cert-MovesTo = elim (Bool-cases (send_server_key_exchange s)) [
    | inl sent ↦ rw sent (λ m. ground (arith, send-accepted s c (a.same_cipher) sent))
    | inr quiet ↦
        rw (quiet, not_expected quiet)
          (λ m. ground (arith, request-allowed s c (a.same_cipher) e.consts (a.anon)))
  ]

  -- Its message is neither a HelloVerifyRequest nor a change of cipher specification.
  no_cert_plain :
      server_message_of (after_no_cert e s) s' ≡ some (f, mt)
      → ((mt is hello_verify_request) ≡ false) × ((mt is change_cipher_spec) ≡ false)
  unfolding after_no_cert server_message_of
  no_cert_plain m = ground arith

  srvr_hello-MovesTo :
      server_message_of (after_srvr_hello e s) s' ≡ some (f, mt)
      → MovesTo (mirror12 (after_srvr_hello e s)) (read_srvr_hello e mt c)
  unfolding after_srvr_hello read_srvr_hello read_srvr_hello_full server_message_of
  srvr_hello-MovesTo = elim (Bool-cases s.hit) [
    | inl resumed ↦ simp (a.same_hit, resumed) (λ m. ground (arith, a.same_ticket))
    | inr full ↦ elim (Bool-cases (no_cert_auth s.new_cipher)) [
      | inr cert ↦ simp (a.same_hit, full, a.same_cipher, cert) (λ m. ground arith)
      | inl anon ↦
          simp (a.same_hit, full, a.same_cipher, anon)
            (λ m. ground (arith, no_cert_plain m, no_cert-MovesTo m))
    ]
  ]

  sw_cert_req-MovesTo :
      server_message_of sw_srvr_done s' ≡ some (f, mt) → MovesTo cr_srvr_done (read_cert_req mt c)
  unfolding server_message_of read_cert_req
  sw_cert_req-MovesTo m = ground arith

  sr_finished-MovesTo :
      let h = if s.hit then ok else if s.ticket_expected then sw_session_ticket else sw_change in
      server_message_of h s' ≡ some (f, mt) → MovesTo (mirror12 h) (read_cw_finished mt c)
  unfolding server_message_of read_cw_finished
  sr_finished-MovesTo m = ground (arith, a.same_ticket)

  ccs-MovesTo :
      server_message_of sw_change s' ≡ some (f, mt)
      → MovesTo cr_change (client_read_from e cr_session_ticket mt c)
  unfolding server_message_of client_read_from
  ccs-MovesTo m = ground arith

  finished-MovesTo :
      server_message_of sw_finished s' ≡ some (f, mt)
      → MovesTo cr_finished (client_read_from e cr_change mt c)
  unfolding server_message_of client_read_from
  finished-MovesTo m = ground arith

  -- Each state of a flight, by the move that the server makes from it.
  deliver :
      (h : HandState)
      → InFlight h
      → (server_write_from e h s).1 ≡ tran_continue
      → server_message_of (server_write_from e h s).0.statem.hand_state s' ≡ some (f, mt)
      → MovesTo
          (mirror12 (server_write_from e h s).0.statem.hand_state)
          (client_read_from e (mirror12 h) mt c)
  unfolding server_write_from client_read_from
  deliver sw_srvr_hello i w m = srvr_hello-MovesTo m
  deliver sw_cert i w m = after_cert-MovesTo m
  deliver sw_cert_status i w m = after_cert_status-MovesTo m
  deliver sw_key_exch i w m = after_key_exch-MovesTo m
  deliver sw_cert_req i w m = sw_cert_req-MovesTo m
  deliver sr_finished i w m = sr_finished-MovesTo m
  deliver sw_session_ticket i w m = ccs-MovesTo m
  deliver sw_change i w m = finished-MovesTo m
  deliver _ i w m = absurd i

-- Below TLSv1.3, if the client waits in the state that goes with the server's, then it accepts the
-- next message that the server writes, and comes to the state that goes with the server's new one.
-- The conditions: the server's state is one in which it writes a flight, and both sides are below
-- TLSv1.3; they have the same cipher suite and agree on whether a session is resumed and on whether a
-- ticket is expected; the client expects a certificate status if the server staples one; in the key
-- exchange DHT-PSK the server has an identity hint; and in an anonymous cipher suite the server does
-- not insist on a client certificate.
pub server12_accepted :
    (e : Env) (s c s' s'' : Ssl) (f : ServerConstruct) (mt : MsgType)
    → Agreed e s c
    → InFlight s.statem.hand_state
    → c.statem.hand_state ≡ mirror12 s.statem.hand_state
    → server_write_transition e s ≡ (s', tran_continue)
    → server_construct_message s' ≡ (s'', some (f, mt))
    → Accepts (mirror12 s'.statem.hand_state) (client_read_transition e c mt)
unfolding client_read_transition
server12_accepted e s c s' s'' f mt a i at w m =
    let w' = write-old e s s' tran_continue (a.server_old) w in
    let sent = construct-message_of s' s'' f mt m in
    let to = deliver e s c s' f mt a s.statem.hand_state i (ap (λ p. p.1) w') (rw w' sent) in
    simp (a.client_old, at)
      (finish_read-Accepts (mirror12 s'.statem.hand_state) mt c _ (rw w' at to))
