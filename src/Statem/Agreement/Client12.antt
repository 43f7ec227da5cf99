-- ===== src/Statem/Agreement/Client12.antt =====
-- Below TLSv1.3 the server accepts each message that the client writes after the server's flight.
use openssl_3_0_bee2evp.Prelude.{◌≡◌, refl, ap, false, not, ◌&&◌, ◌==◌, some, arith}
use openssl_3_0_bee2evp.Ssl.{
  HandState, before, cr_srvr_done, cr_finished, cw_cert, cw_key_exch, cw_cert_vrfy, cw_change,
  cw_next_proto, cw_finished, sw_srvr_done, sw_finished, sr_cert, sr_key_exch, sr_cert_vrfy,
  sr_change, sr_next_proto, sr_finished, MsgType, tran_continue, Env, Ssl, is_tls13, is_hrr_pending,
  is_connecting,
}
use openssl_3_0_bee2evp.Statem.{finish_read}
use openssl_3_0_bee2evp.Statem.Client.Write.{
  write_change, client_write_from, client_write_transition,
}
use openssl_3_0_bee2evp.Statem.Client.Messages.{
  ClientConstruct, client_message_of, client_construct_message,
}
use openssl_3_0_bee2evp.Statem.Server.Read.{
  Move, moved, no_move, refused, finish_move, read_srvr_done, server_read_key_exch,
  server_read_change, server_read_from, server_read_transition,
}
use openssl_3_0_bee2evp.Statem.Agreement.{Accepts, client_write-old, client_construct-message_of}

-- The server's state that goes with the client's, while the client writes.
abbrev pub mirror : HandState → HandState
mirror cr_srvr_done = sw_srvr_done
mirror cr_finished = sw_finished
mirror cw_cert = sr_cert
mirror cw_key_exch = sr_key_exch
mirror cw_cert_vrfy = sr_cert_vrfy
mirror cw_change = sr_change
mirror cw_next_proto = sr_next_proto
mirror cw_finished = sr_finished
mirror _ = before

-- The state is one in which the client writes a flight.
abbrev pub InFlight : HandState → Type 0
InFlight cr_srvr_done = Unit
InFlight cr_finished = Unit
InFlight cw_cert = Unit
InFlight cw_key_exch = Unit
InFlight cw_cert_vrfy = Unit
InFlight cw_change = Unit
InFlight cw_next_proto = Unit
InFlight _ = ⊥

-- What the two sides agree on: the client answers a request for a certificate if and only if there
-- was one, after its key exchange it signs the handshake if and only if the server has a certificate to check that with, and
-- both negotiated the next protocol extension or neither did. There is no early data and no
-- HelloRetryRequest.
pub record Agreed (e : Env) (c s : Ssl) : Type 0 where
  pub client_old : is_tls13 e.consts c ≡ false
  pub server_old : is_tls13 e.consts s ≡ false
  pub requested : s.cert_request ≡ not (c.cert_req == 0)
  pub signs :
      c.statem.hand_state ≡ cw_key_exch
      → (not c.skip_cert_verify && c.cert_req == 1)
        ≡ (s.session_peer && not s.statem.no_cert_verify)
  pub same_npn : s.npn_seen ≡ (not c.is_dtls && c.npn_seen)
  pub no_retry : is_hrr_pending c.hello_retry_request ≡ false
  pub no_early : is_connecting c.early_data_state ≡ false

-- The move is valid and leads to the given state.
abbrev MovesTo : HandState → Move → Type 0
MovesTo h (moved s) = s.statem.hand_state ≡ h
MovesTo h _ = ⊥

finish_move-Accepts :
    (h : HandState) (mt : MsgType) (s : Ssl) (m : Move)
    → MovesTo h m
    → Accepts h (finish_move mt s m)
unfolding finish_move finish_read
finish_move-Accepts h mt s (moved s') p = (refl, p)
finish_move-Accepts h mt s no_move p = elim p [ ]
finish_move-Accepts h mt s (refused s') p = elim p [ ]

module _ (e : Env) (c s c' : Ssl) (f : ClientConstruct) (mt : MsgType) (a : Agreed e c s) where
  deliver :
      (h : HandState)
      → InFlight h
      → c.statem.hand_state ≡ h
      → (client_write_from e h c).1 ≡ tran_continue
      → client_message_of (client_write_from e h c).0.statem.hand_state c' ≡ some (f, mt)
      → MovesTo
          (mirror (client_write_from e h c).0.statem.hand_state)
          (server_read_from e (mirror h) mt s)
  unfolding client_write_from write_change client_message_of server_read_from read_srvr_done
      server_read_key_exch server_read_change
  deliver cr_srvr_done i q w m = ground (arith, a.requested)
  deliver cr_finished i q w m = ground arith
  deliver cw_cert i q w m = ground arith
  deliver cw_key_exch i q w m = ground (arith, a.signs q)
  deliver cw_cert_vrfy i q w m = ground arith
  deliver cw_change i q w m = ground (arith, a.same_npn, a.no_retry, a.no_early)
  deliver cw_next_proto i q w m = ground arith
  deliver _ i q w m = absurd i

-- Below TLSv1.3, if the server waits in the state that goes with the client's, then it accepts the
-- next message that the client writes in its last flight, and comes to the state that goes with the
-- client's new one. The two have agreed on the request for a certificate, on whether the client
-- signs the handshake and on the next protocol extension; there is no early data and no
-- HelloRetryRequest.
pub client12_accepted :
    (e : Env) (c s c' c'' : Ssl) (f : ClientConstruct) (mt : MsgType)
    → Agreed e c s
    → InFlight c.statem.hand_state
    → s.statem.hand_state ≡ mirror c.statem.hand_state
    → client_write_transition e c ≡ (c', tran_continue)
    → client_construct_message c' ≡ (c'', some (f, mt))
    → Accepts (mirror c'.statem.hand_state) (server_read_transition e s mt)
unfolding server_read_transition
client12_accepted e c s c' c'' f mt a i at w m =
    let w' = client_write-old e c c' tran_continue (a.client_old) w in
    let sent = client_construct-message_of c' c'' f mt m in
    let to = deliver e c s c' f mt a c.statem.hand_state i refl (ap (λ p. p.1) w') (rw w' sent) in
    simp (a.server_old, at) (finish_move-Accepts (mirror c'.statem.hand_state) mt s _ (rw w' at to))
