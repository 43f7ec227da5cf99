-- ===== src/Statem/Agreement/Server13.antt =====
-- In TLSv1.3 the client accepts each message of the server's first flight.
use openssl_3_0_bee2evp.Prelude.{◌≡◌, ◌⊎◌, Bool, true, false, some, arith}
use openssl_3_0_bee2evp.Ssl.{
  HandState, MsgType, change_cipher_spec, tran_continue, Env, Ssl, is_tls13, is_hrr_pending,
  is_pha_request_pending, sw_srvr_hello, sw_cert, sw_cert_req, sw_change, sw_encrypted_extensions,
  sw_cert_vrfy,
}
use openssl_3_0_bee2evp.Statem.Client.Read.{
  client13_read_from, client13_read_transition, client_read_transition,
}
use openssl_3_0_bee2evp.Statem.Server.Write.{server13_write_from, server_write_transition}
use openssl_3_0_bee2evp.Statem.Server.Messages.{
  ServerConstruct, server_message_of, server_construct_message,
}
use openssl_3_0_bee2evp.Statem.Agreement.{Accepts, write-new, construct-message_of, mirror13}

-- The state is one in which the server writes its first flight.
abbrev pub InFlight : HandState → Type 0
InFlight sw_srvr_hello = Unit
InFlight sw_change = Unit
InFlight sw_encrypted_extensions = Unit
InFlight sw_cert_req = Unit
InFlight sw_cert = Unit
InFlight sw_cert_vrfy = Unit
InFlight _ = ⊥

-- What the two sides have agreed on by the ServerHello, which was no HelloRetryRequest. The flight
-- is no request for authentication after the handshake.
pub record Agreed (e : Env) (s c : Ssl) : Type 0 where
  pub server_new : is_tls13 e.consts s ≡ true
  pub client_new : is_tls13 e.consts c ≡ true
  pub same_hit : c.hit ≡ s.hit
  pub no_retry : is_hrr_pending s.hello_retry_request ≡ false
  pub no_pha : is_pha_request_pending s.post_handshake_auth ≡ false

-- The move is valid and leads to the given state, or the message is a change of cipher
-- specification, which goes with no move.
abbrev Delivers : HandState → HandState → MsgType → Ssl × Bool → Type 0
Delivers h h' mt r = Accepts h' r ⊎ ((mt ≡ change_cipher_spec) × (h' ≡ h))

module _ (e : Env) (s c s' : Ssl) (f : ServerConstruct) (mt : MsgType) (a : Agreed e s c) where
  deliver :
      (h : HandState)
      → InFlight h
      → server_message_of (server13_write_from e h s).0.statem.hand_state s' ≡ some (f, mt)
      → Delivers
          (mirror13 h)
          (mirror13 (server13_write_from e h s).0.statem.hand_state)
          mt
          (client13_read_from e (mirror13 h) mt c)
  unfolding server13_write_from client13_read_from server_message_of
  deliver sw_srvr_hello i m = ground arith
  deliver sw_change i m = ground arith
  deliver sw_encrypted_extensions i m = ground arith
  deliver sw_cert_req i m = ground arith
  deliver sw_cert i m = ground arith
  deliver sw_cert_vrfy i m = ground arith
  deliver _ i m = absurd i

  accepted :
      (h h' : HandState)
      → c.statem.hand_state ≡ h
      → Delivers h h' mt (client13_read_from e h mt c)
      → Delivers h h' mt (client_read_transition e c mt)
  unfolding client_read_transition client13_read_transition
  accepted h h' at d = ground arith

-- In TLSv1.3, if the client waits in the state that goes with the server's, then it accepts the next
-- message that the server writes, and comes to the state that goes with the server's new one; but a
-- change of cipher specification, sent for middleboxes, leaves the state that goes with the
-- server's as it was. The conditions: the server's state is one of its first flight, and both sides use
-- TLSv1.3; they agree on whether a session is resumed; the server has no HelloRetryRequest pending; and
-- it has no request for authentication after the handshake pending.
pub server13_accepted :
    (e : Env) (s c s' s'' : Ssl) (f : ServerConstruct) (mt : MsgType)
    → Agreed e s c
    → InFlight s.statem.hand_state
    → c.statem.hand_state ≡ mirror13 s.statem.hand_state
    → server_write_transition e s ≡ (s', tran_continue)
    → server_construct_message s' ≡ (s'', some (f, mt))
    → Accepts (mirror13 s'.statem.hand_state) (client_read_transition e c mt)
      ⊎ ((mt ≡ change_cipher_spec) × (mirror13 s'.statem.hand_state ≡ mirror13 s.statem.hand_state))
server13_accepted e s c s' s'' f mt a i at w m =
    let w' = write-new e s s' tran_continue (a.server_new) w in
    let sent = construct-message_of s' s'' f mt m in
    let to = deliver e s c s' f mt a s.statem.hand_state i (rw w' sent) in
    accepted e s c s' f mt a _ _ at (rw w' at to)
