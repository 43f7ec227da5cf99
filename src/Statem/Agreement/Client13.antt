-- ===== src/Statem/Agreement/Client13.antt =====
-- In TLSv1.3 the server accepts each message of the client's last flight.
use openssl_3_0_bee2evp.Prelude.{◌≡◌, refl, ◌⊎◌, Bool, true, false, not, ◌||◌, ◌==◌, some, arith}
use openssl_3_0_bee2evp.Ssl.{
  HandState, before, early_data, pending_early_data_end, cr_finished, cw_cert, cw_cert_vrfy,
  cw_change, cw_finished, cw_end_of_early_data, sr_cert, sr_cert_vrfy, sr_finished,
  sr_end_of_early_data, MsgType, change_cipher_spec, dummy, tran_continue, Env, Ssl, is_tls13,
  is_hrr_pending, is_accepted, is_write_retry, is_finished_writing,
}
use openssl_3_0_bee2evp.Statem.Client.Write.{
  cert_or_finished, client13_write_from, client_write_transition,
}
use openssl_3_0_bee2evp.Statem.Client.Messages.{
  ClientConstruct, client_message_of, client_construct_message,
}
use openssl_3_0_bee2evp.Statem.Server.Read.{
  server13_read_finished, server13_read_from, server13_read_transition, server_read_transition,
}
use openssl_3_0_bee2evp.Statem.Agreement.{Accepts, client_write-new, client_construct-message_of}

-- The server's state that goes with the client's, while the client writes.
abbrev pub mirror : HandState → HandState
mirror cr_finished = early_data
mirror pending_early_data_end = early_data
mirror cw_change = early_data
mirror cw_end_of_early_data = sr_end_of_early_data
mirror cw_cert = sr_cert
mirror cw_cert_vrfy = sr_cert_vrfy
mirror cw_finished = sr_finished
mirror _ = before

-- The state is one in which the client writes its last flight.
abbrev pub InFlight : HandState → Type 0
InFlight cr_finished = Unit
InFlight pending_early_data_end = Unit
InFlight cw_change = Unit
InFlight cw_end_of_early_data = Unit
InFlight cw_cert = Unit
InFlight cw_cert_vrfy = Unit
InFlight _ = ⊥

-- What the two sides agree on: the client answers a request for a certificate if and only if there
-- was one, and, once it has sent its certificate, signs the handshake if and only if the server has one
-- to check; and the server takes
-- the early data if and only if the client ends it. The last two fields say that the client ends
-- early data before it goes on, where the server takes it.
pub record Agreed (e : Env) (c s : Ssl) : Type 0 where
  pub client_new : is_tls13 e.consts c ≡ true
  pub server_new : is_tls13 e.consts s ≡ true
  pub requested : s.cert_request ≡ not (c.cert_req == 0)
  pub signs : c.statem.hand_state ≡ cw_cert → s.session_peer ≡ (c.cert_req == 1)
  pub same_early : is_accepted s.ext_early_data ≡ is_accepted c.ext_early_data
  pub no_retry : is_hrr_pending s.hello_retry_request ≡ false
  pub wrote_early :
      is_accepted c.ext_early_data ≡ true
      → (is_write_retry c.early_data_state || is_finished_writing c.early_data_state) ≡ true
  pub change_without_early : c.statem.hand_state ≡ cw_change → is_accepted c.ext_early_data ≡ false

-- A message that the state machine of the server never sees.
abbrev pub IsUnseen : MsgType → Type 0
IsUnseen mt = (mt ≡ change_cipher_spec) ⊎ (mt ≡ dummy)

-- The move is valid and leads to the given state, or there is no move.
abbrev Delivers : HandState → HandState → MsgType → Ssl × Bool → Type 0
Delivers h h' mt r = Accepts h' r ⊎ (IsUnseen mt × (h' ≡ h))

module _ (e : Env) (c s c' : Ssl) (f : ClientConstruct) (mt : MsgType) (a : Agreed e c s) where
  deliver :
      (h : HandState)
      → InFlight h
      → c.statem.hand_state ≡ h
      → client_message_of (client13_write_from h c).0.statem.hand_state c' ≡ some (f, mt)
      → Delivers
          (mirror h)
          (mirror (client13_write_from h c).0.statem.hand_state)
          mt
          (server13_read_from (mirror h) mt s)
  unfolding client13_write_from cert_or_finished client_message_of server13_read_from
      server13_read_finished
  deliver cr_finished i at m = ground (arith, a.requested, a.same_early, a.no_retry, a.wrote_early)
  deliver pending_early_data_end i at m = ground (arith, a.requested, a.same_early, a.no_retry)
  deliver cw_change i at m =
      ground (arith, a.requested, a.same_early, a.no_retry, a.change_without_early at)
  deliver cw_end_of_early_data i at m = ground (arith, a.requested)
  deliver cw_cert i at m = ground (arith, a.signs at)
  deliver cw_cert_vrfy i at m = ground arith
  deliver _ i at m = absurd i

  accepted :
      (h h' : HandState)
      → s.statem.hand_state ≡ h
      → Delivers h h' mt (server13_read_from h mt s)
      → Delivers h h' mt (server_read_transition e s mt)
  unfolding server_read_transition server13_read_transition
  accepted h h' at d = ground (arith, a.server_new)

-- In TLSv1.3, if the server waits in the state that goes with the client's, then it accepts the next
-- message that the client writes in its last flight, and comes to the state that goes with the
-- client's new one; but a change of cipher specification, sent for middleboxes, and the dummy, which
-- is not sent, leave the state that goes with the client's as it was. The conditions: the client's
-- state is one of its last flight, and both sides use TLSv1.3; the server has asked for a certificate if
-- and only if the client has such a request, and, where the client has just written its certificate, the
-- server has a certificate of the client if and only if the client is to sign; both take the early data
-- for accepted or neither does; the server has no HelloRetryRequest pending; the client, if early data
-- is accepted, is about to write again or has finished writing it; and, where the client has just
-- written a change of cipher specification, early data is not accepted.
pub client13_accepted :
    (e : Env) (c s c' c'' : Ssl) (f : ClientConstruct) (mt : MsgType)
    → Agreed e c s
    → InFlight c.statem.hand_state
    → s.statem.hand_state ≡ mirror c.statem.hand_state
    → client_write_transition e c ≡ (c', tran_continue)
    → client_construct_message c' ≡ (c'', some (f, mt))
    → Accepts (mirror c'.statem.hand_state) (server_read_transition e s mt)
      ⊎ (IsUnseen mt × (mirror c'.statem.hand_state ≡ mirror c.statem.hand_state))
client13_accepted e c s c' c'' f mt a i at w m =
    let w' = client_write-new e c c' tran_continue (a.client_new) w in
    let sent = client_construct-message_of c' c'' f mt m in
    let to = deliver e c s c' f mt a c.statem.hand_state i refl (rw w' sent) in
    accepted e c s c' f mt a _ _ at (rw w' at to)
