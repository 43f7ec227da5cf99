-- ===== src/Statem/Agreement.antt =====
-- Client and server against one another: the state in which one side waits while the other writes,
-- and the agreement on the messages that a cipher suite asks for.
pub mod Server12
pub mod Server13
pub mod Client12
pub mod Client13
pub mod DhtPsk
use openssl_3_0_bee2evp.Prelude.{◌≡◌, refl, Bool, true, false, ◌||◌, Option, none, some, arith}
use openssl_3_0_bee2evp.Ssl.{
  HandState, before, cr_srvr_hello, cr_cert, cr_cert_status, cr_key_exch, cr_cert_req, cr_srvr_done,
  cr_session_ticket, cr_change, cr_finished, cr_encrypted_extensions, cr_cert_vrfy, cw_finished,
  sw_srvr_hello, sw_cert, sw_cert_status, sw_key_exch, sw_cert_req, sw_srvr_done, sw_session_ticket,
  sw_change, sw_finished, sw_encrypted_extensions, sw_cert_vrfy, sr_finished, MsgType,
  PublicConstants, WriteTran, Env, Ssl, is_tls13, any_psk,
}
use openssl_3_0_bee2evp.Statem.{finish_read}
use openssl_3_0_bee2evp.Statem.Client.{cert_req_allowed, key_exchange_expected}
use openssl_3_0_bee2evp.Statem.Client.Write.{
  client13_write_from, client13_write_transition, client_write_from, client_write_transition,
}
use openssl_3_0_bee2evp.Statem.Client.Messages.{
  ClientConstruct, client_message_of, client_construct_message,
}
use openssl_3_0_bee2evp.Statem.Server.{send_server_key_exchange, send_certificate_request}
use openssl_3_0_bee2evp.Statem.Server.Write.{
  server13_write_from, server13_write_transition, server_write_from, server_write_transition,
}
use openssl_3_0_bee2evp.Statem.Server.Messages.{
  ServerConstruct, server_message_of, server_construct_message,
}

-- The client's state that goes with the server's, while the server writes below TLSv1.3. (`before`
-- goes with no state of a flight.)
abbrev pub mirror12 : HandState → HandState
mirror12 sw_srvr_hello = cr_srvr_hello
mirror12 sw_cert = cr_cert
mirror12 sw_cert_status = cr_cert_status
mirror12 sw_key_exch = cr_key_exch
mirror12 sw_cert_req = cr_cert_req
mirror12 sw_srvr_done = cr_srvr_done
mirror12 sr_finished = cw_finished
mirror12 sw_session_ticket = cr_session_ticket
mirror12 sw_change = cr_change
mirror12 sw_finished = cr_finished
mirror12 _ = before

-- The same in TLSv1.3, where the client's state machine never sees a change of cipher specification.
abbrev pub mirror13 : HandState → HandState
mirror13 sw_srvr_hello = cr_srvr_hello
mirror13 sw_change = cr_srvr_hello
mirror13 sw_encrypted_extensions = cr_encrypted_extensions
mirror13 sw_cert_req = cr_cert_req
mirror13 sw_cert = cr_cert
mirror13 sw_cert_vrfy = cr_cert_vrfy
mirror13 sw_finished = cr_finished
mirror13 _ = before

-- The move is valid and leads to the given state.
abbrev pub MovesTo : HandState → Option Ssl → Type 0
MovesTo h none = ⊥
MovesTo h (some s) = s.statem.hand_state ≡ h

-- The message is accepted and leads to the given state.
abbrev pub Accepts : HandState → Ssl × Bool → Type 0
Accepts h (s, allowed) = (allowed ≡ true) × (s.statem.hand_state ≡ h)

pub finish_read-Accepts :
    (h : HandState) (mt : MsgType) (c : Ssl) (m : Option Ssl)
    → MovesTo h m
    → Accepts h (finish_read mt c m)
unfolding finish_read
finish_read-Accepts h mt c none p = elim p [ ]
finish_read-Accepts h mt c (some c') p = (refl, p)

-- The write transition of the server is the one of its version.
module _ (e : Env) (s s' : Ssl) (w : WriteTran) where
  pub write-old :
      is_tls13 e.consts s ≡ false
      → server_write_transition e s ≡ (s', w)
      → server_write_from e s.statem.hand_state s ≡ (s', w)
  unfolding server_write_transition
  write-old old r = simp old at r

  pub write-new :
      is_tls13 e.consts s ≡ true
      → server_write_transition e s ≡ (s', w)
      → server13_write_from e s.statem.hand_state s ≡ (s', w)
  unfolding server_write_transition server13_write_transition
  write-new new r = simp new at r

-- A message that the server constructs is the one of its state.
pub construct-message_of :
    (s s' : Ssl) (f : ServerConstruct) (mt : MsgType)
    → server_construct_message s ≡ (s', some (f, mt))
    → server_message_of s.statem.hand_state s ≡ some (f, mt)
unfolding server_construct_message
construct-message_of s s' f mt m = ground arith

-- The same on the client's side.
pub client_write-old :
    (e : Env) (c c' : Ssl) (w : WriteTran)
    → is_tls13 e.consts c ≡ false
    → client_write_transition e c ≡ (c', w)
    → client_write_from e c.statem.hand_state c ≡ (c', w)
unfolding client_write_transition
client_write-old e c c' w old r = simp old at r

pub client_write-new :
    (e : Env) (c c' : Ssl) (w : WriteTran)
    → is_tls13 e.consts c ≡ true
    → client_write_transition e c ≡ (c', w)
    → client13_write_from c.statem.hand_state c ≡ (c', w)
unfolding client_write_transition client13_write_transition
client_write-new e c c' w new r = simp new at r

pub client_construct-message_of :
    (c c' : Ssl) (f : ClientConstruct) (mt : MsgType)
    → client_construct_message c ≡ (c', some (f, mt))
    → client_message_of c.statem.hand_state c ≡ some (f, mt)
unfolding client_construct_message
client_construct-message_of c c' f mt m = ground arith

module _ (s c : Ssl) (same : c.new_cipher ≡ s.new_cipher) where
  -- The client accepts each ServerKeyExchange that the server sends.
  pub send-accepted :
      send_server_key_exchange s ≡ true → (key_exchange_expected c || any_psk c.new_cipher) ≡ true
  unfolding send_server_key_exchange key_exchange_expected
  send-accepted h = rw same (ground arith)

  -- The server sends each ServerKeyExchange that the client requires, but for one key exchange.
  pub expected-sent :
      (s.new_cipher.k_bdhtpsk ≡ true → s.psk_identity_hint ≡ true)
      → key_exchange_expected c ≡ true
      → send_server_key_exchange s ≡ true
  unfolding send_server_key_exchange key_exchange_expected
  expected-sent hint = rw same (ground arith)

  -- The client accepts each CertificateRequest that the server sends, unless the server insists on a
  -- certificate in an anonymous cipher suite.
  pub request-allowed :
      (k : PublicConstants)
      → (s.new_cipher.a_null ≡ true → s.verify_fail_if_no_peer_cert ≡ false)
      → send_certificate_request k s ≡ true
      → cert_req_allowed k c ≡ true
  unfolding send_certificate_request cert_req_allowed
  request-allowed k anon = rw same (ground arith)
