-- ===== src/Statem/Client/Dispatch.antt =====
-- A message that the client allows is processed by the function for its type.
use openssl_3_0_bee2evp.Prelude.{
  ◌≡◌, ◌≢◌, true, not, ◌&&◌, ◌||◌, leb, if-eq, Option, none, some, arith,
}
use openssl_3_0_bee2evp.Ssl.{
  HandState, MsgType, ◌is◌, any_psk, no_cert_auth, hello_request, server_hello,
  hello_verify_request, newsession_ticket, encrypted_extensions, certificate, server_key_exchange,
  certificate_request, server_done, certificate_verify, finished, certificate_status, key_update,
  change_cipher_spec, Env, Ssl, is_tls13,
}
use openssl_3_0_bee2evp.Statem.Control.{finish_read-true, nothing}
use openssl_3_0_bee2evp.Statem.Client.{key_exchange_expected}
use openssl_3_0_bee2evp.Statem.Client.Process.{
  ClientProcess, process_server_hello, process_hello_verify, process_server_certificate,
  process_cert_verify, process_cert_status, process_key_exchange, process_certificate_request,
  process_server_done, process_change_cipher_spec, process_new_session_ticket, process_finished,
  process_hello_req, process_encrypted_extensions, process_key_update, client_process_of,
}
use openssl_3_0_bee2evp.Statem.Client.Read.{
  client13_pha_request, client13_read_from, client13_read_transition, read_cert_req, read_key_exch,
  read_cert_status, read_cert, read_no_cert, read_srvr_hello_full, read_srvr_hello,
  read_cw_finished, client_read_from, client_read_transition,
}

-- The function for each type of message that a server sends.
abbrev pub client_processor : MsgType → Option ClientProcess
client_processor hello_request = some process_hello_req
client_processor server_hello = some process_server_hello
client_processor hello_verify_request = some process_hello_verify
client_processor newsession_ticket = some process_new_session_ticket
client_processor encrypted_extensions = some process_encrypted_extensions
client_processor certificate = some process_server_certificate
client_processor server_key_exchange = some process_key_exchange
client_processor certificate_request = some process_certificate_request
client_processor server_done = some process_server_done
client_processor certificate_verify = some process_cert_verify
client_processor finished = some process_finished
client_processor certificate_status = some process_cert_status
client_processor key_update = some process_key_update
client_processor change_cipher_spec = some process_change_cipher_spec
client_processor _ = none

-- The state has a function that processes its message, and it is the one for the type.
abbrev pub Processes : MsgType → HandState → Type 0
Processes mt h = (client_process_of h ≡ client_processor mt) × (client_process_of h ≢ none)

module _ (e : Env) (mt : MsgType) (s s' : Ssl) where
  read_cert_req-Processes : read_cert_req mt s ≡ some s' → Processes mt s'.statem.hand_state
  unfolding read_cert_req client_process_of
  read_cert_req-Processes h = ground arith

  read_key_exch-Processes : read_key_exch e mt s ≡ some s' → Processes mt s'.statem.hand_state
  unfolding read_key_exch client_process_of
  read_key_exch-Processes h = ground (arith, read_cert_req-Processes)

  read_cert_status-Processes : read_cert_status e mt s ≡ some s' → Processes mt s'.statem.hand_state
  unfolding read_cert_status client_process_of
  read_cert_status-Processes =
      if-eq (key_exchange_expected s || (any_psk s.new_cipher && mt is server_key_exchange))
        (λ b h. ground arith) (λ b. read_key_exch-Processes)

  read_cert-Processes : read_cert e mt s ≡ some s' → Processes mt s'.statem.hand_state
  unfolding read_cert client_process_of
  read_cert-Processes =
      if-eq (s.status_expected && mt is certificate_status) (λ b h. ground arith)
        (λ b. read_cert_status-Processes)

  read_no_cert-Processes : read_no_cert e mt s ≡ some s' → Processes mt s'.statem.hand_state
  unfolding read_no_cert client_process_of
  read_no_cert-Processes =
      if-eq (key_exchange_expected s || (any_psk s.new_cipher && mt is server_key_exchange))
        (λ b h. ground arith) (λ b h. ground arith)

  read_srvr_hello_full-Processes :
      read_srvr_hello_full e mt s ≡ some s' → Processes mt s'.statem.hand_state
  unfolding read_srvr_hello_full client_process_of
  read_srvr_hello_full-Processes =
      if-eq (s.is_dtls && mt is hello_verify_request) (λ b h. ground arith)
        λ b.
          if-eq
            (leb e.consts.tls1_version s.version
              && (s.session_secret_cb && (s.session_tick && mt is change_cipher_spec)))
            (λ b2 h. ground arith)
            λ b2.
              if-eq (not (no_cert_auth s.new_cipher)) (λ b3 h. ground arith)
                λ b3. read_no_cert-Processes

  read_srvr_hello-Processes : read_srvr_hello e mt s ≡ some s' → Processes mt s'.statem.hand_state
  unfolding read_srvr_hello client_process_of
  read_srvr_hello-Processes =
      if-eq s.hit (λ b h. ground arith) (λ b. read_srvr_hello_full-Processes)

  client_read_from-Processes :
      (h : HandState) → client_read_from e h mt s ≡ some s' → Processes mt s'.statem.hand_state
  unfolding client_read_from read_cw_finished client_process_of
  client_read_from-Processes h r = ground (
    arith, read_cert_req-Processes, read_key_exch-Processes, read_cert_status-Processes,
    read_cert-Processes, read_srvr_hello-Processes,
  )

  client13_read_from-Processes :
      (h : HandState) → client13_read_from e h mt s ≡ (s', true) → Processes mt s'.statem.hand_state
  unfolding client13_read_from client13_pha_request client_process_of
  client13_read_from-Processes h r = ground arith

-- Whenever the client allows a message, the state that it moves to has a function that processes its
-- message, and that is the function for the type of the message that was allowed: no message is
-- parsed as another, and the fatal error for a state without a function is not reached.
pub client_read_transition-Processes :
    (e : Env) (s s' : Ssl) (mt : MsgType)
    → client_read_transition e s mt ≡ (s', true)
    → Processes mt s'.statem.hand_state
unfolding client_read_transition client13_read_transition
client_read_transition-Processes e s s' mt =
    let (t, allowed) = client13_read_from e s.statem.hand_state mt s in
    if-eq (is_tls13 e.consts s)
      (λ new.
        if-eq (client13_read_from e s.statem.hand_state mt s).1
          (λ fits h. client13_read_from-Processes e mt s s' s.statem.hand_state (cc))
          (λ bad h. absurd (nothing mt t s' h)))
      (λ old h.
        client_read_from-Processes e mt s s' s.statem.hand_state
          (finish_read-true mt s s' (client_read_from e s.statem.hand_state mt s) h))
