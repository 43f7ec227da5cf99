-- ===== src/Statem/Server/Dispatch.antt =====
-- A message that the server allows is processed by the function for its type.
use openssl_3_0_bee2evp.Prelude.{◌≡◌, ◌≢◌, true, if-eq, Option, none, some, arith}
use openssl_3_0_bee2evp.Ssl.{
  HandState, ok, early_data, sr_end_of_early_data, sw_finished, sr_cert, sr_cert_vrfy, is_tls13,
  is_hrr_pending, is_accepted, is_reading, MsgType, client_hello, end_of_early_data, certificate,
  client_key_exchange, certificate_verify, finished, next_proto, change_cipher_spec, key_update,
  Env, Ssl,
}
use openssl_3_0_bee2evp.Statem.{finish_read}
use openssl_3_0_bee2evp.Statem.Control.{nothing}
use openssl_3_0_bee2evp.Statem.Server.Process.{
  ServerProcess, process_client_hello, process_end_of_early_data, process_client_certificate,
  process_client_key_exchange, process_cert_verify, process_next_proto, process_change_cipher_spec,
  process_finished, process_key_update, server_process_of,
}
use openssl_3_0_bee2evp.Statem.Server.Read.{
  Move, moved, finish_move, server13_read_finished, server13_read_from, server13_read_transition,
  read_clnt_hello, read_srvr_done, server_read_key_exch, server_read_change, server_read_from,
  server_read_transition,
}

-- The function for each type of message that a client sends.
abbrev pub server_processor : MsgType → Option ServerProcess
server_processor client_hello = some process_client_hello
server_processor end_of_early_data = some process_end_of_early_data
server_processor certificate = some process_client_certificate
server_processor client_key_exchange = some process_client_key_exchange
server_processor certificate_verify = some process_cert_verify
server_processor finished = some process_finished
server_processor next_proto = some process_next_proto
server_processor change_cipher_spec = some process_change_cipher_spec
server_processor key_update = some process_key_update
server_processor _ = none

-- The state has a function that processes its message, and it is the one for the type.
abbrev pub Processes : MsgType → HandState → Type 0
Processes mt h = (server_process_of h ≡ server_processor mt) × (server_process_of h ≢ none)

module _ (mt : MsgType) (s s' : Ssl) where
  server13_read_finished-Processes :
      server13_read_finished mt s ≡ (s', true) → Processes mt s'.statem.hand_state
  unfolding server13_read_finished server_process_of
  server13_read_finished-Processes r = ground arith

  early_data-Processes :
      server13_read_from early_data mt s ≡ (s', true) → Processes mt s'.statem.hand_state
  unfolding server13_read_from server_process_of
  early_data-Processes =
      if-eq (is_hrr_pending s.hello_retry_request) (λ b r. ground arith)
        λ b.
          if-eq (is_accepted s.ext_early_data) (λ b2 r. ground arith)
            λ b2. server13_read_finished-Processes

  ok-Processes : server13_read_from ok mt s ≡ (s', true) → Processes mt s'.statem.hand_state
  unfolding server13_read_from server_process_of
  ok-Processes = if-eq (is_reading s.early_data_state) (λ b r. cc) (λ b r. ground arith)

server13_read_from-Processes :
    (mt : MsgType) (s s' : Ssl) (h : HandState)
    → server13_read_from h mt s ≡ (s', true)
    → Processes mt s'.statem.hand_state
unfolding server13_read_from server_process_of
server13_read_from-Processes mt s s' early_data r = early_data-Processes mt s s' r
server13_read_from-Processes mt s s' ok r = ok-Processes mt s s' r
server13_read_from-Processes mt s s' sr_end_of_early_data r =
    server13_read_finished-Processes mt s s' r
server13_read_from-Processes mt s s' sw_finished r = server13_read_finished-Processes mt s s' r
server13_read_from-Processes mt s s' sr_cert r = ground arith
server13_read_from-Processes mt s s' sr_cert_vrfy r = ground arith
server13_read_from-Processes mt s s' _ r = cc

server_read_from-Processes :
    (e : Env) (mt : MsgType) (s s' : Ssl) (h : HandState)
    → server_read_from e h mt s ≡ moved s'
    → Processes mt s'.statem.hand_state
unfolding server_read_from read_clnt_hello read_srvr_done server_read_key_exch server_read_change
    server_process_of
server_read_from-Processes e mt s s' h r = ground arith

finish_move-true :
    (mt : MsgType) (s s' : Ssl) (m : Move) → finish_move mt s m ≡ (s', true) → m ≡ moved s'
unfolding finish_move finish_read
finish_move-true mt s s' m h = ground arith

-- Whenever the server allows a message, the state that it moves to has a function that processes its
-- message, and that is the function for the type of the message that was allowed: no message is
-- parsed as another, and the fatal error for a state without a function is not reached.
pub server_read_transition-Processes :
    (e : Env) (s s' : Ssl) (mt : MsgType)
    → server_read_transition e s mt ≡ (s', true)
    → Processes mt s'.statem.hand_state
unfolding server_read_transition server13_read_transition
server_read_transition-Processes e s s' mt =
    let (t, allowed) = server13_read_from s.statem.hand_state mt s in
    if-eq (is_tls13 e.consts s)
      (λ new.
        if-eq (server13_read_from s.statem.hand_state mt s).1
          (λ fits h. server13_read_from-Processes mt s s' s.statem.hand_state (cc))
          (λ bad h. absurd (nothing mt t s' h)))
      (λ old h.
        server_read_from-Processes e mt s s' s.statem.hand_state
          (finish_move-true mt s s' (server_read_from e s.statem.hand_state mt s) h))
