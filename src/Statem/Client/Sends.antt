-- ===== src/Statem/Client/Sends.antt =====
-- After each move to write, the client has a message to send, or ends the handshake.
use openssl_3_0_bee2evp.Prelude.{◌≡◌, ◌≢◌, ◌⊎◌, none, true, false, if-eq, arith}
use openssl_3_0_bee2evp.Ssl.{
  HandState, ok, early_data, tran_continue, work_finished_continue, Env, Ssl, is_tls13,
}
use openssl_3_0_bee2evp.Statem.Work.{Calls}
use openssl_3_0_bee2evp.Statem.Work.Finish.{finish_handshake_stops}
use openssl_3_0_bee2evp.Statem.Work.Client.{client_pre_work_of, client_pre_work}
use openssl_3_0_bee2evp.Statem.Client.Write.{
  cert_or_finished, client13_write_from, client13_write_transition, write_hello_req, write_change,
  client_write_from, client_write_transition,
}
use openssl_3_0_bee2evp.Statem.Client.Messages.{client_message_of}

-- There is a message for the state, or it is a state at which the client stops.
abbrev HasWork : Ssl → HandState → Type 0
HasWork s h = (client_message_of h s ≢ none) ⊎ (h ≡ ok) ⊎ (h ≡ early_data)

module _ (e : Env) (s s' : Ssl) where
  client13_write_from-HasWork :
      (h : HandState)
      → client13_write_from h s ≡ (s', tran_continue)
      → HasWork s' s'.statem.hand_state
  unfolding client13_write_from cert_or_finished client_message_of
  client13_write_from-HasWork h w = ground arith

  write_hello_req-HasWork :
      write_hello_req e s ≡ (s', tran_continue) → HasWork s' s'.statem.hand_state
  unfolding write_hello_req client_message_of
  write_hello_req-HasWork w = ground arith

  client_write_from-HasWork :
      (h : HandState)
      → client_write_from e h s ≡ (s', tran_continue)
      → HasWork s' s'.statem.hand_state
  unfolding client_write_from write_change client_message_of
  client_write_from-HasWork h w = ground (arith, write_hello_req-HasWork)

client_write_transition-HasWork :
    (e : Env) (s s' : Ssl)
    → client_write_transition e s ≡ (s', tran_continue)
    → HasWork s' s'.statem.hand_state
unfolding client_write_transition client13_write_transition
client_write_transition-HasWork e s s' =
    if-eq (is_tls13 e.consts s) (λ new. client13_write_from-HasWork e s s' s.statem.hand_state)
      (λ old. client_write_from-HasWork e s s' s.statem.hand_state)

-- The handshake goes no further in the two states without a message.
client_pre_work_stops :
    (e : Env) (c : Calls) (s : Ssl)
    → (client_pre_work e.consts c s).1 ≡ work_finished_continue
    → (s.statem.hand_state ≢ ok) × (s.statem.hand_state ≢ early_data)
unfolding client_pre_work client_pre_work_of
client_pre_work_stops e c s p = (
  λ (at : s.statem.hand_state ≡ ok). finish_handshake_stops e.consts c true s (simp at at p),
  λ (at : s.statem.hand_state ≡ early_data).
      finish_handshake_stops e.consts c false s (simp at at p),
)

-- Whenever the client moves to a state in order to write, and the work before the message does not
-- end the handshake or fail, there is a message for the state, so that the fatal error for a state
-- without one is not reached.
client_write_transition_sends :
    (e : Env) (c : Calls) (s s' : Ssl)
    → client_write_transition e s ≡ (s', tran_continue)
    → (client_pre_work e.consts c s').1 ≡ work_finished_continue
    → client_message_of s'.statem.hand_state s' ≢ none
client_write_transition_sends e c s s' w p =
    ground (arith, client_write_transition-HasWork e s s' w, client_pre_work_stops e c s' p)
