-- ===== src/Statem/Client/Rejection.antt =====
-- What the client's read transition does with a message that it does not allow.
use openssl_3_0_bee2evp.Prelude.{◌≡◌, inl, inr, false, none, Bool-cases}
use openssl_3_0_bee2evp.Ssl.{MsgType, Env, Ssl, is_tls13}
use openssl_3_0_bee2evp.Statem.Control.{IsRefusal, finish_read-IsRefusal}
use openssl_3_0_bee2evp.Statem.Client.Read.{
  client13_read_transition, client_read_from, client_read_transition,
}

-- A message that the client does not allow is either dropped, which happens only to a change of
-- cipher specification in DTLS, or it puts the connection into the permanent error state.
pub client_read_transition-IsRefusal :
    (e : Env) (s : Ssl) (mt : MsgType)
    → (client_read_transition e s mt).1 ≡ false
    → IsRefusal mt (client_read_transition e s mt).0
unfolding client_read_transition
client_read_transition-IsRefusal e s mt = elim (Bool-cases (is_tls13 e.consts s)) [
  | inl new ↦ rw new (elim (Bool-cases (client13_read_transition e s mt).1) [
    | inl fits ↦ rw fits (λ h. cc)
    | inr not_allowed ↦
        rw not_allowed (finish_read-IsRefusal mt (client13_read_transition e s mt).0 none)
  ])
  | inr old ↦ rw old (finish_read-IsRefusal mt s (client_read_from e s.statem.hand_state mt s))
]
