-- ===== src/Statem/Server/Rejection.antt =====
-- What the server's read transition does with a message that it does not allow.
use openssl_3_0_bee2evp.Prelude.{◌≡◌, inl, inr, false, some, none, Bool-cases, arith}
use openssl_3_0_bee2evp.Ssl.{HandState, MsgType, Env, Ssl, is_tls13, handshake_failure}
use openssl_3_0_bee2evp.Statem.Control.{
  HasFailed, IsRefusal, fatal-HasFailed, finish_read-IsRefusal,
}
use openssl_3_0_bee2evp.Statem.Server.Read.{
  Move, moved, no_move, refused, finish_move, server13_read_transition, read_srvr_done,
  server_read_from, read_clnt_hello, server_read_key_exch, server_read_change,
  server_read_transition,
}

-- A refusal that has raised its own error.
abbrev HasRaised : Move → Type 0
HasRaised (moved s) = Unit {0}
HasRaised no_move = Unit {0}
HasRaised (refused s) = HasFailed s

read_srvr_done-HasRaised : (e : Env) (mt : MsgType) (s : Ssl) → HasRaised (read_srvr_done e mt s)
unfolding read_srvr_done
read_srvr_done-HasRaised e mt s = ground (arith, fatal-HasFailed handshake_failure s)

server_read_from-HasRaised :
    (e : Env) (h : HandState) (mt : MsgType) (s : Ssl) → HasRaised (server_read_from e h mt s)
unfolding server_read_from read_clnt_hello server_read_key_exch server_read_change
server_read_from-HasRaised e HandState.sw_srvr_done mt s = read_srvr_done-HasRaised e mt s
server_read_from-HasRaised e _ mt s = ground arith

finish_move-IsRefusal :
    (mt : MsgType) (s : Ssl) (m : Move)
    → HasRaised m
    → (finish_move mt s m).1 ≡ false
    → IsRefusal mt (finish_move mt s m).0
unfolding finish_move
finish_move-IsRefusal mt s (moved s') r h = finish_read-IsRefusal mt s (some s') h
finish_move-IsRefusal mt s no_move r h = finish_read-IsRefusal mt s none h
finish_move-IsRefusal mt s (refused s') r h = inr r

-- A message that the server does not allow is either dropped, which happens only to a change of
-- cipher specification in DTLS, or it puts the connection into the permanent error state; also when
-- the server refuses a ClientKeyExchange because it requires a certificate.
pub server_read_transition-IsRefusal :
    (e : Env) (s : Ssl) (mt : MsgType)
    → (server_read_transition e s mt).1 ≡ false
    → IsRefusal mt (server_read_transition e s mt).0
unfolding server_read_transition
server_read_transition-IsRefusal e s mt = elim (Bool-cases (is_tls13 e.consts s)) [
  | inl new ↦ rw new (elim (Bool-cases (server13_read_transition s mt).1) [
    | inl fits ↦ rw fits (λ h. cc)
    | inr bad ↦ rw bad (finish_read-IsRefusal mt (server13_read_transition s mt).0 none)
  ])
  | inr old ↦ rw old (
      finish_move-IsRefusal mt s (server_read_from e s.statem.hand_state mt s)
        (server_read_from-HasRaised e s.statem.hand_state mt s))
]
