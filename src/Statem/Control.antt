-- ===== src/Statem/Control.antt =====
-- Fatal errors and the refusal of a message (ssl/statem/statem.c, and the label `err` of the read
-- transitions).
use openssl_3_0_bee2evp.Prelude.{◌≡◌, ap, ◌⊎◌, true, false, Option, none, some, arith}
use openssl_3_0_bee2evp.Ssl.{MsgType, change_cipher_spec, flow_error, ssl_reading, Alert, Ssl}
use openssl_3_0_bee2evp.Statem.{fatal, unexpected, finish_read}

-- The connection is in the permanent error state.
abbrev pub HasFailed : Ssl → Type 0
HasFailed s = (s.statem.flow ≡ flow_error) × (s.statem.in_init ≡ true)

-- The message was dropped: a change of cipher specification out of order, in DTLS. The caller is
-- told to read again.
abbrev pub HasDropped : MsgType → Ssl → Type 0
HasDropped mt s =
    (s.is_dtls ≡ true)
    × (mt ≡ change_cipher_spec)
    × (s.init_num ≡ 0)
    × (s.rwstate ≡ ssl_reading)
    × (s.retry_read ≡ true)

pub fatal-HasFailed : (al : Alert) (s : Ssl) → HasFailed (fatal al s)
unfolding fatal
fatal-HasFailed al s = ground arith

-- A second fatal error changes nothing: the first alert is the only one sent.
fatal-fatal : (al bl : Alert) (s : Ssl) → fatal bl (fatal al s) ≡ fatal al s
unfolding fatal
fatal-fatal al bl s = ground arith

pub unexpected_lem :
    (mt : MsgType) (s : Ssl)
    → (HasDropped mt (unexpected mt s) × ((unexpected mt s).statem ≡ s.statem))
      ⊎ HasFailed (unexpected mt s)
unfolding unexpected
unexpected_lem mt s = ground arith

-- What a read transition that returns 0 leaves behind.
abbrev pub IsRefusal : MsgType → Ssl → Type 0
IsRefusal mt s = HasDropped mt s ⊎ HasFailed s

pub unexpected-IsRefusal : (mt : MsgType) (s : Ssl) → IsRefusal mt (unexpected mt s)
unfolding unexpected
unexpected-IsRefusal mt s = ground arith

pub finish_read-IsRefusal :
    (mt : MsgType) (s : Ssl) (m : Option Ssl)
    → (finish_read mt s m).1 ≡ false
    → IsRefusal mt (finish_read mt s m).0
unfolding finish_read
finish_read-IsRefusal mt s (some s') h = cc
finish_read-IsRefusal mt s none h = unexpected-IsRefusal mt s

-- A read transition that returns 1 has made its move.
pub finish_read-true :
    (mt : MsgType) (s s' : Ssl) (m : Option Ssl) → finish_read mt s m ≡ (s', true) → m ≡ some s'
unfolding finish_read
finish_read-true mt s s' (some t) h = ap (λ p. some p.0) h
finish_read-true mt s s' none h = cc

-- Without a move there is nothing to allow.
pub nothing : (mt : MsgType) (t s' : Ssl) → finish_read mt t none ≡ (s', true) → ⊥
nothing mt t s' h = cc (finish_read-true mt t s' none h)
