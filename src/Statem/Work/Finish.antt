-- ===== src/Statem/Work/Finish.antt =====
-- What `tls_finish_handshake` returns and leaves behind (ssl/statem/statem_lib.c).
use openssl_3_0_bee2evp.Prelude.{◌≡◌, ◌≢◌, ◌⊎◌, Bool, true, false, arith, if◌then◌else◌}
use openssl_3_0_bee2evp.Ssl.{
  work_error, work_finished_stop, work_finished_continue, internal_error, PublicConstants, Ssl,
}
use openssl_3_0_bee2evp.Statem.{set_in_init}
use openssl_3_0_bee2evp.Statem.Control.{HasFailed, fatal-HasFailed}
use openssl_3_0_bee2evp.Statem.Work.{Calls, or_return, clear_bufs, finish_handshake}

clear_bufs_lem :
    (c : Calls) (s : Ssl)
    → ((clear_bufs c s).1 ≡ true) ⊎ (((clear_bufs c s).1 ≡ false) × HasFailed (clear_bufs c s).0)
unfolding clear_bufs
clear_bufs_lem c s = ground (
  arith,
  fatal-HasFailed internal_error
      (c.free_wbio_buffer (if s.is_dtls then s else record s { init_buf = false })).0,
)

-- Finishing a handshake never asks to be called again. It either fails the connection, or ends the
-- handshake out of the initial state if it is to stop, or goes on in the initial state if not.
pub finish_handshake_lem :
    (k : PublicConstants) (c : Calls) (clearbufs stop : Bool) (s : Ssl)
    → let (s', w) = finish_handshake k c clearbufs stop s in
      ((w ≡ work_error) × HasFailed s')
      ⊎ ((w ≡ (if stop then work_finished_stop else work_finished_continue))
          × (s'.statem.in_init ≡ (if stop then false else true)))
unfolding finish_handshake or_return set_in_init
finish_handshake_lem k c true true s = ground (arith, clear_bufs_lem c s)
finish_handshake_lem k c true false s = ground (arith, clear_bufs_lem c s)
finish_handshake_lem k c false true s = ground arith
finish_handshake_lem k c false false s = ground arith

pub finish_handshake_stops :
    (k : PublicConstants) (c : Calls) (clearbufs : Bool) (s : Ssl)
    → (finish_handshake k c clearbufs true s).1 ≢ work_finished_continue
finish_handshake_stops k c clearbufs s h = ground (arith, finish_handshake_lem k c clearbufs true s)
