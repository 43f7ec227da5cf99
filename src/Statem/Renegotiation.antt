-- ===== src/Statem/Renegotiation.antt =====
-- Renegotiation that the server asks for: `ssl3_renegotiate_check` of ssl/s3_lib.c and the write
-- transitions of ssl/statem/statem_srvr.c.
use openssl_3_0_bee2evp.Prelude.{◌+◌, ◌≡◌, Bool, true, false, some, arith, refl}
use openssl_3_0_bee2evp.Ssl.{
  before, ok, sw_hello_req, hello_request, tran_continue, Env, Ssl, is_tls13,
}
use openssl_3_0_bee2evp.Statem.{renegotiate_check, set_renegotiate}
use openssl_3_0_bee2evp.Statem.Server.Write.{write_ok, server_write_from, server_write_transition}
use openssl_3_0_bee2evp.Statem.Server.Messages.{no_construct, server_message_of}

-- The check found that it is time to renegotiate.
abbrev pub IsDue : Ssl → Ssl → Type 0
IsDue s s' =
    (s'.statem.request_state ≡ sw_hello_req)
    × (s'.statem.in_init ≡ true)
    × (s'.statem.hand_state ≡ s.statem.hand_state)
    × (s'.s3_renegotiate ≡ false)
    × (s'.num_renegotiations ≡ s.num_renegotiations + 1)
    × (s'.total_renegotiations ≡ s.total_renegotiations + 1)

check_lem :
    (s : Ssl) (initok : Bool)
    → (renegotiate_check s initok).1 ≡ true
    → IsDue s (renegotiate_check s initok).0
unfolding renegotiate_check set_renegotiate
check_lem s initok h = ground arith

check-version :
    (e : Env) (s : Ssl) (initok : Bool)
    → is_tls13 e.consts (renegotiate_check s initok).0 ≡ is_tls13 e.consts s
unfolding renegotiate_check set_renegotiate
check-version e s initok = ground arith

-- The first move to write of a server that has been asked for a HelloRequest.
abbrev asked : Ssl → Ssl
asked s = record s {
  statem = record (s.statem) { hand_state = sw_hello_req; request_state = before };
}

first_move :
    (e : Env) (s : Ssl)
    → is_tls13 e.consts s ≡ false
    → s.statem.hand_state ≡ ok
    → s.statem.request_state ≡ sw_hello_req
    → server_write_transition e s ≡ (asked s, tran_continue)
unfolding server_write_transition server_write_from write_ok
first_move e s old at req = ground (arith, old, at, req)

second_move :
    (e : Env) (s : Ssl)
    → is_tls13 e.consts s ≡ false
    → s.statem.hand_state ≡ sw_hello_req
    → server_write_transition e s
      ≡ (record s { statem = record (s.statem) { hand_state = ok } }, tran_continue)
unfolding server_write_transition server_write_from
second_move e s old at = ground (arith, old, at)

-- When `ssl3_renegotiate_check` tells a server below TLSv1.3, at the end of a handshake, to
-- renegotiate, the server counts the renegotiation and is in the initial state again; its next two
-- moves to write are to send a HelloRequest and to come back to the end of the handshake, where the
-- request is not made again.
renegotiation_asks :
    (e : Env) (s : Ssl) (initok : Bool)
    → is_tls13 e.consts s ≡ false
    → s.statem.hand_state ≡ ok
    → (renegotiate_check s initok).1 ≡ true
    → let s' = (renegotiate_check s initok).0 in
      let (s1, w1) = server_write_transition e s' in
      let (s2, w2) = server_write_transition e s1 in
      IsDue s s'
      × (w1 ≡ tran_continue)
      × (server_message_of s1.statem.hand_state s1 ≡ some (no_construct, hello_request))
      × (w2 ≡ tran_continue)
      × (s2.statem.hand_state ≡ ok)
      × (s2.statem.request_state ≡ before)
unfolding server_message_of
renegotiation_asks e s initok old at h =
    let due = check_lem s initok h in
    let s' = (renegotiate_check s initok).0 in
    let old' : is_tls13 e.consts s' ≡ false = ground (arith, check-version e s initok, old) in
    let one = first_move e s' old' (ground (arith, due)) (due.0) in
    let two = second_move e (asked s') old' refl in
    rw one (rw two (due, refl, refl, refl, refl, refl))
