-- ===== src/Statem/Work/Ends.antt =====
-- Work that ends the handshake leaves the connection out of the initial state
-- (ssl/statem/statem_clnt.c, ssl/statem/statem_srvr.c).
use openssl_3_0_bee2evp.Prelude.{◌≡◌, ◌≢◌, Bool, true, false, arith, if◌then◌else◌}
use openssl_3_0_bee2evp.Ssl.{
  HandState, WorkState, work_error, work_finished_stop, work_more_a, PublicConstants, Ssl, is_tls13,
}
use openssl_3_0_bee2evp.Statem.Work.{Calls, or_return, finished_work, flush, finish_handshake}
use openssl_3_0_bee2evp.Statem.Work.Finish.{finish_handshake_lem}
use openssl_3_0_bee2evp.Statem.Work.Client.{
  client_pre_work_of, client_pre_work, first_packet_next, client_hello_post_work,
  client_change_post_work, client_finished_post_work, client_post_work_of, client_post_work,
}
use openssl_3_0_bee2evp.Statem.Work.Server.{
  session_ticket_pre_work, server_change_pre_work, server_pre_work_of, server_pre_work,
  handshake_keys, server_change_post_work, server_hello_post_work, server_finished_post_work,
  session_ticket_post_work, server_post_work_of, server_post_work,
}

pub record Ends (r : Ssl × WorkState) : Type 0 where
  pub out_of_init : r.1 ≡ work_finished_stop → r.0.statem.in_init ≡ false

or_return-Ends :
    (w : WorkState) (r : Ssl × Bool) (next : Ssl → Ssl × WorkState)
    → w ≢ work_finished_stop
    → ((s : Ssl) → Ends (next s))
    → Ends (or_return w r next)
unfolding or_return
or_return-Ends w (s, true) next ne ends = ends s
or_return-Ends w (s, false) next ne ends = record { out_of_init = λ h. absurd (ne h) }

finished_work-Ends : (s : Ssl) → Ends (finished_work s)
unfolding finished_work
finished_work-Ends s = record { out_of_init = λ h. cc }

more_a-Ends : (s : Ssl) → Ends (s, work_more_a)
more_a-Ends s = record { out_of_init = λ h. cc }

if-Ends : (b : Bool) (p q : Ssl × WorkState) → Ends p → Ends q → Ends (if b then p else q)
if-Ends true p q x y = x
if-Ends false p q x y = y

module _ (k : PublicConstants) (c : Calls) where
  finish_handshake-Ends :
      (clearbufs stop : Bool) (s : Ssl) → Ends (finish_handshake k c clearbufs stop s)
  finish_handshake-Ends clearbufs true s = record {
    out_of_init = λ h. ground (arith, finish_handshake_lem k c clearbufs true s);
  }
  finish_handshake-Ends clearbufs false s = record {
    out_of_init = λ h. ground (arith, finish_handshake_lem k c clearbufs false s);
  }

  -- A call that has to succeed, and the end of the work.
  call-Ends : (r : Ssl × Bool) → Ends (or_return work_error r finished_work)
  call-Ends r = or_return-Ends work_error r finished_work (λ h. cc) finished_work-Ends

  pub client_pre_work-Ends : (s : Ssl) → Ends (client_pre_work k c s)
  unfolding client_pre_work client_pre_work_of
  client_pre_work-Ends s = go s.statem.hand_state
    where
      go : (h : HandState) → Ends (client_pre_work_of k c h s)
      go HandState.cw_clnt_hello = call-Ends _
      go HandState.cw_change = finished_work-Ends _
      go HandState.pending_early_data_end =
          if-Ends _ _ _ (finished_work-Ends s) (finish_handshake-Ends false true s)
      go HandState.early_data = finish_handshake-Ends false true s
      go HandState.ok = finish_handshake-Ends true true s
      go _ = finished_work-Ends s

  error≢stop : work_error ≢ work_finished_stop
  error≢stop h = cc

  more_a≢stop : work_more_a ≢ work_finished_stop
  more_a≢stop h = cc

  first_packet_next-Ends : (s : Ssl) → Ends (first_packet_next k c s)
  unfolding first_packet_next
  first_packet_next-Ends s = finished_work-Ends _

  client_hello_post_work-Ends : (s : Ssl) → Ends (client_hello_post_work k c s)
  unfolding client_hello_post_work
  client_hello_post_work-Ends s =
      if-Ends _ _ _
        (if-Ends _ _ _ (or_return-Ends _ _ _ error≢stop first_packet_next-Ends)
          (first_packet_next-Ends s))
        (or_return-Ends _ _ _ more_a≢stop first_packet_next-Ends)

  client_change_post_work-Ends : (s : Ssl) → Ends (client_change_post_work k c s)
  unfolding client_change_post_work
  client_change_post_work-Ends s = if-Ends _ _ _ (finished_work-Ends s) (
      if-Ends _ _ _ (call-Ends _) (
        or_return-Ends _ _ _ error≢stop
          λ s1. or_return-Ends _ _ _ error≢stop λ s2. finished_work-Ends _))

  client_finished_post_work-Ends : (s : Ssl) → Ends (client_finished_post_work k c s)
  unfolding client_finished_post_work
  client_finished_post_work-Ends s =
      or_return-Ends _ _ _ (λ h. cc)
        λ s1.
          if-Ends _ _ _
            (or_return-Ends _ _ _ error≢stop
              λ s2. if-Ends _ _ _ (finished_work-Ends s2) (call-Ends _))
            (finished_work-Ends s1)

  update_key-Ends :
      (r : Ssl × Bool)
      → Ends (or_return work_more_a r (λ s. or_return work_error (c.update_key s) finished_work))
  update_key-Ends r = or_return-Ends _ _ _ more_a≢stop λ s. call-Ends _

  pub client_post_work-Ends : (s : Ssl) → Ends (client_post_work k c s)
  unfolding client_post_work client_post_work_of
  client_post_work-Ends s = go s.statem.hand_state (record s { init_num = 0 })
    where
      go : (h : HandState) (t : Ssl) → Ends (client_post_work_of k c h t)
      go HandState.cw_clnt_hello t = client_hello_post_work-Ends t
      go HandState.cw_end_of_early_data t = finished_work-Ends _
      go HandState.cw_key_exch t = call-Ends _
      go HandState.cw_change t = client_change_post_work-Ends t
      go HandState.cw_finished t = client_finished_post_work-Ends t
      go HandState.cw_key_update t = update_key-Ends _
      go _ t = finished_work-Ends t

  session_ticket_pre_work-Ends : (s : Ssl) → Ends (session_ticket_pre_work k c s)
  unfolding session_ticket_pre_work
  session_ticket_pre_work-Ends s =
      if-Ends _ _ _ (finish_handshake-Ends false false s) (finished_work-Ends _)

  server_change_pre_work-Ends : (s : Ssl) → Ends (server_change_pre_work k c s)
  unfolding server_change_pre_work
  server_change_pre_work-Ends s = if-Ends _ _ _ (finished_work-Ends s) (
      or_return-Ends _ _ _ error≢stop
        λ s1. or_return-Ends _ _ _ error≢stop λ s2. finished_work-Ends _)

  pub server_pre_work-Ends : (s : Ssl) → Ends (server_pre_work k c s)
  unfolding server_pre_work server_pre_work_of
  server_pre_work-Ends s = go s.statem.hand_state
    where
      go : (h : HandState) → Ends (server_pre_work_of k c h s)
      go HandState.sw_hello_req = finished_work-Ends _
      go HandState.sw_hello_verify_request = finished_work-Ends _
      go HandState.sw_srvr_hello = finished_work-Ends _
      go HandState.sw_session_ticket = session_ticket_pre_work-Ends s
      go HandState.sw_change = server_change_pre_work-Ends s
      go HandState.early_data =
          if-Ends _ _ _ (finished_work-Ends s) (finish_handshake-Ends true true s)
      go HandState.ok = finish_handshake-Ends true true s
      go _ = finished_work-Ends s

  handshake_keys-Ends : (s : Ssl) → Ends (handshake_keys k c s)
  unfolding handshake_keys
  handshake_keys-Ends s = or_return-Ends _ _ _ error≢stop λ s1.
      or_return-Ends _ _ _ error≢stop
        λ s2. or_return-Ends _ _ _ error≢stop λ s3. finished_work-Ends _

  server_change_post_work-Ends : (s : Ssl) → Ends (server_change_post_work k c s)
  unfolding server_change_post_work
  server_change_post_work-Ends s =
      if-Ends _ _ _ (or_return-Ends _ _ _ more_a≢stop finished_work-Ends) (
        if-Ends _ _ _ (handshake_keys-Ends s)
          (or_return-Ends _ _ _ error≢stop λ s1. finished_work-Ends _))

  server_hello_post_work-Ends : (s : Ssl) → Ends (server_hello_post_work k c s)
  unfolding server_hello_post_work
  server_hello_post_work-Ends s =
      if-Ends _ _ _ (or_return-Ends _ _ _ more_a≢stop finished_work-Ends)
        (if-Ends _ _ _ (finished_work-Ends s) (server_change_post_work-Ends s))

  server_finished_post_work-Ends : (s : Ssl) → Ends (server_finished_post_work k c s)
  unfolding server_finished_post_work
  server_finished_post_work-Ends s = or_return-Ends _ _ _ more_a≢stop λ s1.
      if-Ends _ _ _ (or_return-Ends _ _ _ error≢stop λ s2. call-Ends _) (finished_work-Ends s1)

  session_ticket_post_work-Ends : (s : Ssl) → Ends (session_ticket_post_work k c s)
  unfolding session_ticket_post_work
  session_ticket_post_work-Ends s =
      let (t, flushed) = flush c s in
      if-Ends (is_tls13 k s) _ _
        (if-Ends flushed _ _ (finished_work-Ends t)
          (if-Ends (c.connection_closed t) _ _ (finished_work-Ends _) (more_a-Ends t)))
        (finished_work-Ends s)

  pub server_post_work-Ends : (s : Ssl) → Ends (server_post_work k c s)
  unfolding server_post_work server_post_work_of
  server_post_work-Ends s = go s.statem.hand_state (record s { init_num = 0 })
    where
      go : (h : HandState) (t : Ssl) → Ends (server_post_work_of k c h t)
      go HandState.sw_hello_req t = or_return-Ends _ _ _ more_a≢stop λ s1. call-Ends _
      go HandState.sw_hello_verify_request t =
          or_return-Ends _ _ _ more_a≢stop
            λ s1. or_return-Ends _ _ _ error≢stop λ s2. finished_work-Ends _
      go HandState.sw_srvr_hello t = server_hello_post_work-Ends t
      go HandState.sw_change t = server_change_post_work-Ends t
      go HandState.sw_srvr_done t = or_return-Ends _ _ _ more_a≢stop finished_work-Ends
      go HandState.sw_finished t = server_finished_post_work-Ends t
      go HandState.sw_cert_req t =
          if-Ends _ _ _ (or_return-Ends _ _ _ more_a≢stop finished_work-Ends) (finished_work-Ends t)
      go HandState.sw_key_update t = update_key-Ends _
      go HandState.sw_session_ticket t = session_ticket_post_work-Ends t
      go _ t = finished_work-Ends t
