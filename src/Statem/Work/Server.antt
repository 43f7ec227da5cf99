-- ===== src/Statem/Work/Server.antt =====
-- The server's work before and after a message is written (ssl/statem/statem_srvr.c).
use openssl_3_0_bee2evp.Prelude.{
  Bool, true, false, not, ◌&&◌, ◌||◌, none, some, ◌==◌, if◌then◌else◌,
}
use openssl_3_0_bee2evp.Ssl.{
  HandState, ok, sw_hello_req, sw_hello_verify_request, sw_srvr_hello, sw_cert_req, sw_srvr_done,
  sw_session_ticket, sw_change, sw_finished, sw_key_update, early_data, WorkState, work_error,
  work_more_a, enc_read_allow_plain_alerts, ssl_nothing, internal_error, PublicConstants, Ssl,
  is_tls13, is_pha_request_pending, is_hrr_pending, is_hrr_complete, is_accepted, is_accepting,
}
use openssl_3_0_bee2evp.Statem.{fatal}
use openssl_3_0_bee2evp.Statem.Work.{
  Calls, handshake_server_write, handshake_server_read, server_write, application_server_write,
  or_return, finished_work, flush, finish_handshake,
}

module _ (k : PublicConstants) (c : Calls) where
  unfoldable pub no_timer : Ssl → Ssl
  no_timer s =
      if s.is_dtls then record s { statem = record (s.statem) { use_timer = false } } else s

  unfoldable pub session_ticket_pre_work : Ssl → Ssl × WorkState
  session_ticket_pre_work s =
      if is_tls13 k s && s.sent_tickets == 0 && s.extra_tickets_expected == 0
      then finish_handshake k c false false s
      else finished_work (no_timer s)

  -- The cipher suite of the session, which only the first handshake may set.
  unfoldable pub set_session_cipher : Ssl → Ssl × Bool
  set_session_cipher s = elim s.session_cipher [
    | none ↦ (record s { session_cipher = some s.new_cipher }, true)
    | some old ↦ if old.id == s.new_cipher.id then (s, true) else (fatal internal_error s, false)
  ]

  unfoldable pub server_change_pre_work : Ssl → Ssl × WorkState
  server_change_pre_work s =
      if is_tls13 k s
      then finished_work s
      else or_return work_error (set_session_cipher s)
          λ s1. or_return work_error (c.setup_key_block s1) λ s2. finished_work (no_timer s2)

  unfoldable pub server_pre_work_of : HandState → Ssl → Ssl × WorkState
  server_pre_work_of sw_hello_req s =
      let s' = record s { sent_shutdown = false } in
      finished_work (if s.is_dtls then c.clear_sent_buffer s' else s')
  server_pre_work_of sw_hello_verify_request s =
      let s' = record s { sent_shutdown = false } in
      finished_work (if s.is_dtls then no_timer (c.clear_sent_buffer s') else s')
  server_pre_work_of sw_srvr_hello s =
      finished_work
        (if s.is_dtls then record s { statem = record (s.statem) { use_timer = true } } else s)
  server_pre_work_of sw_session_ticket s = session_ticket_pre_work s
  server_pre_work_of sw_change s = server_change_pre_work s
  server_pre_work_of early_data s =
      if not (is_accepting s.early_data_state) && not s.stateless
      then finished_work s
      else finish_handshake k c true true s
  server_pre_work_of ok s = finish_handshake k c true true s
  server_pre_work_of _ s = finished_work s

  -- `ossl_statem_server_pre_work`
  unfoldable pub server_pre_work : Ssl → Ssl × WorkState
  unfolding server_pre_work_of
  server_pre_work s = server_pre_work_of s.statem.hand_state s

  -- In TLSv1.3, once the keys of the handshake are known.
  unfoldable pub handshake_keys : Ssl → Ssl × WorkState
  handshake_keys s = or_return work_error (c.setup_key_block s) λ s1.
      or_return work_error (c.change_cipher_state handshake_server_write s1) λ s2.
        or_return work_error
          (if is_accepted s2.ext_early_data
            then (s2, true)
            else c.change_cipher_state handshake_server_read s2)
          λ s3. finished_work (record s3 {
            statem = record (s3.statem) { enc_read_state = enc_read_allow_plain_alerts };
          })

  unfoldable pub server_change_post_work : Ssl → Ssl × WorkState
  server_change_post_work s =
      if is_hrr_pending s.hello_retry_request
      then or_return work_more_a (flush c s) finished_work
      else if is_tls13 k s
      then handshake_keys s
      else or_return work_error (c.change_cipher_state server_write s)
          λ s'. finished_work (if s'.is_dtls then c.reset_seq_numbers s' else s')

  unfoldable pub server_hello_post_work : Ssl → Ssl × WorkState
  server_hello_post_work s =
      if is_tls13 k s && is_hrr_pending s.hello_retry_request
      then or_return work_more_a (if s.middlebox_compat then (s, true) else flush c s) finished_work
      else if not (is_tls13 k s)
          || (s.middlebox_compat && not (is_hrr_complete s.hello_retry_request))
      then finished_work s
      else server_change_post_work s

  unfoldable pub server_finished_post_work : Ssl → Ssl × WorkState
  server_finished_post_work s = or_return work_more_a (flush c s) λ s1.
      if is_tls13 k s1
      then or_return work_error (c.generate_master_secret s1) (λ s2.
        or_return work_error (c.change_cipher_state application_server_write s2) finished_work)
      else finished_work s1

  unfoldable pub session_ticket_post_work : Ssl → Ssl × WorkState
  session_ticket_post_work s =
      if is_tls13 k s
      then (let (s', flushed) = flush c s in
          if flushed
          then finished_work s'
          else if c.connection_closed s'
          then finished_work (record s' { rwstate = ssl_nothing })
          else (s', work_more_a))
      else finished_work s

  unfoldable pub server_post_work_of : HandState → Ssl → Ssl × WorkState
  server_post_work_of sw_hello_req s =
      or_return work_more_a (flush c s)
        λ s'. or_return work_error (c.init_finished_mac s') finished_work
  server_post_work_of sw_hello_verify_request s = or_return work_more_a (flush c s) λ s1.
      or_return work_error
        (if s1.version == k.dtls1_bad_ver then (s1, true) else c.init_finished_mac s1)
        λ s2. finished_work (record s2 { first_packet = true })
  server_post_work_of sw_srvr_hello s = server_hello_post_work s
  server_post_work_of sw_change s = server_change_post_work s
  server_post_work_of sw_srvr_done s = or_return work_more_a (flush c s) finished_work
  server_post_work_of sw_finished s = server_finished_post_work s
  server_post_work_of sw_cert_req s =
      if is_pha_request_pending s.post_handshake_auth
      then or_return work_more_a (flush c s) finished_work
      else finished_work s
  server_post_work_of sw_key_update s =
      or_return work_more_a (flush c s) λ s'. or_return work_error (c.update_key s') finished_work
  server_post_work_of sw_session_ticket s = session_ticket_post_work s
  server_post_work_of _ s = finished_work s

  -- `ossl_statem_server_post_work`
  unfoldable pub server_post_work : Ssl → Ssl × WorkState
  unfolding server_post_work_of
  server_post_work s = server_post_work_of s.statem.hand_state (record s { init_num = 0 })
