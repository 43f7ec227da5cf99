-- ===== src/Statem/Work/Client.antt =====
-- The client's work before and after a message is written (ssl/statem/statem_clnt.c).
use openssl_3_0_bee2evp.Prelude.{
  ℕ, Bool, true, false, not, ◌&&◌, ◌||◌, Option, none, some, ltb, if◌then◌else◌,
}
use openssl_3_0_bee2evp.Ssl.{
  HandState, ok, cw_clnt_hello, cw_key_exch, cw_change, cw_finished, cw_key_update,
  cw_end_of_early_data, early_data, pending_early_data_end, WorkState, work_error, work_more_a,
  work_more_b, PublicConstants, Ssl, is_tls13, is_pha_requested, is_hrr_pending, is_connecting,
  is_finished_writing, is_ed_none,
}
use openssl_3_0_bee2evp.Statem.Work.{
  Calls, early_client_write, client_write, application_client_write, or_return, finished_work,
  flush, finish_handshake,
}

module _ (k : PublicConstants) (c : Calls) where
  unfoldable pub client_pre_work_of : HandState → Ssl → Ssl × WorkState
  client_pre_work_of cw_clnt_hello s =
      let s' = record s { sent_shutdown = false } in
      or_return work_error (if s.is_dtls then c.init_finished_mac s' else (s', true)) finished_work
  client_pre_work_of cw_change s = finished_work (
      if s.is_dtls && s.hit
      then record s { statem = record (s.statem) { use_timer = false } }
      else s)
  client_pre_work_of pending_early_data_end s =
      if is_finished_writing s.early_data_state || is_ed_none s.early_data_state
      then finished_work s
      else finish_handshake k c false true s
  client_pre_work_of early_data s = finish_handshake k c false true s
  client_pre_work_of ok s = finish_handshake k c true true s
  client_pre_work_of _ s = finished_work s

  -- `ossl_statem_client_pre_work`, which leaves its argument `wst` to `tls_finish_handshake`, where
  -- it is not used.
  unfoldable pub client_pre_work : Ssl → Ssl × WorkState
  unfolding client_pre_work_of
  client_pre_work s = client_pre_work_of s.statem.hand_state s

  -- The client has begun to send early data.
  unfoldable pub sends_early : Ssl → Bool
  sends_early s = is_connecting s.early_data_state && ltb 0 s.max_early_data

  unfoldable pub first_packet_next : Ssl → Ssl × WorkState
  first_packet_next s = finished_work (if s.is_dtls then record s { first_packet = true } else s)

  unfoldable pub client_hello_post_work : Ssl → Ssl × WorkState
  client_hello_post_work s =
      if sends_early s
      then if not s.middlebox_compat
        then or_return work_error (c.change_cipher_state early_client_write s) first_packet_next
        else first_packet_next s
      else or_return work_more_a (flush c s) first_packet_next

  abbrev compress_id : Option ℕ → ℕ
  compress_id none = 0
  compress_id (some id) = id

  unfoldable pub client_change_post_work : Ssl → Ssl × WorkState
  client_change_post_work s =
      if is_tls13 k s || is_hrr_pending s.hello_retry_request
      then finished_work s
      else if sends_early s
      then or_return work_error (c.change_cipher_state early_client_write s) finished_work
      else (let s' = record s {
        session_cipher = some s.new_cipher;
        session_compress = compress_id s.new_compression;
      } in
          or_return work_error (c.setup_key_block s') λ s1.
            or_return work_error (c.change_cipher_state client_write s1)
              λ s2. finished_work (if s2.is_dtls then c.reset_seq_numbers s2 else s2))

  unfoldable pub client_finished_post_work : Ssl → Ssl × WorkState
  client_finished_post_work s = or_return work_more_b (flush c s) λ s1.
      if is_tls13 k s1
      then or_return work_error (c.save_digest_for_pha s1) (λ s2.
        if is_pha_requested s2.post_handshake_auth
        then finished_work s2
        else or_return work_error (c.change_cipher_state application_client_write s2) finished_work)
      else finished_work s1

  unfoldable pub client_post_work_of : HandState → Ssl → Ssl × WorkState
  client_post_work_of cw_clnt_hello s = client_hello_post_work s
  client_post_work_of cw_end_of_early_data s = finished_work (record s { enc_write_ctx = false })
  client_post_work_of cw_key_exch s =
      or_return work_error (c.client_key_exchange_post_work s) finished_work
  client_post_work_of cw_change s = client_change_post_work s
  client_post_work_of cw_finished s = client_finished_post_work s
  client_post_work_of cw_key_update s =
      or_return work_more_a (flush c s) λ s'. or_return work_error (c.update_key s') finished_work
  client_post_work_of _ s = finished_work s

  -- `ossl_statem_client_post_work`
  unfoldable pub client_post_work : Ssl → Ssl × WorkState
  unfolding client_post_work_of
  client_post_work s = client_post_work_of s.statem.hand_state (record s { init_num = 0 })
