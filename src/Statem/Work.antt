-- ===== src/Statem/Work.antt =====
-- The work before and after a message is written: what it calls, `statem_flush` of
-- ssl/statem/statem.c and `tls_finish_handshake` of ssl/statem/statem_lib.c.
pub mod Finish
pub mod Ends
pub mod Client
pub mod Server
use openssl_3_0_bee2evp.Prelude.{Bool, true, false, not, ◌&&◌, if◌then◌else◌}
use openssl_3_0_bee2evp.Ssl.{
  WorkState, work_error, work_finished_stop, work_finished_continue, pha_ext_sent, ssl_nothing,
  ssl_writing, internal_error, PublicConstants, Ssl, is_tls13, is_pha_requested,
}
use openssl_3_0_bee2evp.Statem.{fatal, set_in_init}

-- The change of keys that `change_cipher_state` is asked for. The first is made by
-- `tls13_change_cipher_state`, since the version is not known yet.
pub data KeyChange : Type 0 where
  early_client_write client_write application_client_write : KeyChange
  handshake_server_write handshake_server_read server_write application_server_write : KeyChange

-- The functions called. Each returns the connection, and whether it succeeded; `everything_else` of
-- the connection is for what they change outside the members that are modelled.
pub record Calls : Type 0 where
  pub bio_flush : Ssl → Ssl × Bool
  pub connection_closed : Ssl → Bool
  pub init_finished_mac : Ssl → Ssl × Bool
  pub clear_sent_buffer : Ssl → Ssl
  pub clear_received_buffer : Ssl → Ssl
  pub reset_seq_numbers : Ssl → Ssl
  pub setup_key_block : Ssl → Ssl × Bool
  pub cleanup_key_block : Ssl → Ssl
  pub change_cipher_state : KeyChange → Ssl → Ssl × Bool
  pub generate_master_secret : Ssl → Ssl × Bool
  pub update_key : Ssl → Ssl × Bool
  pub save_digest_for_pha : Ssl → Ssl × Bool
  pub client_key_exchange_post_work : Ssl → Ssl × Bool
  pub free_wbio_buffer : Ssl → Ssl × Bool
  pub update_cache_server : Ssl → Ssl
  pub update_cache_client : Ssl → Ssl
  pub remove_session : Ssl → Ssl

-- Go on if the call succeeded, and else return the given state of the work.
unfoldable pub or_return : WorkState → Ssl × Bool → (Ssl → Ssl × WorkState) → Ssl × WorkState
or_return w (s, true) next = next s
or_return w (s, false) next = (s, w)

unfoldable pub finished_work : Ssl → Ssl × WorkState
finished_work s = (s, work_finished_continue)

-- `statem_flush`
unfoldable pub flush : Calls → Ssl → Ssl × Bool
flush c s =
    let (s', flushed) = c.bio_flush (record s { rwstate = ssl_writing }) in
    if flushed then (record s' { rwstate = ssl_nothing }, true) else (s', false)

-- The buffers, if they are to be cleared.
unfoldable pub clear_bufs : Calls → Ssl → Ssl × Bool
clear_bufs c s =
    let (s', freed) = c.free_wbio_buffer (if s.is_dtls then s else record s { init_buf = false }) in
    if freed then (record s' { init_num = 0 }, true) else (fatal internal_error s', false)

-- The session cache of a server or a client. The counters of the context are left out.
unfoldable pub update_cache : PublicConstants → Calls → Ssl → Ssl
update_cache k c s =
    if s.server
    then if is_tls13 k s then s else c.update_cache_server s
    else if is_tls13 k s
    then if s.session_cache_client then c.remove_session s else s
    else c.update_cache_client s

unfoldable pub reset_dtls : Calls → Ssl → Ssl
reset_dtls c s =
    if s.is_dtls
    then c.clear_received_buffer
        (record s { handshake_read_seq = 0; handshake_write_seq = 0; next_handshake_write_seq = 0 })
    else s

-- What is done after a handshake with a Finished message.
unfoldable pub clean_up : PublicConstants → Calls → Ssl → Ssl
clean_up k c s =
    if s.statem.cleanuphand
    then reset_dtls c (
        update_cache k c (
          c.cleanup_key_block (record s {
            renegotiate = false;
            new_session = false;
            statem = record (s.statem) { cleanuphand = false };
            ticket_expected = false;
          })))
    else s

unfoldable pub end_pha : PublicConstants → Ssl → Ssl
end_pha k s =
    if is_tls13 k s && not s.server && is_pha_requested s.post_handshake_auth
    then record s { post_handshake_auth = pha_ext_sent }
    else s

-- `tls_finish_handshake`; the callback that it informs is left out.
unfoldable pub finish_handshake : PublicConstants → Calls → Bool → Bool → Ssl → Ssl × WorkState
finish_handshake k c clearbufs stop s =
    or_return work_error (if clearbufs then clear_bufs c s else (s, true)) λ s'.
      let s'' = clean_up k c (end_pha k s') in
      if stop
      then (set_in_init false s'', work_finished_stop)
      else (set_in_init true s'', work_finished_continue)
