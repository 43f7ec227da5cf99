-- ===== src/Statem/Server.antt =====
-- The server's predicates on the cipher suite and the verify mode (ssl/statem/statem_srvr.c).
pub mod Read
pub mod Messages
pub mod Process
pub mod Dispatch
pub mod Sends
pub mod Length
pub mod Write
pub mod Rejection
pub mod Flight12
pub mod Flight13
use openssl_3_0_bee2evp.Prelude.{Bool, true, not, ◌&&◌, ◌||◌, ltb}
use openssl_3_0_bee2evp.Ssl.{PublicConstants, Ssl, is_tls13, is_pha_request_pending}

unfoldable pub send_server_key_exchange : Ssl → Bool
send_server_key_exchange s =
    c.k_dhe
    || c.k_ecdhe
    || ((c.k_psk || c.k_rsapsk || c.k_bdhtpsk) && s.psk_identity_hint)
    || (c.k_dhepsk || c.k_ecdhepsk || c.k_bdhepsk)
    || c.k_srp
    || c.k_bdhe
  where
    open s use {new_cipher as c}

unfoldable pub send_certificate_request : PublicConstants → Ssl → Bool
send_certificate_request k s =
    s.verify_peer
    && (not (is_tls13 k s)
        || not s.verify_post_handshake
        || is_pha_request_pending s.post_handshake_auth)
    && (ltb s.certreqs_sent 1 || not s.verify_client_once)
    && (not s.new_cipher.a_null || s.verify_fail_if_no_peer_cert)
    && not s.new_cipher.a_srp
    && not s.new_cipher.a_psk
