-- ===== src/Statem/Client.antt =====
-- The client's predicates on the cipher suite (ssl/statem/statem_clnt.c).
pub mod Read
pub mod Messages
pub mod Process
pub mod Dispatch
pub mod Sends
pub mod Write
pub mod Rejection
pub mod Flight12
pub mod Flight13
use openssl_3_0_bee2evp.Prelude.{Bool, true, not, ◌&&◌, ◌||◌, ltb}
use openssl_3_0_bee2evp.Ssl.{PublicConstants, Ssl}

unfoldable pub cert_req_allowed : PublicConstants → Ssl → Bool
cert_req_allowed k s = not (
    (ltb k.ssl3_version s.version && s.new_cipher.a_null)
    || (s.new_cipher.a_srp || s.new_cipher.a_psk))

unfoldable pub key_exchange_expected : Ssl → Bool
key_exchange_expected s =
    c.k_dhe || c.k_ecdhe || c.k_dhepsk || c.k_ecdhepsk || c.k_srp || c.k_bdhe || c.k_bdhepsk
    || c.k_bdhtpsk
  where
    open s use {new_cipher as c}
