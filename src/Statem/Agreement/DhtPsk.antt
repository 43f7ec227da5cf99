-- ===== src/Statem/Agreement/DhtPsk.antt =====
-- The key exchange DHT-PSK without an identity hint: `send_server_key_exchange` of
-- ssl/statem/statem_srvr.c against `key_exchange_expected` of ssl/statem/statem_clnt.c.
use openssl_3_0_bee2evp.Prelude.{◌≡◌, refl, true, false, some, arith}
use openssl_3_0_bee2evp.Ssl.{
  cr_cert, sw_cert, MsgType, ◌is◌, server_key_exchange, certificate_status, change_cipher_spec,
  unexpected_message, tran_continue, Env, Ssl, is_tls13,
}
use openssl_3_0_bee2evp.Statem.{unexpected, finish_read}
use openssl_3_0_bee2evp.Statem.Control.{HasFailed, fatal-HasFailed}
use openssl_3_0_bee2evp.Statem.Client.{key_exchange_expected}
use openssl_3_0_bee2evp.Statem.Client.Read.{
  read_cert_status, read_cert, client_read_from, client_read_transition,
}
use openssl_3_0_bee2evp.Statem.Server.{send_server_key_exchange}
use openssl_3_0_bee2evp.Statem.Server.Write.{
  after_key_exch, after_cert_status, after_cert, server_write_from, server_write_transition,
}
use openssl_3_0_bee2evp.Statem.Server.Messages.{
  ServerConstruct, server_message_of, server_construct_message,
}
use openssl_3_0_bee2evp.Statem.Agreement.{write-old, construct-message_of}

-- The two sides after the server's Certificate, in a cipher suite with the key exchange DHT-PSK
-- for which the server has no ServerKeyExchange to send and staples no certificate status.
pub record Stuck (e : Env) (s c : Ssl) : Type 0 where
  pub server_old : is_tls13 e.consts s ≡ false
  pub client_old : is_tls13 e.consts c ≡ false
  pub same_cipher : c.new_cipher ≡ s.new_cipher
  pub dht_psk : s.new_cipher.k_bdhtpsk ≡ true
  pub no_message : send_server_key_exchange s ≡ false
  pub no_status : s.status_expected ≡ false
  pub server_at : s.statem.hand_state ≡ sw_cert
  pub client_at : c.statem.hand_state ≡ cr_cert

module _ (e : Env) (s c s' : Ssl) (f : ServerConstruct) (mt : MsgType) (k : Stuck e s c) where
  expected : key_exchange_expected c ≡ true
  unfolding key_exchange_expected
  expected = ground (arith, k.same_cipher, k.dht_psk)

  -- What the server sends instead.
  sends :
      server_message_of (after_cert e s) s' ≡ some (f, mt)
      → ((mt is server_key_exchange) ≡ false)
        × ((mt is certificate_status) ≡ false)
        × ((mt is change_cipher_spec) ≡ false)
  unfolding after_cert after_cert_status after_key_exch server_message_of
  sends m = ground (arith, k.no_message, k.no_status)

  refuses :
      server_message_of (after_cert e s) s' ≡ some (f, mt)
      → client_read_transition e c mt ≡ (unexpected mt c, false)
  unfolding client_read_transition client_read_from read_cert read_cert_status finish_read
  refuses m = simp (k.client_old, k.client_at) (ground (arith, expected, sends m))

  fails : (mt is change_cipher_spec) ≡ false → HasFailed (unexpected mt c)
  unfolding unexpected
  fails n = ground (arith, fatal-HasFailed unexpected_message c)

-- In a cipher suite with the key exchange DHT-PSK, if the server has no ServerKeyExchange to send,
-- as when it has no identity hint, and staples no certificate status, then the client refuses the
-- message that follows the server's Certificate, and its connection fails for good. Both sides are below
-- TLSv1.3 and have the same cipher suite; the server has just written its Certificate and the client
-- has just read it.
pub dht_psk_fails :
    (e : Env) (s c s' s'' : Ssl) (f : ServerConstruct) (mt : MsgType)
    → Stuck e s c
    → server_write_transition e s ≡ (s', tran_continue)
    → server_construct_message s' ≡ (s'', some (f, mt))
    → let (c', allowed) = client_read_transition e c mt in (allowed ≡ false) × HasFailed c'
unfolding server_write_from
dht_psk_fails e s c s' s'' f mt k w m =
    let w' = write-old e s s' tran_continue (k.server_old) w in
    let at : s'.statem.hand_state ≡ after_cert e s = ground (arith, w', k.server_at) in
    let own = construct-message_of s' s'' f mt m in
    let sent = simp at at own in
    rw (refuses e s c s' f mt k sent) (refl, fails e s c s' f mt k (sends e s c s' f mt k sent).2)
