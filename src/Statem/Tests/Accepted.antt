-- ===== src/Statem/Tests/Accepted.antt =====
-- Messages that a server writes, and what the client makes of them.
use openssl_3_0_bee2evp.Prelude.{◌≡◌, ◌⊎◌, refl, true, false}
use openssl_3_0_bee2evp.Ssl.{
  cr_cert, cr_srvr_hello, cr_key_exch, cr_encrypted_extensions, sw_cert, sw_change, sw_key_exch,
  sw_encrypted_extensions, sw_srvr_done, server_key_exchange, encrypted_extensions,
  change_cipher_spec, server_done, Ssl,
}
use openssl_3_0_bee2evp.Statem.Control.{HasFailed}
use openssl_3_0_bee2evp.Statem.Fixtures.{env, ecdhe, tls12, tls13}
use openssl_3_0_bee2evp.Statem.Client.Read.{client_read_transition}
use openssl_3_0_bee2evp.Statem.Server.{send_server_key_exchange, send_certificate_request}
use openssl_3_0_bee2evp.Statem.Server.Write.{
  after_key_exch, after_cert_status, after_cert, server_write_from, server13_write_from,
  server13_write_transition, server_write_transition,
}
use openssl_3_0_bee2evp.Statem.Server.Messages.{
  construct_server_key_exchange, construct_encrypted_extensions, construct_server_done,
  server_message_of, server_construct_message,
}
use openssl_3_0_bee2evp.Statem.Agreement.{Accepts, mirror13}
use openssl_3_0_bee2evp.Statem.Agreement.Server12.{server12_accepted}
use openssl_3_0_bee2evp.Statem.Agreement.Server13.{server13_accepted}
use openssl_3_0_bee2evp.Statem.Agreement.DhtPsk.{dht_psk_fails}
use openssl_3_0_bee2evp.Ssl.{
  cw_cert, cw_key_exch, cw_cert_vrfy, sr_cert, sr_key_exch, sr_cert_vrfy, certificate_verify,
}
use openssl_3_0_bee2evp.Statem.Client.Write.{
  client13_write_from, client13_write_transition, client_write_from, client_write_transition,
}
use openssl_3_0_bee2evp.Statem.Client.Messages.{
  ClientConstruct, client_message_of, client_construct_message,
}
use openssl_3_0_bee2evp.Statem.Server.Read.{server_read_transition}
use openssl_3_0_bee2evp.Statem.Server.Length.{write, done, server12_write_bounded}
use openssl_3_0_bee2evp.Statem.Server.Write.{after_srvr_hello}
use openssl_3_0_bee2evp.Ssl.{sw_srvr_hello}
use openssl_3_0_bee2evp.Prelude.{◌≤◌}
use openssl_3_0_bee2evp.Statem.Agreement.Client12.{client12_accepted}
use openssl_3_0_bee2evp.Statem.Agreement.Client13.{IsUnseen, client13_accepted}

-- A client that has a certificate to sign with.
abbrev signing : Ssl → Ssl
signing s = record s { cert_req = 1 }

server12_accepted_example :
    Accepts cr_key_exch (client_read_transition env (tls12 cr_cert) server_key_exchange)
unfolding server_write_transition server_write_from after_cert after_cert_status
    send_server_key_exchange server_construct_message server_message_of
server12_accepted_example =
    server12_accepted env (tls12 sw_cert) (tls12 cr_cert) (tls12 sw_key_exch) (tls12 sw_key_exch)
      construct_server_key_exchange server_key_exchange
      (record {
        server_old = refl;
        client_old = refl;
        same_hit = refl;
        same_cipher = refl;
        same_ticket = refl;
        status = λ h. h;
        hint = λ h. h;
        anon = λ h. refl;
      })
      tt refl refl refl

server13_accepted_example :
    Accepts cr_encrypted_extensions
      (client_read_transition env (tls13 cr_srvr_hello) encrypted_extensions)
    ⊎ ((encrypted_extensions ≡ change_cipher_spec)
        × (mirror13 sw_encrypted_extensions ≡ mirror13 sw_change))
unfolding server_write_transition server13_write_transition server13_write_from
    server_construct_message server_message_of
server13_accepted_example =
    server13_accepted env (tls13 sw_change) (tls13 cr_srvr_hello) (tls13 sw_encrypted_extensions)
      (tls13 sw_encrypted_extensions) construct_encrypted_extensions encrypted_extensions
      (record {
        server_new = refl;
        client_new = refl;
        same_hit = refl;
        no_retry = refl;
        no_pha = refl;
      })
      tt refl refl refl

-- The key exchange DHT-PSK with a certificate; there is no identity hint and no request for a
-- client certificate.
abbrev dht_psk : Ssl → Ssl
dht_psk s = record s {
  new_cipher = record ecdhe { k_ecdhe = false; k_bdhtpsk = true };
  verify_peer = false;
}

dht_psk_fails_example :
    let (c', allowed) = client_read_transition env (dht_psk (tls12 cr_cert)) server_done in
    (allowed ≡ false) × HasFailed c'
unfolding server_write_transition server_write_from after_cert after_cert_status after_key_exch
    send_server_key_exchange send_certificate_request server_construct_message server_message_of
dht_psk_fails_example =
    dht_psk_fails env (dht_psk (tls12 sw_cert)) (dht_psk (tls12 cr_cert))
      (dht_psk (tls12 sw_srvr_done)) (dht_psk (tls12 sw_srvr_done)) construct_server_done
      server_done
      (record {
        server_old = refl;
        client_old = refl;
        same_cipher = refl;
        dht_psk = refl;
        no_message = refl;
        no_status = refl;
        server_at = refl;
        client_at = refl;
      })
      refl refl

client12_accepted_example :
    Accepts sr_cert_vrfy (server_read_transition env (tls12 sr_key_exch) certificate_verify)
unfolding client_write_transition client_write_from client_construct_message client_message_of
client12_accepted_example =
    client12_accepted env (signing (tls12 cw_key_exch)) (tls12 sr_key_exch)
      (signing (tls12 cw_cert_vrfy)) (signing (tls12 cw_cert_vrfy))
      ClientConstruct.construct_cert_verify certificate_verify
      (record {
        client_old = refl;
        server_old = refl;
        requested = refl;
        signs = λ h. refl;
        same_npn = refl;
        no_retry = refl;
        no_early = refl;
      })
      tt refl refl refl

client13_accepted_example :
    Accepts sr_cert_vrfy (server_read_transition env (tls13 sr_cert) certificate_verify)
    ⊎ (IsUnseen certificate_verify × (sr_cert_vrfy ≡ sr_cert))
unfolding client_write_transition client13_write_transition client13_write_from
    client_construct_message client_message_of
client13_accepted_example =
    client13_accepted env (signing (tls13 cw_cert)) (tls13 sr_cert) (signing (tls13 cw_cert_vrfy))
      (signing (tls13 cw_cert_vrfy)) ClientConstruct.construct_cert_verify certificate_verify
      (record {
        client_new = refl;
        server_new = refl;
        requested = refl;
        signs = λ h. refl;
        same_early = refl;
        no_retry = refl;
        wrote_early = λ h. cc;
        change_without_early = λ h. refl;
      })
      tt refl refl refl

-- From a ServerHello, by Certificate, to ServerKeyExchange.
server12_write_bounded_example : 2 ≤ 8
unfolding server_write_transition server_write_from after_srvr_hello after_cert after_cert_status
    send_server_key_exchange
server12_write_bounded_example =
    server12_write_bounded env (tls12 sw_srvr_hello) (tls12 sw_key_exch) 2 refl (
      write {s' = tls12 sw_cert} {u = tls12 sw_cert} refl
        (record { same_state = refl; same_request = refl; same_version = refl })
        (write {s' = tls12 sw_key_exch} {u = tls12 sw_key_exch} refl
          (record { same_state = refl; same_request = refl; same_version = refl }) done))
