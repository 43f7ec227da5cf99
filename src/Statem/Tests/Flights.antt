-- ===== src/Statem/Tests/Flights.antt =====
-- Flights that are read to their end, and messages that are refused.
use openssl_3_0_bee2evp.Prelude.{◌≡◌, refl, true, false, [], ◌∷◌, List}
use openssl_3_0_bee2evp.Ssl.{
  cr_srvr_hello, cr_finished, sr_cert, sr_key_exch, sr_finished, sw_srvr_done, MsgType,
  encrypted_extensions, certificate, certificate_request, certificate_verify, finished,
  change_cipher_spec, server_done, next_proto, Ssl,
}
use openssl_3_0_bee2evp.Statem.{finish_read}
use openssl_3_0_bee2evp.Statem.Control.{IsRefusal}
use openssl_3_0_bee2evp.Statem.Trace.{read, done}
use openssl_3_0_bee2evp.Statem.Fixtures.{env, tls12, tls13}
use openssl_3_0_bee2evp.Statem.Client.Read.{
  client13_read_from, client13_read_transition, client_read_from, client_read_transition,
}
use openssl_3_0_bee2evp.Ssl.{
  cr_encrypted_extensions, cr_cert, cr_srvr_done, server_key_exchange, any_psk,
}
use openssl_3_0_bee2evp.Statem.Client.{cert_req_allowed, key_exchange_expected}
use openssl_3_0_bee2evp.Statem.Client.Read.{
  read_cert, read_cert_status, read_key_exch, read_cert_req,
}
use openssl_3_0_bee2evp.Statem.Client.Rejection.{client_read_transition-IsRefusal}
use openssl_3_0_bee2evp.Statem.Client.Flight12 as ClientFlight12
use openssl_3_0_bee2evp.Statem.Client.Flight12.{IsFlight, client12_flight}
use openssl_3_0_bee2evp.Statem.Client.Flight13 as ClientFlight
use openssl_3_0_bee2evp.Statem.Client.Flight13.{IsAuthentication, client13_flight}
use openssl_3_0_bee2evp.Statem.Server.Read.{
  finish_move, server13_read_from, server13_read_transition, read_srvr_done, server_read_key_exch,
  server_read_change, server_read_from, server_read_transition,
}
use openssl_3_0_bee2evp.Statem.Server.Rejection.{server_read_transition-IsRefusal}
use openssl_3_0_bee2evp.Statem.Server.Flight12.{Client, Keeps12, client_finish, server12_flight}
use openssl_3_0_bee2evp.Statem.Server.Flight13 as ServerFlight
use openssl_3_0_bee2evp.Statem.Server.Flight13.{server13_flight}

-- Processing that changes nothing.
client-Keeps13 : (s : Ssl) → ClientFlight.Keeps13 env s s
client-Keeps13 s = record { same_state = refl; same_version = refl; same_hit = refl }

server-Keeps12 : (s : Ssl) → Keeps12 env s s
server-Keeps12 s = record {
  same_state = refl;
  same_version = refl;
  same_peer = refl;
  same_verify = refl;
  same_npn = refl;
}

server-Keeps13 : (s : Ssl) → ServerFlight.Keeps13 env s s
server-Keeps13 s = record { same_state = refl; same_version = refl; same_peer = refl }

abbrev server_authentication : List MsgType
server_authentication = certificate_request ∷ certificate ∷ certificate_verify ∷ finished ∷ []

client13_flight_example :
    (rest : List MsgType) × (encrypted_extensions ∷ server_authentication
      ≡ encrypted_extensions ∷ rest)
    × IsAuthentication false rest
unfolding client_read_transition client13_read_transition client13_read_from
client13_flight_example =
    client13_flight env false (tls13 cr_srvr_hello) (tls13 cr_finished)
      (encrypted_extensions ∷ server_authentication) (record { at = refl; new = refl; hits = refl })
      (read refl (client-Keeps13 _) (
        read refl (client-Keeps13 _) (
          read refl (client-Keeps13 _)
            (read refl (client-Keeps13 _) (read refl (client-Keeps13 _) done)))))
      refl

-- A client with a certificate to verify, and the next protocol extension.
abbrev npn_client : Client
npn_client = record { peer = true; no_verify = false; npn = true }

server12_flight_example :
    certificate_verify ∷ change_cipher_spec ∷ next_proto ∷ finished ∷ [] ≡ client_finish npn_client
unfolding server_read_transition server_read_from server_read_key_exch server_read_change
    finish_move finish_read
server12_flight_example =
    server12_flight env npn_client (record (tls12 sr_key_exch) { npn_seen = true })
      (record (tls12 sr_finished) { npn_seen = true })
      (certificate_verify ∷ change_cipher_spec ∷ next_proto ∷ finished ∷ [])
      (record { at = refl; old = refl; peers = refl; verifies = refl; npns = refl })
      (read refl (server-Keeps12 _) (
        read refl (server-Keeps12 _)
          (read refl (server-Keeps12 _) (read refl (server-Keeps12 _) done))))
      refl

server13_flight_example : certificate_verify ∷ finished ∷ [] ≡ certificate_verify ∷ finished ∷ []
unfolding server_read_transition server13_read_transition server13_read_from
server13_flight_example =
    server13_flight env true (tls13 sr_cert) (tls13 sr_finished)
      (certificate_verify ∷ finished ∷ []) (record { at = refl; new = refl; peers = refl })
      (read refl (server-Keeps13 _) (read refl (server-Keeps13 _) done)) refl

-- Finished where the client's key exchange is due.
server_read_transition-IsRefusal_example :
    IsRefusal finished (server_read_transition env (tls12 sw_srvr_done) finished).0
unfolding server_read_transition server_read_from read_srvr_done finish_move finish_read
server_read_transition-IsRefusal_example =
    server_read_transition-IsRefusal env (tls12 sw_srvr_done) finished refl

-- Finished where the server's Certificate is due.
client_read_transition-IsRefusal_example :
    IsRefusal finished (client_read_transition env (tls13 cr_encrypted_extensions) finished).0
unfolding client_read_transition client13_read_transition client13_read_from finish_read
client_read_transition-IsRefusal_example =
    client_read_transition-IsRefusal env (tls13 cr_encrypted_extensions) finished refl

-- Processing that changes nothing, on a client below TLSv1.3.
client-Keeps12 : (s : Ssl) → ClientFlight12.Keeps12 env s s
client-Keeps12 s = record {
  same_state = refl;
  same_tls13 = refl;
  same_version = refl;
  same_cipher = refl;
  same_status = refl;
}

abbrev server_flight : List MsgType
server_flight = server_key_exchange ∷ certificate_request ∷ server_done ∷ []

client12_flight_example :
    IsFlight
      (tls12 cr_cert).status_expected
      (key_exchange_expected (tls12 cr_cert))
      (any_psk (tls12 cr_cert).new_cipher)
      (cert_req_allowed env.consts (tls12 cr_cert))
      server_flight
unfolding client_read_transition client_read_from read_cert read_cert_status read_key_exch
    read_cert_req key_exchange_expected cert_req_allowed finish_read
client12_flight_example =
    client12_flight env (tls12 cr_cert) (tls12 cr_srvr_done) server_flight refl refl
      (read refl (client-Keeps12 _)
        (read refl (client-Keeps12 _) (read refl (client-Keeps12 _) done)))
      refl
