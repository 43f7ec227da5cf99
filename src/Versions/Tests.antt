-- ===== src/Versions/Tests.antt =====
-- A client and a server of TLS; the numbers are those of the public headers.
use openssl_3_0_bee2evp.Prelude.{
  zero, suc, ap, sym, subst, ◌∙◌, ℕ, ◌<◌, ◌≤◌, ◌≡◌, refl, true, false, Option, none, some, List, [],
  ◌∷◌, length, arith, ◌==◌,
}
use openssl_3_0_bee2evp.Ssl.{hrr_none}
use openssl_3_0_bee2evp.Versions.{
  Config, Handle, IsNumbered, tls_method, tls_version_table, unsupported_protocol,
  inappropriate_fallback, version_cmp, method_error, supported_in, version_supported,
  check_version_downgrade,
}
use openssl_3_0_bee2evp.Versions.Server.{
  downgrade_none, downgrade_to_1_2, choose_server_version, check_for_downgrade, best_of,
  choose_legacy,
}
use openssl_3_0_bee2evp.Versions.Range.{Bounds, range_loop, get_min_max_version, range}
use openssl_3_0_bee2evp.Versions.Client.{
  not_present, fatal_error, illegal_parameter, choose_client_version, construct_supported_versions,
  offered,
}
use openssl_3_0_bee2evp.Versions.Random.{fill_hello_random, tls12downgrade}
use openssl_3_0_bee2evp.Versions.Tables.{IsFlexible}
use openssl_3_0_bee2evp.Versions.Best.{
  IsChoice, greatest, supports, told, listed, choose_server_version-greatest,
}
use openssl_3_0_bee2evp.Versions.Legacy.{
  served, legacy_error, unlisted, ceiling, up_to, choose_server_version-legacy,
}
use openssl_3_0_bee2evp.Versions.Failing.{IsFaithful, choose_server_version-IsFaithful}
use openssl_3_0_bee2evp.Versions.Fallback.{any_version, check_version_downgrade-greatest}
use openssl_3_0_bee2evp.Versions.Contiguous.{
  ends, run_ends, lowest_run, get_min_max_version-lowest_run,
}
use openssl_3_0_bee2evp.Versions.Accepting.{IsAllOrNothing, choose_client_version-IsAllOrNothing}
use openssl_3_0_bee2evp.Versions.Sentinel.{Proposes, by_hello, tampering_refused}
use openssl_3_0_bee2evp.Versions.Honest.{IsAgreed, honest-IsAgreed}

-- A build without SSLv3.
abbrev config : Config
config = record {
  ssl3 = 0x300;
  tls1 = 0x301;
  tls1_1 = 0x302;
  tls1_2 = 0x303;
  tls1_3 = 0x304;
  tls_any = 0x10000;
  dtls1_2 = 0xfefd;
  dtls1 = 0xfeff;
  dtls1_bad_ver = 0x100;
  dtls_any = 0x1ffff;
  op_no_sslv3 = 0x2000000;
  op_no_tlsv1 = 0x4000000;
  op_no_tlsv1_1 = 0x10000000;
  op_no_tlsv1_2 = 0x8000000;
  op_no_tlsv1_3 = 0x20000000;
  op_no_dtlsv1 = 0x4000000;
  op_no_dtlsv1_2 = 0x8000000;
  no_ssl3 = true;
  no_tls1 = false;
  no_tls1_1 = false;
  no_tls1_2 = false;
  no_tls1_3 = false;
  no_dtls1 = false;
  no_dtls1_2 = false;
}

config-IsNumbered : IsNumbered config
config-IsNumbered = record {
  low = omega arith;
  tls1_next = refl;
  tls1_1_next = refl;
  tls1_2_next = refl;
  tls1_3_next = refl;
}

abbrev no_bytes : List ℕ
no_bytes = []

abbrev zeros : List ℕ
zeros = 0 ∷ 0 ∷ 0 ∷ 0 ∷ 0 ∷ 0 ∷ 0 ∷ 0 ∷ 0 ∷ 0 ∷ 0 ∷ 0 ∷ []

-- A client that allows TLSv1.1 and above.
abbrev client : Handle
client = record {
  server = false;
  method = tls_method 0x10000 false 0;
  no_method = false;
  ctx_method = tls_method 0x10000 false 0;
  version = 0x304;
  client_version = 0x303;
  min_proto_version = 0x302;
  max_proto_version = 0;
  options = 0;
  suiteb = false;
  security = λ v. true;
  has_ctx = true;
  has_session_ctx = true;
  servername_cb = false;
  session_servername_cb = false;
  psk_server_callback = false;
  psk_find_session_cb = false;
  cert_cb = false;
  has_cert = λ i. false;
  sigalg_curve = false;
  hello_retry_request = hrr_none;
  send_fallback_scsv = false;
  first_handshake = true;
  server_random = zeros;
}

-- A server with an RSA certificate and all versions.
abbrev server : Handle
server = record client { server = true; min_proto_version = 0; has_cert = λ i. i == 0 }

-- A server that has settled on TLSv1.2.
abbrev settled : Handle
settled = record server { version = 0x303; method = tls_method 0x303 false 0x8000000 }

-- The same without TLSv1.3.
abbrev older_server : Handle
older_server = record server { options = 0x20000000 }

client-IsFlexible : IsFlexible config client
client-IsFlexible = record { any = refl; not_dtls = refl }

server-IsFlexible : IsFlexible config server
server-IsFlexible = record { any = refl; not_dtls = refl }

older_server-IsFlexible : IsFlexible config older_server
older_server-IsFlexible = record { any = refl; not_dtls = refl }

client_offers : construct_supported_versions config client ≡ offered (0x304 ∷ 0x303 ∷ 0x302 ∷ [])
unfolding construct_supported_versions get_min_max_version range_loop method_error version_cmp
client_offers = refl

server_takes_the_best :
    (choose_server_version config server
      (listed 0x303 (0x302 ∷ 0x304 ∷ 0x303 ∷ []))
      downgrade_none).handle.version
    ≡ 0x304
unfolding choose_server_version best_of version_supported supported_in method_error version_cmp
    check_for_downgrade
server_takes_the_best = refl

server_marks_the_fallback :
    (choose_server_version config server (unlisted 0x303) downgrade_none).dgrd ≡ downgrade_to_1_2
unfolding choose_server_version choose_legacy version_supported supported_in method_error
    version_cmp check_for_downgrade
server_marks_the_fallback = refl

choose_server_version-greatest_example :
    IsChoice server downgrade_none
      (greatest (supports config (told server 0x303)) (0x302 ∷ 0x304 ∷ []))
      unsupported_protocol
      (choose_server_version config server (listed 0x303 (0x302 ∷ 0x304 ∷ [])) downgrade_none)
choose_server_version-greatest_example =
    choose_server_version-greatest config server 0x303 (0x302 ∷ 0x304 ∷ []) downgrade_none
      server-IsFlexible refl (omega arith)

choose_server_version-legacy_example :
    IsChoice server downgrade_none
      (greatest
        (up_to (ceiling config 0x303))
        (served config (told server 0x303) (tls_version_table config)))
      (legacy_error config
        (told server 0x303)
        (ceiling config 0x303)
        false
        (tls_version_table config))
      (choose_server_version config server (unlisted 0x303) downgrade_none)
choose_server_version-legacy_example =
    choose_server_version-legacy config server 0x303 downgrade_none config-IsNumbered
      server-IsFlexible refl

choose_server_version-IsFaithful_example :
    IsFaithful
      (told server 0x200)
      downgrade_none
      (choose_server_version config server (unlisted 0x200) downgrade_none)
choose_server_version-IsFaithful_example =
    choose_server_version-IsFaithful config server (unlisted 0x200) downgrade_none

check_version_downgrade-greatest_example :
    check_version_downgrade config settled
    ≡ (0x303 == greatest any_version (served config settled (tls_version_table config)))
check_version_downgrade-greatest_example =
    check_version_downgrade-greatest config settled config-IsNumbered refl (λ e. omega (arith, e))
      (omega arith)

get_min_max_version-lowest_run_example :
    ends (get_min_max_version config client true)
    ≡ run_ends (lowest_run config client (tls_version_table config))
get_min_max_version-lowest_run_example =
    get_min_max_version-lowest_run config client true config-IsNumbered client-IsFlexible

choose_client_version-IsAllOrNothing_example :
    IsAllOrNothing client (choose_client_version config client 0x301 not_present)
choose_client_version-IsAllOrNothing_example =
    choose_client_version-IsAllOrNothing config client 0x301 not_present

-- A source of zeros.
abbrev repeat : ℕ → List ℕ
repeat zero = []
repeat (suc n) = 0 ∷ repeat n

abbrev rand : ℕ → Option (List ℕ)
rand n = some (repeat n)

repeat-length : (n : ℕ) → length (repeat n) ≡ n
repeat-length zero = refl
repeat-length (suc n) = ap suc (repeat-length n)

rand_promise : (n : ℕ) (bytes : List ℕ) → rand n ≡ some bytes → length bytes ≡ n
rand_promise n bytes e =
    let same : repeat n ≡ bytes = ground (arith, e) in ap length (sym same) ∙ repeat-length n

-- The client after a ServerHello whose random number carries the sentinel.
abbrev warned : Handle
warned = record client { server_random = 0 ∷ 0 ∷ 0 ∷ 0 ∷ tls12downgrade }

abbrev bounds : Bounds
bounds = record { min = 0x302; max = 0x304; real_max = 0x304 }

warned-IsFlexible : IsFlexible config warned
warned-IsFlexible = record { any = refl; not_dtls = refl }

warned_range : get_min_max_version config warned true ≡ range bounds
unfolding get_min_max_version range_loop method_error version_cmp
warned_range = refl

client_range : get_min_max_version config client true ≡ range bounds
unfolding get_min_max_version range_loop method_error version_cmp
client_range = refl

server_has_1_3 : supports config (told server 0x303) 0x304 ≡ true
unfolding version_supported supported_in method_error version_cmp
server_has_1_3 = refl

server_has_1_2 : supports config (told server 0x303) 0x303 ≡ true
unfolding version_supported supported_in method_error version_cmp
server_has_1_2 = refl

server_takes_legacy : choose_server_version config server (unlisted 0x303) downgrade_none ≡ record {
  error = none;
  handle = record (told server 0x303) {
    version = 0x303;
    method = tls_method 0x303 false 0x8000000;
  };
  dgrd = downgrade_to_1_2;
}
unfolding choose_server_version choose_legacy version_supported supported_in method_error
    version_cmp check_for_downgrade
server_takes_legacy = refl

warned_random :
    fill_hello_random rand (0 ∷ 0 ∷ 0 ∷ 0 ∷ []) true 12 downgrade_to_1_2
    ≡ some (0 ∷ 0 ∷ 0 ∷ 0 ∷ tls12downgrade)
unfolding fill_hello_random
warned_random = refl

tampering_refused_example :
    choose_client_version config warned 0x303 not_present
    ≡ (fatal_error illegal_parameter inappropriate_fallback, warned)
tampering_refused_example =
    tampering_refused config warned server (unlisted 0x303) downgrade_none rand (0 ∷ 0 ∷ 0 ∷ 0 ∷ [])
      true 12 0x303 not_present bounds config-IsNumbered warned-IsFlexible server-IsFlexible refl
      refl server_has_1_3 server_has_1_2 (ap (λ c. c.error) server_takes_legacy)
      (subst (λ c. c.handle.version < 0x304) (sym server_takes_legacy) (omega arith)) refl
      rand_promise
      (ap (λ c. fill_hello_random rand (0 ∷ 0 ∷ 0 ∷ 0 ∷ []) true 12 c.dgrd) server_takes_legacy
        ∙ warned_random)
      (subst (λ c. Proposes c.handle.version 0x303 not_present) (sym server_takes_legacy) by_hello)
      warned_range refl
      (subst (λ c. 0x302 ≤ c.handle.version) (sym server_takes_legacy) (omega arith))

older_takes :
    greatest (supports config (told older_server 0x303)) (0x304 ∷ 0x303 ∷ 0x302 ∷ []) ≡ 0x303
unfolding greatest version_supported supported_in method_error version_cmp
older_takes = refl

honest-IsAgreed_example :
    IsAgreed
      (greatest (supports config (told older_server 0x303)) (0x304 ∷ 0x303 ∷ 0x302 ∷ []))
      (choose_server_version config older_server
        (listed 0x303 (0x304 ∷ 0x303 ∷ 0x302 ∷ []))
        downgrade_none)
      (choose_client_version config client 0x303 not_present)
honest-IsAgreed_example =
    honest-IsAgreed config client older_server (0x304 ∷ 0x303 ∷ 0x302 ∷ []) bounds 0x303
      downgrade_none 0x303 not_present config-IsNumbered client-IsFlexible older_server-IsFlexible
      refl refl client_range refl client_offers (omega arith)
      (subst (λ v. 0 < v) (sym older_takes) (omega arith))
      (subst (λ v. Proposes v 0x303 not_present) (sym older_takes) by_hello) refl refl
