-- ===== src/Versions/Server.antt =====
-- The server's choice: `check_for_downgrade` and `ssl_choose_server_version` of
-- ssl/statem/statem_lib.c.
use openssl_3_0_bee2evp.Prelude.{
  ℕ, Bool, true, false, not, ◌&&◌, Option, none, some, List, [], ◌∷◌, ltb, leb, ◌==◌, if◌then◌else◌,
}
use openssl_3_0_bee2evp.Ssl.{is_hrr_none}
use openssl_3_0_bee2evp.Versions.{
  Config, Method, VersionInfo, Handle, Reason, unsupported_protocol, wrong_ssl_version,
  length_mismatch, bad_legacy_version, version_too_low, is_less, is_greater, version_cmp,
  tls_version_table, dtls_version_table, is_enabled, unsupported, supported, is_supported,
  version_supported,
}

-- `DOWNGRADE`
pub data Downgrade : Type 0 where
  downgrade_none downgrade_to_1_2 downgrade_to_1_1 : Downgrade

-- What the packet functions make of the supported_versions extension: absent, with a wrong length
-- prefix, or a list of 16-bit numbers, and whether a byte remains after them.
pub data SuppVersions : Type 0 where
  absent bad_prefix : SuppVersions
  versions : List ℕ → Bool → SuppVersions

pub record Hello : Type 0 where
  pub legacy_version : ℕ
  pub suppversions : SuppVersions

-- An error reason, `none` for 0; the connection; and `*dgrd`.
pub record Choice : Type 0 where
  pub error : Option Reason
  pub handle : Handle
  pub dgrd : Downgrade

unfoldable pub check_for_downgrade : Config → Handle → ℕ → Downgrade
check_for_downgrade k s vers =
    if vers == k.tls1_2 && is_supported (version_supported k s k.tls1_3)
    then downgrade_to_1_2
    else if not s.method.is_dtls
        && ltb vers k.tls1_2
        && is_supported (version_supported k s k.tls1_2)
    then downgrade_to_1_1
    else downgrade_none

-- `best_vers` and `best_method`.
pub record Best : Type 0 where
  pub vers : ℕ
  pub method : Option Method

-- The body of the loop over the client's versions.
abbrev pub better : Config → Handle → ℕ → Best → Best
better k s candidate best =
    if not (is_greater (version_cmp k s candidate best.vers))
    then best
    else elim (version_supported k s candidate) [
      | unsupported ↦ best
      | supported none ↦ record best { vers = candidate }
      | supported (some m) ↦ record { vers = candidate; method = some m }
    ]

unfoldable pub best_of : Config → Handle → List ℕ → Best → Best
best_of k s [] best = best
best_of k s (candidate ∷ list) best = best_of k s list (better k s candidate best)

-- `s->version` and `s->method` are set.
abbrev pub set_version : ℕ → Option Method → Handle → Handle
set_version v none s = record s { version = v; no_method = true }
set_version v (some m) s = record s { version = v; method = m }

-- After the loop; `trailing` is `PACKET_remaining(&versionslist) != 0`.
abbrev pub settle : Config → Handle → Downgrade → Bool → Best → Choice
settle k s dgrd trailing best =
    if trailing
    then record { error = some length_mismatch; handle = s; dgrd = dgrd }
    else if not (ltb 0 best.vers)
    then record { error = some unsupported_protocol; handle = s; dgrd = dgrd }
    else if not (is_hrr_none s.hello_retry_request)
    then (if not (best.vers == k.tls1_3)
        then record { error = some unsupported_protocol; handle = s; dgrd = dgrd }
        else record { error = none; handle = s; dgrd = dgrd })
    else record {
      error = none;
      handle = set_version best.vers best.method s;
      dgrd = check_for_downgrade k s best.vers;
    }

-- With the extension.
abbrev pub choose_listed : Config → Handle → Downgrade → List ℕ → Bool → Choice
choose_listed k s dgrd list trailing =
    if leb s.client_version k.ssl3
    then record { error = some bad_legacy_version; handle = s; dgrd = dgrd }
    else settle k s dgrd trailing (best_of k s list (record { vers = 0; method = none }))

-- Without the extension: the loop over the table.
unfoldable pub choose_legacy : Config → Handle → Downgrade → ℕ → Bool → List VersionInfo → Choice
choose_legacy k s dgrd client_version disabled [] = record {
  error = some (if disabled then unsupported_protocol else version_too_low);
  handle = s;
  dgrd = dgrd;
}
choose_legacy k s dgrd client_version disabled (vent ∷ table) =
    let skipped = choose_legacy k s dgrd client_version disabled table in
    let refused = choose_legacy k s dgrd client_version true table in
    elim (vent.smeth) [
      | none ↦ skipped
      | some m ↦
          if is_less (version_cmp k s client_version vent.version)
          then skipped
          else if is_enabled k s m
          then record {
            error = none;
            handle = set_version vent.version (some m) s;
            dgrd = check_for_downgrade k s vent.version;
          }
          else refused
    ]

abbrev pub capped : Config → Handle → ℕ → ℕ
capped k s client_version =
    if not (is_less (version_cmp k s client_version k.tls1_3)) then k.tls1_2 else client_version

-- From the point where the table is known. `s.client_version` is the version in the ClientHello.
abbrev pub choose_in : Config → Handle → SuppVersions → Downgrade → List VersionInfo → Choice
choose_in k s absent dgrd table =
    if not (is_hrr_none s.hello_retry_request)
    then record { error = some unsupported_protocol; handle = s; dgrd = dgrd }
    else choose_legacy k s dgrd (capped k s s.client_version) false table
choose_in k s bad_prefix dgrd table =
    if not s.method.is_dtls
    then record { error = some length_mismatch; handle = s; dgrd = dgrd }
    else choose_legacy k s dgrd (capped k s s.client_version) false table
choose_in k s (versions list trailing) dgrd table =
    if not s.method.is_dtls
    then choose_listed k s dgrd list trailing
    else choose_legacy k s dgrd (capped k s s.client_version) false table

-- `SSL_IS_TLS13`
abbrev pub is_tls13 : Config → Handle → Bool
is_tls13 k s =
    not s.method.is_dtls && leb k.tls1_3 s.method.version && not (s.method.version == k.tls_any)

-- The switch on `s->method->version`.
abbrev pub choose_from : Config → Handle → Hello → Downgrade → Choice
choose_from k s hello dgrd =
    if s.method.version == k.tls_any
    then choose_in k s hello.suppversions dgrd (tls_version_table k)
    else if s.method.version == k.dtls_any
    then choose_in k s hello.suppversions dgrd (dtls_version_table k)
    else if is_tls13 k s
    then choose_in k s hello.suppversions dgrd (tls_version_table k)
    else if is_less (version_cmp k s s.client_version s.version)
    then record { error = some wrong_ssl_version; handle = s; dgrd = dgrd }
    else record { error = none; handle = s; dgrd = downgrade_none }

-- `ssl_choose_server_version`
unfoldable pub choose_server_version : Config → Handle → Hello → Downgrade → Choice
choose_server_version k s hello dgrd =
    choose_from k (record s { client_version = hello.legacy_version }) hello dgrd
