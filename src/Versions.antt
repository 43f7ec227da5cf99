-- ===== src/Versions.antt =====
-- The negotiation of the protocol version: ssl/statem/statem_lib.c, from `version_cmp` to
-- `ssl_set_client_hello_version`, with the methods of ssl/methods.c. This file has the connection's
-- members, the tables of versions and the checks of a single version.
pub mod Server
pub mod Client
pub mod Range
pub mod Random
pub mod Tables
pub mod Best
pub mod Legacy
pub mod Failing
pub mod Fallback
pub mod Contiguous
pub mod Accepting
pub mod Found
pub mod Filled
pub mod Sentinel
pub mod RealMax
pub mod Marks
pub mod Honest
mod Tests
use Prim.Native.Nat.{bit_and}
use openssl_3_0_bee2evp.Prelude.{
  ℕ, zero, suc, ◌≤◌, ◌≡◌, Bool, true, false, not, ◌&&◌, ◌||◌, Option, none, some, List, [], ◌∷◌,
  ltb, leb, ◌==◌, if◌then◌else◌,
}
use openssl_3_0_bee2evp.Ssl.{HrrState}

-- The numbers of the public headers, and the protocols that the build leaves out.
pub record Config : Type 0 where
  pub ssl3 : ℕ
  pub tls1 : ℕ
  pub tls1_1 : ℕ
  pub tls1_2 : ℕ
  pub tls1_3 : ℕ
  pub tls_any : ℕ
  pub dtls1_2 : ℕ
  pub dtls1 : ℕ
  pub dtls1_bad_ver : ℕ
  pub dtls_any : ℕ
  pub op_no_sslv3 : ℕ
  pub op_no_tlsv1 : ℕ
  pub op_no_tlsv1_1 : ℕ
  pub op_no_tlsv1_2 : ℕ
  pub op_no_tlsv1_3 : ℕ
  pub op_no_dtlsv1 : ℕ
  pub op_no_dtlsv1_2 : ℕ
  pub no_ssl3 : Bool
  pub no_tls1 : Bool
  pub no_tls1_1 : Bool
  pub no_tls1_2 : Bool
  pub no_tls1_3 : Bool
  pub no_dtls1 : Bool
  pub no_dtls1_2 : Bool

-- What is used of `SSL_METHOD`; `no_suiteb` and `is_dtls` are bits of its flags.
pub record Method : Type 0 where
  pub version : ℕ
  pub no_suiteb : Bool
  pub mask : ℕ
  pub is_dtls : Bool

-- The methods of ssl/methods.c. A client method and a server method have the same members here.
abbrev pub tls_method : ℕ → Bool → ℕ → Method
tls_method v no_suiteb mask = record {
  version = v;
  no_suiteb = no_suiteb;
  mask = mask;
  is_dtls = false;
}

abbrev pub dtls_method : ℕ → Bool → ℕ → Method
dtls_method v no_suiteb mask = record {
  version = v;
  no_suiteb = no_suiteb;
  mask = mask;
  is_dtls = true;
}

-- `version_info`; `none` is NULL.
pub record VersionInfo : Type 0 where
  pub version : ℕ
  pub cmeth : Option Method
  pub smeth : Option Method

abbrev pub both : Bool → Method → VersionInfo
both true m = record { version = m.version; cmeth = none; smeth = none }
both false m = record { version = m.version; cmeth = some m; smeth = some m }

abbrev pub client_only : Bool → Method → VersionInfo
client_only true m = record { version = m.version; cmeth = none; smeth = none }
client_only false m = record { version = m.version; cmeth = some m; smeth = none }

-- The tables; the end of a list is the entry with version 0.
abbrev pub tls_version_table : Config → List VersionInfo
tls_version_table k =
    both k.no_tls1_3 (tls_method k.tls1_3 false k.op_no_tlsv1_3)
    ∷ both k.no_tls1_2 (tls_method k.tls1_2 false k.op_no_tlsv1_2)
    ∷ both k.no_tls1_1 (tls_method k.tls1_1 true k.op_no_tlsv1_1)
    ∷ both k.no_tls1 (tls_method k.tls1 true k.op_no_tlsv1)
    ∷ both k.no_ssl3 (tls_method k.ssl3 true k.op_no_sslv3)
    ∷ []

abbrev pub dtls_version_table : Config → List VersionInfo
dtls_version_table k =
    both k.no_dtls1_2 (dtls_method k.dtls1_2 false k.op_no_dtlsv1_2)
    ∷ both k.no_dtls1 (dtls_method k.dtls1 true k.op_no_dtlsv1)
    ∷ client_only k.no_dtls1 (dtls_method k.dtls1_bad_ver true k.op_no_dtlsv1)
    ∷ []

-- `switch (s->method->version)`: the table of a version-flexible method.
abbrev pub table_of : Config → ℕ → Option (List VersionInfo)
table_of k version =
    if version == k.tls_any
    then some (tls_version_table k)
    else if version == k.dtls_any
    then some (dtls_version_table k)
    else none

-- The members of `SSL` that are used. `no_method` says that `s->method` is NULL; `security` is what
-- `ssl_security` answers for a version, `has_cert` whether there is a certificate and a key of a type,
-- and `sigalg_curve` whether `tls_check_sigalg_curve` allows the elliptic-curve key's curve.
pub record Handle : Type 0 where
  pub server : Bool
  pub method : Method
  pub no_method : Bool
  pub ctx_method : Method
  pub version : ℕ
  pub client_version : ℕ
  pub min_proto_version : ℕ
  pub max_proto_version : ℕ
  pub options : ℕ
  pub suiteb : Bool
  pub security : ℕ → Bool
  pub has_ctx : Bool
  pub has_session_ctx : Bool
  pub servername_cb : Bool
  pub session_servername_cb : Bool
  pub psk_server_callback : Bool
  pub psk_find_session_cb : Bool
  pub cert_cb : Bool
  pub has_cert : ℕ → Bool
  pub sigalg_curve : Bool
  pub hello_retry_request : HrrState
  pub send_fallback_scsv : Bool
  pub first_handshake : Bool
  pub server_random : List ℕ

-- The error reasons; `ERR_R_INTERNAL_ERROR` is the last.
pub data Reason : Type 0 where
  version_too_low version_too_high unsupported_protocol : Reason
  at_least_tls_1_2_needed_in_suiteb_mode wrong_ssl_version length_mismatch : Reason
  bad_legacy_version no_protocols_available inappropriate_fallback internal_error : Reason

-- The result of `version_cmp`: -1, 0 and 1.
pub data Sign : Type 0 where
  less equal greater : Sign

abbrev pub is_less : Sign → Bool
is_less less = true
is_less _ = false

abbrev pub is_equal : Sign → Bool
is_equal equal = true
is_equal _ = false

abbrev pub is_greater : Sign → Bool
is_greater greater = true
is_greater _ = false

abbrev pub dtls_ver_ordinal : Config → ℕ → ℕ
dtls_ver_ordinal k v = if v == k.dtls1_bad_ver then 0xff00 else v

-- `DTLS_VERSION_LT`: the numbers go down.
abbrev pub dtls_version_lt : Config → ℕ → ℕ → Bool
dtls_version_lt k a b = ltb (dtls_ver_ordinal k b) (dtls_ver_ordinal k a)

unfoldable pub version_cmp : Config → Handle → ℕ → ℕ → Sign
version_cmp k s a b =
    if a == b
    then equal
    else if not s.method.is_dtls
    then (if ltb a b then less else greater)
    else if dtls_version_lt k a b
    then less
    else greater

-- `ssl_method_error`; `none` is 0.
unfoldable pub method_error : Config → Handle → Method → Option Reason
method_error k s m =
    if (not (s.min_proto_version == 0) && is_less (version_cmp k s m.version s.min_proto_version))
      || not (s.security m.version)
    then some version_too_low
    else if not (s.max_proto_version == 0)
        && is_greater (version_cmp k s m.version s.max_proto_version)
    then some version_too_high
    else if not (bit_and s.options m.mask == 0)
    then some unsupported_protocol
    else if m.no_suiteb && s.suiteb
    then some at_least_tls_1_2_needed_in_suiteb_mode
    else none

abbrev pub is_none : {A : Type 0} → Option A → Bool
is_none none = true
is_none (some x) = false

abbrev pub is_enabled : Config → Handle → Method → Bool
is_enabled k s m = is_none (method_error k s m)

-- The loop of `is_tls13_capable` over the types of keys, from the number `i` on: 2 is DSA, 3 elliptic
-- curves, 4 to 6 are GOST. `n` more types follow.
abbrev pub capable_from : Handle → ℕ → ℕ → Bool
capable_from s zero i = false
capable_from s (suc n) i =
    let rest = capable_from s n (suc i) in
    if i == 2 || i == 4 || i == 5 || i == 6
    then rest
    else if not (s.has_cert i)
    then rest
    else if not (i == 3)
    then true
    else if s.sigalg_curve
    then true
    else rest

abbrev pub is_tls13_capable : Handle → Bool
is_tls13_capable s =
    if not s.has_ctx || not s.has_session_ctx
    then false
    else if s.servername_cb || s.session_servername_cb
    then true
    else if s.psk_server_callback
    then true
    else if s.psk_find_session_cb || s.cert_cb
    then true
    else capable_from s 10 0

-- The results of `ssl_version_supported`: 0, and 1 with what it stores through `meth`, if it does.
pub data Support : Type 0 where
  unsupported : Support
  supported : Option Method → Support

abbrev pub is_supported : Support → Bool
is_supported unsupported = false
is_supported (supported m) = true

-- The condition in the loop of `ssl_version_supported`, but for the method.
abbrev pub usable : Config → Handle → ℕ → ℕ → Method → Bool
usable k s version entry m =
    is_equal (version_cmp k s version entry)
    && is_enabled k s m
    && (not s.server || not (version == k.tls1_3) || is_tls13_capable s)

unfoldable pub supported_in : Config → Handle → ℕ → List VersionInfo → Support
supported_in k s version [] = unsupported
supported_in k s version (vent ∷ table) =
    let rest = supported_in k s version table in
    if is_greater (version_cmp k s version vent.version) then unsupported else elim (vent.cmeth) [
      | none ↦ rest
      | some m ↦ if usable k s version vent.version m then supported (some m) else rest
    ]

-- `ssl_version_supported`
unfoldable pub version_supported : Config → Handle → ℕ → Support
version_supported k s version = elim (table_of k s.method.version) [
  | none ↦ if is_equal (version_cmp k s version s.version) then supported none else unsupported
  | some table ↦ supported_in k s version table
]

-- The loop of `ssl_check_version_downgrade`.
unfoldable pub is_highest_in : Config → Handle → List VersionInfo → Bool
is_highest_in k s [] = false
is_highest_in k s (vent ∷ table) =
    let rest = is_highest_in k s table in
    elim (vent.smeth) [
      | none ↦ rest
      | some m ↦ if is_enabled k s m then s.version == vent.version else rest
    ]

-- `ssl_check_version_downgrade`
unfoldable pub check_version_downgrade : Config → Handle → Bool
check_version_downgrade k s =
    if s.version == s.ctx_method.version then true else elim (table_of k s.ctx_method.version) [
      | none ↦ false
      | some table ↦ is_highest_in k s table
    ]

-- `ssl_set_version_bound`: the new bound, or `none` for 0.
unfoldable pub set_version_bound : Config → ℕ → ℕ → ℕ → Option ℕ
set_version_bound k method_version version bound =
    let valid_tls = leb k.ssl3 version && leb version k.tls1_3 in
    let valid_dtls =
      leb (dtls_ver_ordinal k k.dtls1_2) (dtls_ver_ordinal k version)
      && leb (dtls_ver_ordinal k version) (dtls_ver_ordinal k k.dtls1_bad_ver) in
    if version == 0
    then some version
    else if not valid_tls && not valid_dtls
    then none
    else if method_version == k.tls_any
    then some (if valid_tls then version else bound)
    else if method_version == k.dtls_any
    then some (if valid_dtls then version else bound)
    else some bound

-- What the public headers promise of the numbers of TLS.
pub record IsNumbered (k : Config) : Type 0 where
  pub low : 1 ≤ k.ssl3
  pub tls1_next : k.tls1 ≡ suc k.ssl3
  pub tls1_1_next : k.tls1_1 ≡ suc k.tls1
  pub tls1_2_next : k.tls1_2 ≡ suc k.tls1_1
  pub tls1_3_next : k.tls1_3 ≡ suc k.tls1_2
