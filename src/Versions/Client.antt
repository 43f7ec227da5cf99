-- ===== src/Versions/Client.antt =====
-- The client's choice: `ssl_choose_client_version` of ssl/statem/statem_lib.c, and the versions it
-- offers, `tls_construct_ctos_supported_versions` of ssl/statem/extensions_clnt.c.
use openssl_3_0_bee2evp.Prelude.{
  ℕ, zero, suc, ◌-◌, Bool, true, false, not, ◌&&◌, none, some, List, [], ◌∷◌, length, ltb, ◌==◌,
  if◌then◌else◌,
}
use openssl_3_0_bee2evp.Ssl.{is_hrr_none}
use openssl_3_0_bee2evp.Versions.{
  Config, VersionInfo, Handle, Reason, wrong_ssl_version, unsupported_protocol,
  inappropriate_fallback, dtls_version_lt, table_of,
}
use openssl_3_0_bee2evp.Versions.Random.{drop, same, tls11downgrade, tls12downgrade}
use openssl_3_0_bee2evp.Versions.Range.{RangeResult, no_range, range, get_min_max_version}

-- What `tls_parse_extension` makes of the supported_versions extension: it fails, finds none, or
-- finds the version to store in `s->version`.
pub data Parsed : Type 0 where
  parse_failed not_present : Parsed
  selected : ℕ → Parsed

-- The alerts that are raised here.
pub data VersionAlert : Type 0 where
  protocol_version illegal_parameter : VersionAlert

-- 1, or 0: after a failure to parse, or with the fatal error.
pub data Verdict : Type 0 where
  accepted not_parsed : Verdict
  fatal_error : VersionAlert → Reason → Verdict

abbrev pub reject : ℕ → VersionAlert → Reason → Handle → Verdict × Handle
reject origv alert reason s = (fatal_error alert reason, record s { version = origv })

-- The last loop.
unfoldable pub find_method : ℕ → List VersionInfo → Handle → Verdict × Handle
find_method origv [] s = reject origv protocol_version unsupported_protocol s
find_method origv (vent ∷ table) s =
    let rest = find_method origv table s in
    elim (vent.cmeth) [
      | none ↦ rest
      | some m ↦
          if not (s.version == vent.version) then rest else (accepted, record s { method = m })
    ]

-- Whether the random number of the server ends with a sentinel.
abbrev pub ends_with : List ℕ → Handle → Bool
ends_with sentinel s =
    same (drop (length s.server_random - length sentinel) s.server_random) sentinel

abbrev pub check_downgrade : Config → ℕ → List VersionInfo → ℕ → Handle → Verdict × Handle
check_downgrade k origv table real_max s =
    if s.version == k.tls1_2 && ltb s.version real_max
    then (if ends_with tls12downgrade s
        then reject origv illegal_parameter inappropriate_fallback s
        else find_method origv table s)
    else if not s.method.is_dtls && ltb s.version k.tls1_2 && ltb s.version real_max
    then (if ends_with tls11downgrade s
        then reject origv illegal_parameter inappropriate_fallback s
        else find_method origv table s)
    else find_method origv table s

abbrev pub check_range : Config → ℕ → List VersionInfo → RangeResult → Handle → Verdict × Handle
check_range k origv table (no_range reason) s = reject origv protocol_version reason s
check_range k origv table (range r) s =
    if (if s.method.is_dtls then dtls_version_lt k s.version r.min else ltb s.version r.min)
    then reject origv protocol_version unsupported_protocol s
    else if (if s.method.is_dtls then dtls_version_lt k r.max s.version else ltb r.max s.version)
    then reject origv protocol_version unsupported_protocol s
    else check_downgrade k origv table (if not s.send_fallback_scsv then r.max else r.real_max) s

-- After the extension; `s.version` is the version that the server chose.
abbrev pub choose_parsed : Config → ℕ → Handle → Verdict × Handle
choose_parsed k origv s =
    if not (is_hrr_none s.hello_retry_request) && not (s.version == k.tls1_3)
    then reject origv protocol_version wrong_ssl_version s
    else elim (table_of k s.method.version) [
      | none ↦
          if not (s.version == s.method.version)
          then reject origv protocol_version wrong_ssl_version s
          else (accepted, s)
      | some table ↦ check_range k origv table (get_min_max_version k s true) s
    ]

-- `ssl_choose_client_version`
unfoldable pub choose_client_version : Config → Handle → ℕ → Parsed → Verdict × Handle
choose_client_version k s version parse_failed = (not_parsed, s)
choose_client_version k s version not_present =
    choose_parsed k s.version (record s { version = version })
choose_client_version k s version (selected v) =
    choose_parsed k s.version (record s { version = v })

-- The loop of `tls_construct_ctos_supported_versions`, for `n` versions from `currv` downwards.
abbrev pub versions_down : ℕ → ℕ → List ℕ
versions_down zero currv = []
versions_down (suc n) currv = currv ∷ versions_down n (currv - 1)

-- The result of the function: an error, nothing, or the extension with a list of versions.
pub data Offer : Type 0 where
  offer_fail : Reason → Offer
  not_sent : Offer
  offered : List ℕ → Offer

abbrev pub offer_of : Config → RangeResult → Offer
offer_of k (no_range reason) = offer_fail reason
offer_of k (range r) =
    if ltb r.max k.tls1_3 then not_sent else offered (versions_down (suc r.max - r.min) r.max)

-- `tls_construct_ctos_supported_versions`
unfoldable pub construct_supported_versions : Config → Handle → Offer
construct_supported_versions k c = offer_of k (get_min_max_version k c false)
