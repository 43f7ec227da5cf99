-- ===== src/Versions/Accepting.antt =====
-- The client's choice: what a refusal leaves alone, and what is accepted.
use openssl_3_0_bee2evp.Prelude.{
  ℕ, ◌≡◌, refl, Bool, true, false, not, ◌&&◌, none, some, List, [], ◌∷◌, ltb, ◌==◌, if◌then◌else◌,
  if-holds,
}
use openssl_3_0_bee2evp.Ssl.{is_hrr_none}
use openssl_3_0_bee2evp.Versions.{
  Config, table_of, wrong_ssl_version, VersionInfo, Handle, dtls_version_lt,
}
use openssl_3_0_bee2evp.Versions.Range.{RangeResult, get_min_max_version, no_range, range}
use openssl_3_0_bee2evp.Versions.Client.{
  Parsed, parse_failed, not_present, selected, Verdict, accepted, find_method, check_downgrade,
  check_range, reject, protocol_version, choose_parsed, choose_client_version, ends_with,
}
use openssl_3_0_bee2evp.Versions.Random.{tls11downgrade, tls12downgrade}

abbrev pub is_accepted : Verdict → Bool
is_accepted accepted = true
is_accepted _ = false

-- A result that accepts, or that is the connection `s`.
pub data IsAllOrNothing (s : Handle) (r : Verdict × Handle) : Type 0 where
  took : r.0 ≡ accepted → IsAllOrNothing s r
  left_alone : r.1 ≡ s → IsAllOrNothing s r

module _ (s : Handle) (v : ℕ) where
  abbrev s' : Handle
  s' = record s { version = v }

  find_method-IsAllOrNothing :
      (table : List VersionInfo) → IsAllOrNothing s (find_method s.version table s')
  unfolding find_method
  find_method-IsAllOrNothing [] = left_alone refl
  find_method-IsAllOrNothing (vent ∷ table) =
      elim (vent.cmeth)
        as (λ c. IsAllOrNothing s (elim c [
          | none ↦ find_method s.version table s'
          | some m ↦
              if not (v == vent.version)
              then find_method s.version table s'
              else (accepted, record s' { method = m })
        ])) [
          | none ↦ find_method-IsAllOrNothing table
          | some m ↦
              if-holds (IsAllOrNothing s) (not (v == vent.version))
                (find_method-IsAllOrNothing table) (took refl)
        ]

  check_downgrade-IsAllOrNothing :
      (k : Config) (table : List VersionInfo) (real_max : ℕ)
      → IsAllOrNothing s (check_downgrade k s.version table real_max s')
  check_downgrade-IsAllOrNothing k table real_max =
      let found = find_method-IsAllOrNothing table in
      if-holds (IsAllOrNothing s) (v == k.tls1_2 && ltb v real_max)
        (if-holds (IsAllOrNothing s) (ends_with tls12downgrade s') (left_alone refl) found)
        (if-holds (IsAllOrNothing s) (not s.method.is_dtls && ltb v k.tls1_2 && ltb v real_max)
          (if-holds (IsAllOrNothing s) (ends_with tls11downgrade s') (left_alone refl) found) found)

  check_range-IsAllOrNothing :
      (k : Config) (table : List VersionInfo) (r : RangeResult)
      → IsAllOrNothing s (check_range k s.version table r s')
  check_range-IsAllOrNothing k table (no_range reason) = left_alone refl
  check_range-IsAllOrNothing k table (range r) =
      if-holds (IsAllOrNothing s)
        (if s.method.is_dtls then dtls_version_lt k v r.min else ltb v r.min) (left_alone refl)
        (if-holds (IsAllOrNothing s)
          (if s.method.is_dtls then dtls_version_lt k r.max v else ltb r.max v) (left_alone refl)
          (check_downgrade-IsAllOrNothing k table _))

  choose_parsed-IsAllOrNothing : (k : Config) → IsAllOrNothing s (choose_parsed k s.version s')
  choose_parsed-IsAllOrNothing k =
      if-holds (IsAllOrNothing s) (not (is_hrr_none s.hello_retry_request) && not (v == k.tls1_3))
        (left_alone refl)
        (elim (table_of k s.method.version)
          as (λ t. IsAllOrNothing s (elim t [
            | none ↦
                if not (v == s.method.version)
                then reject s.version protocol_version wrong_ssl_version s'
                else (accepted, s')
            | some table ↦ check_range k s.version table (get_min_max_version k s' true) s'
          ])) [
            | none ↦
                if-holds (IsAllOrNothing s) (not (v == s.method.version)) (left_alone refl)
                  (took refl)
            | some table ↦ check_range-IsAllOrNothing k table _
          ])

-- For every connection, every version that a server proposes and every outcome of the extension,
-- `ssl_choose_client_version` accepts, or it leaves the connection's version, its method and all
-- other members that are modelled as they were.
pub choose_client_version-IsAllOrNothing :
    (k : Config) (s : Handle) (version : ℕ) (ext : Parsed)
    → IsAllOrNothing s (choose_client_version k s version ext)
unfolding choose_client_version
choose_client_version-IsAllOrNothing k s version parse_failed = left_alone refl
choose_client_version-IsAllOrNothing k s version not_present =
    choose_parsed-IsAllOrNothing s version k
choose_client_version-IsAllOrNothing k s version (selected v) = choose_parsed-IsAllOrNothing s v k
