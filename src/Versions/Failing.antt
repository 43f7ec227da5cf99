-- ===== src/Versions/Failing.antt =====
-- What a failure of the server's choice leaves alone.
use openssl_3_0_bee2evp.Prelude.{
  ℕ, ◌≡◌, refl, Bool, true, false, none, some, List, [], ◌∷◌, not, ltb, leb, ◌==◌, if◌then◌else◌,
  if-holds,
}
use openssl_3_0_bee2evp.Ssl.{is_hrr_none}
use openssl_3_0_bee2evp.Versions.{Config, VersionInfo, Handle, version_cmp, is_less, is_enabled}
use openssl_3_0_bee2evp.Versions.Server.{
  Downgrade, Choice, SuppVersions, absent, bad_prefix, versions, Hello, Best, choose_legacy, settle,
  choose_in, choose_from, choose_server_version, is_tls13, set_version, check_for_downgrade,
}
use openssl_3_0_bee2evp.Versions.Best.{told}

-- A choice that is no failure, or that leaves the connection and `*dgrd` as they were.
pub data IsFaithful (s : Handle) (dgrd : Downgrade) (c : Choice) : Type 0 where
  done : c.error ≡ none → IsFaithful s dgrd c
  kept : c.handle ≡ s → c.dgrd ≡ dgrd → IsFaithful s dgrd c

choose_legacy-IsFaithful :
    (k : Config) (s : Handle) (dgrd : Downgrade) (v : ℕ) (disabled : Bool)
    (table : List VersionInfo)
    → IsFaithful s dgrd (choose_legacy k s dgrd v disabled table)
unfolding choose_legacy
choose_legacy-IsFaithful k s dgrd v disabled [] = kept refl refl
choose_legacy-IsFaithful k s dgrd v disabled (vent ∷ table) =
    let skipped = choose_legacy-IsFaithful k s dgrd v disabled table in
    let refused = choose_legacy-IsFaithful k s dgrd v true table in
    elim (vent.smeth)
      as (λ c. IsFaithful s dgrd (elim c [
        | none ↦ choose_legacy k s dgrd v disabled table
        | some m ↦
            if is_less (version_cmp k s v vent.version)
            then choose_legacy k s dgrd v disabled table
            else if is_enabled k s m
            then record {
              error = none;
              handle = set_version vent.version (some m) s;
              dgrd = check_for_downgrade k s vent.version;
            }
            else choose_legacy k s dgrd v true table
      ])) [
        | none ↦ skipped
        | some m ↦
            if-holds (IsFaithful s dgrd) (is_less (version_cmp k s v vent.version)) skipped
              (if-holds (IsFaithful s dgrd) (is_enabled k s m) (done refl) refused)
      ]

settle-IsFaithful :
    (k : Config) (s : Handle) (dgrd : Downgrade) (trailing : Bool) (best : Best)
    → IsFaithful s dgrd (settle k s dgrd trailing best)
settle-IsFaithful k s dgrd trailing best = if-holds (IsFaithful s dgrd) trailing (kept refl refl) (
    if-holds (IsFaithful s dgrd) (not (ltb 0 best.vers)) (kept refl refl) (
      if-holds (IsFaithful s dgrd) (not (is_hrr_none s.hello_retry_request))
        (if-holds (IsFaithful s dgrd) (not (best.vers == k.tls1_3)) (kept refl refl)
          (kept refl refl))
        (done refl)))

choose_in-IsFaithful :
    (k : Config) (s : Handle) (ext : SuppVersions) (dgrd : Downgrade) (table : List VersionInfo)
    → IsFaithful s dgrd (choose_in k s ext dgrd table)
choose_in-IsFaithful k s absent dgrd table =
    if-holds (IsFaithful s dgrd) (not (is_hrr_none s.hello_retry_request)) (kept refl refl)
      (choose_legacy-IsFaithful k s dgrd _ false table)
choose_in-IsFaithful k s bad_prefix dgrd table =
    if-holds (IsFaithful s dgrd) (not s.method.is_dtls) (kept refl refl)
      (choose_legacy-IsFaithful k s dgrd _ false table)
choose_in-IsFaithful k s (versions list trailing) dgrd table =
    if-holds (IsFaithful s dgrd) (not s.method.is_dtls)
      (if-holds (IsFaithful s dgrd) (leb s.client_version k.ssl3) (kept refl refl)
        (settle-IsFaithful k s dgrd trailing _))
      (choose_legacy-IsFaithful k s dgrd _ false table)

choose_from-IsFaithful :
    (k : Config) (s : Handle) (hello : Hello) (dgrd : Downgrade)
    → IsFaithful s dgrd (choose_from k s hello dgrd)
choose_from-IsFaithful k s hello dgrd =
    if-holds (IsFaithful s dgrd) (s.method.version == k.tls_any)
      (choose_in-IsFaithful k s hello.suppversions dgrd _)
      (if-holds (IsFaithful s dgrd) (s.method.version == k.dtls_any)
        (choose_in-IsFaithful k s hello.suppversions dgrd _)
        (if-holds (IsFaithful s dgrd) (is_tls13 k s)
          (choose_in-IsFaithful k s hello.suppversions dgrd _)
          (if-holds (IsFaithful s dgrd) (is_less (version_cmp k s s.client_version s.version))
            (kept refl refl) (done refl))))

-- For every connection and every ClientHello, `ssl_choose_server_version` succeeds, or it leaves
-- `*dgrd` as it was and changes nothing of the connection but `s->client_version`.
pub choose_server_version-IsFaithful :
    (k : Config) (s : Handle) (hello : Hello) (dgrd : Downgrade)
    → IsFaithful (told s hello.legacy_version) dgrd (choose_server_version k s hello dgrd)
unfolding choose_server_version
choose_server_version-IsFaithful k s hello dgrd =
    choose_from-IsFaithful k (told s hello.legacy_version) hello dgrd
