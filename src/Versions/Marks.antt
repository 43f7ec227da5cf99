-- ===== src/Versions/Marks.antt =====
-- The mark that a successful choice of the server leaves in `*dgrd`.
use openssl_3_0_bee2evp.Prelude.{
  ℕ, ◌≡◌, refl, Bool, true, false, not, Option, none, some, List, [], ◌∷◌, ltb, leb, if◌then◌else◌,
  if-holds, arith,
}
use openssl_3_0_bee2evp.Ssl.{is_hrr_none}
use openssl_3_0_bee2evp.Versions.{
  Config, Method, VersionInfo, Handle, is_enabled, version_cmp, is_less, tls_version_table,
}
use openssl_3_0_bee2evp.Versions.Server.{
  Downgrade, Choice, Hello, SuppVersions, absent, bad_prefix, versions, Best, settle, choose_legacy,
  choose_in, choose_from, choose_server_version, check_for_downgrade, set_version,
}
use openssl_3_0_bee2evp.Versions.Tables.{IsFlexible}
use openssl_3_0_bee2evp.Versions.Best.{told}

-- The success of a choice goes with the mark that `check_for_downgrade` gives the version.
pub data IsMarked (k : Config) (s : Handle) (c : Choice) : Type 0 where
  failed : (reason : _) → c.error ≡ some reason → IsMarked k s c
  marked : c.dgrd ≡ check_for_downgrade k s c.handle.version → IsMarked k s c

choose_legacy-IsMarked :
    (k : Config) (s : Handle) (dgrd : Downgrade) (v : ℕ) (disabled : Bool)
    (table : List VersionInfo)
    → IsMarked k s (choose_legacy k s dgrd v disabled table)
unfolding choose_legacy
choose_legacy-IsMarked k s dgrd v disabled [] = failed _ refl
choose_legacy-IsMarked k s dgrd v disabled (vent ∷ table) =
    let skipped = choose_legacy-IsMarked k s dgrd v disabled table in
    let refused = choose_legacy-IsMarked k s dgrd v true table in
    elim (vent.smeth)
      as (λ c. IsMarked k s (elim c [
        | none ↦ choose_legacy k s dgrd v disabled table
        | some m ↦
            if is_less (version_cmp k s v vent.version)
            then choose_legacy k s dgrd v disabled table
            else if is_enabled k s m
            then record {
              error = none;
              handle = set_version vent.version (some m) s;
              dgrd = check_for_downgrade k s vent.version;
            }
            else choose_legacy k s dgrd v true table
      ])) [
        | none ↦ skipped
        | some m ↦
            if-holds (IsMarked k s) (is_less (version_cmp k s v vent.version)) skipped
              (if-holds (IsMarked k s) (is_enabled k s m) (marked refl) refused)
      ]

settle-IsMarked :
    (k : Config) (s : Handle) (dgrd : Downgrade) (trailing : Bool) (best : Best)
    → is_hrr_none s.hello_retry_request ≡ true
    → IsMarked k s (settle k s dgrd trailing best)
settle-IsMarked k s dgrd trailing best first = rw first (
    if-holds (IsMarked k s) trailing (failed _ refl)
      (if-holds (IsMarked k s) (not (ltb 0 best.vers)) (failed _ refl) (go best.method)))
  where
    go :
        (m : Option Method)
        → IsMarked k s (record {
          error = none;
          handle = set_version best.vers m s;
          dgrd = check_for_downgrade k s best.vers;
        })
    go none = marked refl
    go (some m) = marked refl

choose_in-IsMarked :
    (k : Config) (s : Handle) (ext : SuppVersions) (dgrd : Downgrade) (table : List VersionInfo)
    → is_hrr_none s.hello_retry_request ≡ true
    → IsMarked k s (choose_in k s ext dgrd table)
choose_in-IsMarked k s absent dgrd table first =
    if-holds (IsMarked k s) (not (is_hrr_none s.hello_retry_request)) (failed _ refl)
      (choose_legacy-IsMarked k s dgrd _ false table)
choose_in-IsMarked k s bad_prefix dgrd table first =
    if-holds (IsMarked k s) (not s.method.is_dtls) (failed _ refl)
      (choose_legacy-IsMarked k s dgrd _ false table)
choose_in-IsMarked k s (versions list trailing) dgrd table first =
    if-holds (IsMarked k s) (not s.method.is_dtls)
      (if-holds (IsMarked k s) (leb s.client_version k.ssl3) (failed _ refl)
        (settle-IsMarked k s dgrd trailing _ first))
      (choose_legacy-IsMarked k s dgrd _ false table)

choose_from-flexible :
    (k : Config) (s : Handle) (hello : Hello) (dgrd : Downgrade)
    → IsFlexible k s
    → choose_from k s hello dgrd ≡ choose_in k s hello.suppversions dgrd (tls_version_table k)
choose_from-flexible k s hello dgrd flexible = ground (arith, flexible.any)

pub choose_server_version-IsMarked :
    (k : Config) (s : Handle) (hello : Hello) (dgrd : Downgrade)
    → IsFlexible k s
    → is_hrr_none s.hello_retry_request ≡ true
    → IsMarked k (told s hello.legacy_version) (choose_server_version k s hello dgrd)
unfolding choose_server_version
choose_server_version-IsMarked k s hello dgrd flexible first =
    rw
      (choose_from-flexible k (told s hello.legacy_version) hello dgrd
        (record { any = flexible.any; not_dtls = flexible.not_dtls }))
      (choose_in-IsMarked k (told s hello.legacy_version) hello.suppversions dgrd _ first)
