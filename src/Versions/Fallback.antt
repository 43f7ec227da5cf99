-- ===== src/Versions/Fallback.antt =====
-- The check behind the fallback signal of RFC 7507, `ssl_check_version_downgrade`.
use openssl_3_0_bee2evp.Prelude.{
  suc, ℕ, ◌<◌, ◌≡◌, ◌≢◌, Bool, true, List, [], ◌∷◌, ◌==◌, ltb, ◌∙◌, arith,
}
use openssl_3_0_bee2evp.Versions.{
  Config, VersionInfo, Handle, is_highest_in, check_version_downgrade, tls_version_table,
  IsNumbered,
}
use openssl_3_0_bee2evp.Versions.Best.{greatest}
use openssl_3_0_bee2evp.Versions.Legacy.{served, descends, tls_table-descends}

abbrev pub any_version : ℕ → Bool
any_version v = true

served-descends :
    (k : Config) (s : Handle) (bound : ℕ) (table : List VersionInfo)
    → descends bound table ≡ true
    → ltb (greatest any_version (served k s table)) bound ≡ true
unfolding greatest
served-descends k s bound [] h = ground (arith, h)
served-descends k s bound (vent ∷ table) h =
    ground (arith, h, served-descends k s vent.version table)

is_highest_in-greatest :
    (k : Config) (s : Handle) (bound : ℕ) (table : List VersionInfo)
    → descends bound table ≡ true
    → 0 < s.version
    → is_highest_in k s table ≡ (s.version == greatest any_version (served k s table))
unfolding is_highest_in greatest
is_highest_in-greatest k s bound [] h up = ground (arith, up)
is_highest_in-greatest k s bound (vent ∷ table) h up = ground (
  arith,
  h,
  up,
  served-descends k s vent.version table,
  is_highest_in-greatest k s vent.version table,
)

unfold_check :
    (k : Config) (s : Handle)
    → s.ctx_method.version ≡ k.tls_any
    → s.version ≢ k.tls_any
    → check_version_downgrade k s ≡ is_highest_in k s (tls_version_table k)
unfolding check_version_downgrade
unfold_check k s any fixed = ground (arith, any, fixed)

-- If the context has a flexible method of TLS and the connection has settled on a version, then
-- `ssl_check_version_downgrade` says whether this is the greatest version with an enabled server
-- method. The numbers of the versions are those of TLS.
pub check_version_downgrade-greatest :
    (k : Config) (s : Handle)
    → IsNumbered k
    → s.ctx_method.version ≡ k.tls_any
    → s.version ≢ k.tls_any
    → 0 < s.version
    → check_version_downgrade k s
      ≡ (s.version == greatest any_version (served k s (tls_version_table k)))
check_version_downgrade-greatest k s numbered any fixed up =
    unfold_check k s any fixed
    ∙ is_highest_in-greatest k s (suc k.tls1_3) (tls_version_table k)
        (tls_table-descends k numbered) up
