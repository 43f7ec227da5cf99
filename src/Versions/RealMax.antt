-- ===== src/Versions/RealMax.antt =====
-- The highest version that a client might have offered, `real_max` of `ssl_get_min_max_version`.
use openssl_3_0_bee2evp.Prelude.{
  suc, ℕ, ◌≡◌, refl, sym, Bool, true, ◌&&◌, ◌||◌, List, [], ◌∷◌, ◌∙◌, ap, ltb, leb, ◌==◌, arith,
}
use openssl_3_0_bee2evp.Versions.{Config, Handle, VersionInfo, tls_version_table, IsNumbered}
use openssl_3_0_bee2evp.Versions.Range.{
  Range, range_step, range_loop, initial_range, get_min_max_version, range_result, range, Bounds,
  RangeResult, no_range,
}
use openssl_3_0_bee2evp.Versions.Tables.{is_tagged, IsFlexible, tls_table-is_tagged}
use openssl_3_0_bee2evp.Versions.Contiguous.{descends, tls_table-descends, get_min_max_version-tls}

-- `real_max` is not below the version, and the next `real_max` is not below what remains.
abbrev covers : ℕ → Range → Bool
covers bound r = (r.tmp_real_max == 0 || leb bound r.tmp_real_max) && leb r.version r.real_max

range_step-covers :
    (k : Config) (s : Handle) (bound : ℕ) (vent : VersionInfo) (r : Range)
    → is_tagged (vent ∷ []) ≡ true
    → ltb 0 vent.version && ltb vent.version bound ≡ true
    → covers bound r ≡ true
    → covers vent.version (range_step k s true vent r) ≡ true
range_step-covers k s bound vent r tag low h = ground (arith, tag, low, h)

range_loop-covers :
    (k : Config) (s : Handle) (bound : ℕ) (table : List VersionInfo) (r : Range)
    → is_tagged table ≡ true
    → descends bound table ≡ true
    → covers bound r ≡ true
    → leb (range_loop k s true table r).version (range_loop k s true table r).real_max ≡ true
unfolding range_loop
range_loop-covers k s bound [] r tag down h = ground (arith, h)
range_loop-covers k s bound (vent ∷ table) r tag down h =
    range_loop-covers k s vent.version table (range_step k s true vent r) (ground (arith, tag))
      (ground (arith, down))
      (range_step-covers k s bound vent r (ground (arith, tag)) (ground (arith, down)) h)

abbrev ordered : RangeResult → Bool
ordered (no_range reason) = true
ordered (range b) = leb b.max b.real_max

range_result-ordered :
    (r : Range) → leb r.version r.real_max ≡ true → ordered (range_result r) ≡ true
range_result-ordered r h = ground (arith, h)

-- The highest version that the client offers is not above `real_max`.
pub get_min_max_version-real_max :
    (k : Config) (s : Handle) (b : Bounds)
    → IsNumbered k
    → IsFlexible k s
    → get_min_max_version k s true ≡ range b
    → leb b.max b.real_max ≡ true
get_min_max_version-real_max k s b numbered flexible h =
    let table = tls_version_table k in
    let r = range_loop k s true table initial_range in
    let covered =
      range_loop-covers k s (suc k.tls1_3) table initial_range (tls_table-is_tagged k)
        (tls_table-descends k numbered) refl in
    let e : range_result r ≡ range b = sym (get_min_max_version-tls k s true flexible) ∙ h in
    ap ordered (sym e) ∙ range_result-ordered r covered
