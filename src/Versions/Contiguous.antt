-- ===== src/Versions/Contiguous.antt =====
-- The loop of `ssl_get_min_max_version`, against the lowest run of enabled versions of a table.
use openssl_3_0_bee2evp.Prelude.{
  ◌∙◌, suc, ℕ, ◌≡◌, refl, Bool, true, false, ◌&&◌, ◌||◌, Option, none, some, List, [], ◌∷◌, ltb,
  leb, if◌then◌else◌, arith,
}
use openssl_3_0_bee2evp.Versions.{
  Config, Method, VersionInfo, Handle, is_enabled, tls_version_table, IsNumbered, both,
}
use openssl_3_0_bee2evp.Versions.Range.{
  Range, range_step, range_loop, initial_range, RangeResult, get_min_max_version, range_result,
  no_range, range,
}
use openssl_3_0_bee2evp.Versions.Tables.{is_tagged, IsFlexible, tls_table-is_tagged}

-- A client may use the entry.
abbrev pub is_on : Config → Handle → VersionInfo → Bool
is_on k s vent = elim (vent.cmeth) [ none ↦ false | some m ↦ is_enabled k s m ]

-- The lowest run of enabled entries: its highest and lowest version, and whether an entry that is not
-- enabled is above it.
pub data Run : Type 0 where
  no_run : Run
  run : ℕ → ℕ → Bool → Run

-- One more entry above.
abbrev pub raise : Bool → ℕ → Run → Run
raise on v no_run = if on then run v v false else no_run
raise on v (run max min true) = run max min true
raise on v (run max min false) = if on then run v min false else run max min true

unfoldable pub lowest_run : Config → Handle → List VersionInfo → Run
lowest_run k s [] = no_run
lowest_run k s (vent ∷ table) = raise (is_on k s vent) vent.version (lowest_run k s table)

-- The loop's result, from its variables before and the run of what remains.
abbrev end_version : Range → Run → ℕ
end_version r no_run = r.version
end_version r (run max min closed) = if closed || r.hole then max else r.version

abbrev end_min : Range → Run → ℕ
end_min r no_run = r.min_version
end_min r (run max min closed) = min

range_step-version :
    (k : Config) (s : Handle) (wanted : Bool) (vent : VersionInfo) (r : Range) (t : Run)
    → is_tagged (vent ∷ []) ≡ true
    → end_version (range_step k s wanted vent r) t
      ≡ end_version r (raise (is_on k s vent) vent.version t)
range_step-version k s wanted vent r no_run tag = ground (arith, tag)
range_step-version k s wanted vent r (run max min true) tag = ground (arith, tag)
range_step-version k s wanted vent r (run max min false) tag = ground (arith, tag)

range_step-min :
    (k : Config) (s : Handle) (wanted : Bool) (vent : VersionInfo) (r : Range) (t : Run)
    → is_tagged (vent ∷ []) ≡ true
    → end_min (range_step k s wanted vent r) t ≡ end_min r (raise (is_on k s vent) vent.version t)
range_step-min k s wanted vent r no_run tag = ground (arith, tag)
range_step-min k s wanted vent r (run max min true) tag = ground (arith, tag)
range_step-min k s wanted vent r (run max min false) tag = ground (arith, tag)

range_loop-version :
    (k : Config) (s : Handle) (wanted : Bool) (table : List VersionInfo) (r : Range)
    → is_tagged table ≡ true
    → (range_loop k s wanted table r).version ≡ end_version r (lowest_run k s table)
unfolding range_loop lowest_run
range_loop-version k s wanted [] r tag = refl
range_loop-version k s wanted (vent ∷ table) r tag =
    range_loop-version k s wanted table (range_step k s wanted vent r) (ground (arith, tag))
    ∙ range_step-version k s wanted vent r (lowest_run k s table) (ground (arith, tag))

range_loop-min :
    (k : Config) (s : Handle) (wanted : Bool) (table : List VersionInfo) (r : Range)
    → is_tagged table ≡ true
    → (range_loop k s wanted table r).min_version ≡ end_min r (lowest_run k s table)
unfolding range_loop lowest_run
range_loop-min k s wanted [] r tag = refl
range_loop-min k s wanted (vent ∷ table) r tag =
    range_loop-min k s wanted table (range_step k s wanted vent r) (ground (arith, tag))
    ∙ range_step-min k s wanted vent r (lowest_run k s table) (ground (arith, tag))

-- `*min_version` and `*max_version`, if there is no error.
abbrev pub ends : RangeResult → Option (ℕ × ℕ)
ends (no_range reason) = none
ends (range b) = some (b.min, b.max)

abbrev pub run_ends : Run → Option (ℕ × ℕ)
run_ends no_run = none
run_ends (run max min closed) = some (min, max)

-- The versions of a table go down from below a bound, and are not 0.
abbrev pub descends : ℕ → List VersionInfo → Bool
descends bound [] = true
descends bound (vent ∷ table) =
    ltb vent.version bound && ltb 0 vent.version && descends vent.version table

-- The order of the ends of a run, below a bound.
abbrev pub below : ℕ → Run → Bool
below bound no_run = true
below bound (run max min closed) = ltb 0 min && leb min max && ltb max bound

pub lowest_run-below :
    (k : Config) (s : Handle) (bound : ℕ) (table : List VersionInfo)
    → descends bound table ≡ true
    → below bound (lowest_run k s table) ≡ true
unfolding lowest_run
lowest_run-below k s bound [] h = refl
lowest_run-below k s bound (vent ∷ table) h =
    go (lowest_run k s table) (lowest_run-below k s vent.version table (ground (arith, h)))
  where
    go :
        (t : Run)
        → below vent.version t ≡ true
        → below bound (raise (is_on k s vent) vent.version t) ≡ true
    go no_run ih = ground (arith, h)
    go (run max min true) ih = ground (arith, h, ih)
    go (run max min false) ih = ground (arith, h, ih)

range_result-ends :
    (r : Range) (t : Run) (bound : ℕ)
    → r.version ≡ end_version initial_range t
    → r.min_version ≡ end_min initial_range t
    → below bound t ≡ true
    → ends (range_result r) ≡ run_ends t
range_result-ends r no_run bound v m h = ground (arith, v, m)
range_result-ends r (run max min true) bound v m h = rw (v, m) (ground (arith, h))
range_result-ends r (run max min false) bound v m h = rw (v, m) (ground (arith, h))

descends-both :
    (bound : ℕ) (off : Bool) (m : Method) (table : List VersionInfo)
    → descends bound (both off m ∷ table)
      ≡ (ltb m.version bound && ltb 0 m.version && descends m.version table)
descends-both bound true m table = refl
descends-both bound false m table = refl

pub tls_table-descends :
    (k : Config) → IsNumbered k → descends (suc k.tls1_3) (tls_version_table k) ≡ true
tls_table-descends k n =
    rw
      (
        descends-both _ k.no_tls1_3 _ _,
        descends-both _ k.no_tls1_2 _ _,
        descends-both _ k.no_tls1_1 _ _,
        descends-both _ k.no_tls1 _ _,
        descends-both _ k.no_ssl3 _ _,
      )
      (ground (arith, n.tls1_3_next, n.tls1_2_next, n.tls1_1_next, n.tls1_next, n.low))

pub get_min_max_version-tls :
    (k : Config) (s : Handle) (wanted : Bool)
    → IsFlexible k s
    → get_min_max_version k s wanted
      ≡ range_result (range_loop k s wanted (tls_version_table k) initial_range)
unfolding get_min_max_version
get_min_max_version-tls k s wanted flexible = ground (arith, flexible.any)

-- For a flexible method of TLS, the versions that `ssl_get_min_max_version` stores are the lowest and
-- the highest of the lowest run of entries of the table that the build has and the connection
-- enables; if no entry is enabled it fails. The numbers of the versions are those of TLS.
pub get_min_max_version-lowest_run :
    (k : Config) (s : Handle) (wanted : Bool)
    → IsNumbered k
    → IsFlexible k s
    → ends (get_min_max_version k s wanted) ≡ run_ends (lowest_run k s (tls_version_table k))
get_min_max_version-lowest_run k s wanted numbered flexible =
    let table = tls_version_table k in
    let tag = tls_table-is_tagged k in
    let r = range_loop k s wanted table initial_range in
    rw (get_min_max_version-tls k s wanted flexible) (
      range_result-ends r (lowest_run k s table) (suc k.tls1_3)
        (range_loop-version k s wanted table initial_range tag)
        (range_loop-min k s wanted table initial_range tag)
        (lowest_run-below k s (suc k.tls1_3) table (tls_table-descends k numbered)))
