-- ===== src/Versions/Range.antt =====
-- The range of versions that a client offers: `ssl_get_min_max_version` and
-- `ssl_set_client_hello_version` of ssl/statem/statem_lib.c.
use openssl_3_0_bee2evp.Prelude.{
  ℕ, Bool, true, false, not, ◌&&◌, Option, none, some, List, [], ◌∷◌, ltb, ◌==◌, if◌then◌else◌,
}
use openssl_3_0_bee2evp.Versions.{
  Config, Method, VersionInfo, Handle, Reason, no_protocols_available, internal_error, table_of,
  is_enabled,
}

-- The variables of the loop. `real_max` is what is stored through the pointer of that name, if it is
-- not NULL.
pub record Range : Type 0 where
  pub version : ℕ
  pub min_version : ℕ
  pub real_max : ℕ
  pub tmp_real_max : ℕ
  pub hole : Bool

-- The body of the loop for a client method; `r` has the new `tmp_real_max`.
abbrev pub enter : Bool → VersionInfo → Method → Range → Range
enter wanted vent m r = record r {
  real_max = if wanted && not (r.tmp_real_max == 0) then r.tmp_real_max else r.real_max;
  version = m.version;
  min_version = m.version;
  hole = false;
}

abbrev pub range_step : Config → Handle → Bool → VersionInfo → Range → Range
range_step k s wanted vent r = elim (vent.cmeth) [
  | none ↦ record r { hole = true; tmp_real_max = 0 }
  | some m ↦
      let tmp = if r.hole && r.tmp_real_max == 0 then vent.version else r.tmp_real_max in
      if not (is_enabled k s m)
      then record r { hole = true; tmp_real_max = tmp }
      else if not r.hole
      then record r { min_version = m.version; tmp_real_max = tmp }
      else enter wanted vent m (record r { tmp_real_max = tmp })
]

unfoldable pub range_loop : Config → Handle → Bool → List VersionInfo → Range → Range
range_loop k s wanted [] r = r
range_loop k s wanted (vent ∷ table) r = range_loop k s wanted table (range_step k s wanted vent r)

abbrev pub initial_range : Range
initial_range = record { version = 0; min_version = 0; real_max = 0; tmp_real_max = 0; hole = true }

-- `*min_version`, `*max_version` and `*real_max`.
pub record Bounds : Type 0 where
  pub min : ℕ
  pub max : ℕ
  pub real_max : ℕ

pub data RangeResult : Type 0 where
  no_range : Reason → RangeResult
  range : Bounds → RangeResult

abbrev pub range_result : Range → RangeResult
range_result r =
    if r.version == 0
    then no_range no_protocols_available
    else range (record { min = r.min_version; max = r.version; real_max = r.real_max })

-- `ssl_get_min_max_version`; `wanted` says that the pointer `real_max` is not NULL.
unfoldable pub get_min_max_version : Config → Handle → Bool → RangeResult
get_min_max_version k s wanted = elim (table_of k s.method.version) [
  | none ↦
      if wanted
      then no_range internal_error
      else range (record { min = s.version; max = s.version; real_max = 0 })
  | some table ↦ range_result (range_loop k s wanted table initial_range)
]

-- `ssl_set_client_hello_version`: an error reason, or `none` for 0, and the connection.
unfoldable pub set_client_hello_version : Config → Handle → Option Reason × Handle
set_client_hello_version k s =
    if not s.first_handshake then (none, s) else elim (get_min_max_version k s false) [
      | no_range reason ↦ (some reason, s)
      | range r ↦ (
        none,
        record s {
          version = r.max;
          client_version = if not s.method.is_dtls && ltb k.tls1_2 r.max then k.tls1_2 else r.max;
        },
      )
    ]
