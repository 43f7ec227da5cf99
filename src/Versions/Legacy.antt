-- ===== src/Versions/Legacy.antt =====
-- The server's choice without the supported_versions extension, and what a failure leaves alone.
use openssl_3_0_bee2evp.Prelude.{
  suc, ℕ, ◌≡◌, refl, inl, inr, Bool, true, false, ◌&&◌, ◌||◌, Option, none, some, List, [], ◌∷◌,
  ltb, leb, ◌==◌, if◌then◌else◌, Bool-cases, arith,
}
use openssl_3_0_bee2evp.Ssl.{is_hrr_none}
use openssl_3_0_bee2evp.Versions.{
  Config, Method, VersionInfo, Handle, is_enabled, tls_version_table, IsNumbered, both, Reason,
  version_too_low, unsupported_protocol,
}
use openssl_3_0_bee2evp.Versions.Server.{
  Downgrade, Hello, absent, choose_legacy, choose_server_version,
}
use openssl_3_0_bee2evp.Versions.Tables.{IsFlexible, version_cmp-less}
use openssl_3_0_bee2evp.Versions.Best.{IsChoice, greatest, told}

-- The versions of a table with an enabled server method.
abbrev pub served : Config → Handle → List VersionInfo → List ℕ
served k s [] = []
served k s (vent ∷ table) =
    let rest = served k s table in
    elim (vent.smeth) [
      | none ↦ rest
      | some m ↦ if is_enabled k s m then vent.version ∷ rest else rest
    ]

-- The table goes down from below a bound to 1 at least, and a server method has its entry's version.
abbrev pub descends : ℕ → List VersionInfo → Bool
descends bound [] = ltb 0 bound
descends bound (vent ∷ table) =
    ltb vent.version bound
    && descends vent.version table
    && elim (vent.smeth) [ none ↦ true | some m ↦ m.version == vent.version ]

abbrev pub up_to : ℕ → ℕ → Bool
up_to v w = leb w v

-- The error if no version is chosen.
abbrev pub legacy_error : Config → Handle → ℕ → Bool → List VersionInfo → Reason
legacy_error k s v disabled [] = if disabled then unsupported_protocol else version_too_low
legacy_error k s v disabled (vent ∷ table) = elim (vent.smeth) [
  | none ↦ legacy_error k s v disabled table
  | some m ↦ legacy_error k s v (disabled || leb vent.version v) table
]

greatest-descends :
    (k : Config) (s : Handle) (v bound : ℕ) (table : List VersionInfo)
    → descends bound table ≡ true
    → ltb (greatest (up_to v) (served k s table)) bound ≡ true
unfolding greatest
greatest-descends k s v bound [] h = ground (arith, h)
greatest-descends k s v bound (vent ∷ table) h =
    ground (arith, h, greatest-descends k s v vent.version table)

leb-false : (a b : ℕ) → ltb a b ≡ true → leb b a ≡ false
leb-false a b h = ground (arith, h)

leb-true : (a b : ℕ) → ltb a b ≡ false → leb b a ≡ true
leb-true a b h = ground (arith, h)

or_false : (a : Bool) → (a || false) ≡ a
or_false a = ground arith

or_true : (a : Bool) → (a || true) ≡ true
or_true a = ground arith

-- The entry of a table that is above `v`, or that is refused, does not count.
greatest-above :
    (k : Config) (s : Handle) (v : ℕ) (vent : VersionInfo) (table : List VersionInfo)
    → ltb v vent.version ≡ true
    → greatest (up_to v) (served k s (vent ∷ table)) ≡ greatest (up_to v) (served k s table)
unfolding greatest
greatest-above k s v vent table h = ground (arith, h)

module _ (k : Config) (s : Handle) (dgrd : Downgrade) (v : ℕ) (tls : s.method.is_dtls ≡ false) where
  -- The three ways through the body of the loop.
  unfoldable IsPicked : Bool → List VersionInfo → Type 0
  IsPicked disabled table =
      IsChoice s dgrd (greatest (up_to v) (served k s table)) (legacy_error k s v disabled table)
        (choose_legacy k s dgrd v disabled table)

  legacy_skips :
      (vent : VersionInfo) (disabled : Bool) (table : List VersionInfo)
      → vent.smeth ≡ none
      → IsPicked disabled table
      → IsPicked disabled (vent ∷ table)
  unfolding choose_legacy IsPicked
  legacy_skips vent disabled table e skipped = rw e skipped

  legacy_entry :
      (vent : VersionInfo) (m : Method) (disabled : Bool) (table : List VersionInfo)
      → vent.smeth ≡ some m
      → descends vent.version table ≡ true
      → (m.version ≡ vent.version)
      → IsPicked disabled table
      → IsPicked true table
      → IsPicked disabled (vent ∷ table)
  unfolding choose_legacy greatest IsPicked
  legacy_entry vent m disabled table e down tag skipped refused =
      let order = version_cmp-less k s v vent.version tls in
      let below = greatest-descends k s v vent.version table down in
      elim (Bool-cases (ltb v vent.version)) [
        | inl above ↦
            rw
              (
                greatest-above k s v vent table above,
                e,
                order,
                above,
                leb-false v vent.version above,
                or_false disabled,
              )
              skipped
        | inr within ↦ elim (Bool-cases (is_enabled k s m)) [
          | inl on ↦
              rw (e, order, within, on, leb-true v vent.version within, below)
                (record {
                  outcome = ground (arith, below);
                  version_is = ground (arith, below);
                  method_is = ground (arith, below, tag);
                  method_kept = refl;
                })
          | inr off ↦
              rw (e, order, within, off, leb-true v vent.version within, or_true disabled) refused
        ]
      ]

  choose_legacy-IsChoice :
      (bound : ℕ) (disabled : Bool) (table : List VersionInfo)
      → descends bound table ≡ true
      → IsPicked disabled table
  unfolding choose_legacy greatest IsPicked
  choose_legacy-IsChoice bound disabled [] h = record {
    outcome = ground arith;
    version_is = refl;
    method_is = refl;
    method_kept = refl;
  }
  choose_legacy-IsChoice bound disabled (vent ∷ table) h =
      let down : descends vent.version table ≡ true = ground (arith, h) in
      go vent.smeth refl (choose_legacy-IsChoice vent.version disabled table down)
        (choose_legacy-IsChoice vent.version true table down) down
    where
      go :
          (c : Option Method)
          → vent.smeth ≡ c
          → IsPicked disabled table
          → IsPicked true table
          → descends vent.version table ≡ true
          → IsPicked disabled (vent ∷ table)
      go none e skipped refused down = legacy_skips vent disabled table e skipped
      go (some m) e skipped refused down =
          legacy_entry vent m disabled table e down (ground (arith, h, e)) skipped refused

descends-both :
    (bound : ℕ) (off : Bool) (m : Method) (table : List VersionInfo)
    → descends bound (both off m ∷ table) ≡ (ltb m.version bound && descends m.version table)
descends-both bound true m table = ground arith
descends-both bound false m table = ground arith

pub tls_table-descends :
    (k : Config) → IsNumbered k → descends (suc k.tls1_3) (tls_version_table k) ≡ true
tls_table-descends k n =
    rw
      (
        descends-both _ k.no_tls1_3 _ _,
        descends-both _ k.no_tls1_2 _ _,
        descends-both _ k.no_tls1_1 _ _,
        descends-both _ k.no_tls1 _ _,
        descends-both _ k.no_ssl3 _ _,
      )
      (ground (arith, n.tls1_3_next, n.tls1_2_next, n.tls1_1_next, n.tls1_next, n.low))

-- The most that is chosen without the extension.
abbrev pub ceiling : Config → ℕ → ℕ
ceiling k legacy = if leb k.tls1_3 legacy then k.tls1_2 else legacy

abbrev pub unlisted : ℕ → Hello
unlisted legacy = record { legacy_version = legacy; suppversions = absent }

choose_server_version-unlisted :
    (k : Config) (s : Handle) (legacy : ℕ) (dgrd : Downgrade)
    → IsFlexible k s
    → is_hrr_none s.hello_retry_request ≡ true
    → choose_server_version k s (unlisted legacy) dgrd
      ≡ choose_legacy k (told s legacy) dgrd (ceiling k legacy) false (tls_version_table k)
unfolding choose_server_version
choose_server_version-unlisted k s legacy dgrd flexible first = ground (
  arith,
  flexible.any,
  first,
  version_cmp-less k (told s legacy) legacy k.tls1_3 flexible.not_dtls,
)

-- When a server with a flexible method of TLS gets the first ClientHello without a list of versions,
-- it chooses the greatest version with an enabled server method that is not above the ClientHello's
-- version, nor above TLSv1.2 when that is TLSv1.3 or more. If there is none it keeps its version and
-- its method, and fails: with `SSL_R_UNSUPPORTED_PROTOCOL` if the build has such a version, which is
-- then disabled, and with `SSL_R_VERSION_TOO_LOW` otherwise. The numbers of the versions are those of
-- TLS.
pub choose_server_version-legacy :
    (k : Config) (s : Handle) (legacy : ℕ) (dgrd : Downgrade)
    → IsNumbered k
    → IsFlexible k s
    → is_hrr_none s.hello_retry_request ≡ true
    → IsChoice s dgrd
        (greatest (up_to (ceiling k legacy)) (served k (told s legacy) (tls_version_table k)))
        (legacy_error k (told s legacy) (ceiling k legacy) false (tls_version_table k))
        (choose_server_version k s (unlisted legacy) dgrd)
unfolding IsPicked
choose_server_version-legacy k s legacy dgrd numbered flexible first =
    let step = choose_server_version-unlisted k s legacy dgrd flexible first in
    let c =
      choose_legacy-IsChoice k (told s legacy) dgrd (ceiling k legacy) flexible.not_dtls
        (suc k.tls1_3) false (tls_version_table k) (tls_table-descends k numbered) in
    rw step (record {
      outcome = c.outcome;
      version_is = c.version_is;
      method_is = c.method_is;
      method_kept = c.method_kept;
    })
