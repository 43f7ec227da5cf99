-- ===== src/Versions/Tables.antt =====
-- The method that `ssl_version_supported` stores, and the order that `version_cmp` is on TLS.
use openssl_3_0_bee2evp.Prelude.{
  ℕ, ◌≡◌, refl, inl, inr, Bool, true, false, ◌&&◌, Option, none, some, List, [], ◌∷◌, ltb, ◌==◌,
  Bool-cases, arith,
}
use openssl_3_0_bee2evp.Versions.{
  Config, Method, VersionInfo, Handle, is_equal, is_greater, is_less, version_cmp, Support,
  unsupported, supported, supported_in, version_supported, tls_version_table, both,
}

-- The order of the versions in TLS.
pub version_cmp-less :
    (k : Config) (s : Handle) (a b : ℕ)
    → s.method.is_dtls ≡ false
    → is_less (version_cmp k s a b) ≡ ltb a b
unfolding version_cmp
version_cmp-less k s a b h = ground (arith, h)

pub version_cmp-greater :
    (k : Config) (s : Handle) (a b : ℕ)
    → s.method.is_dtls ≡ false
    → is_greater (version_cmp k s a b) ≡ ltb b a
unfolding version_cmp
version_cmp-greater k s a b h = ground (arith, h)

pub version_cmp-equal :
    (k : Config) (s : Handle) (a b : ℕ) → is_equal (version_cmp k s a b) ≡ (a == b)
unfolding version_cmp
version_cmp-equal k s a b = elim (Bool-cases (s.method.is_dtls)) [
  | inl e ↦ ground (arith, e)
  | inr e ↦ ground (arith, e)
]

-- Every client method of a table has the version of its entry.
abbrev tagged : Option Method → ℕ → Bool
tagged none v = true
tagged (some m) v = m.version == v

abbrev pub is_tagged : List VersionInfo → Bool
is_tagged [] = true
is_tagged (vent ∷ table) = tagged vent.cmeth vent.version && is_tagged table

-- The answer names the version that was asked for.
abbrev pub names : ℕ → Support → Bool
names v unsupported = true
names v (supported none) = false
names v (supported (some m)) = m.version == v

supported_in-names :
    (k : Config) (s : Handle) (v : ℕ) (table : List VersionInfo)
    → is_tagged table ≡ true
    → names v (supported_in k s v table) ≡ true
unfolding supported_in
supported_in-names k s v [] h = refl
supported_in-names k s v (vent ∷ table) h =
    ground (arith, supported_in-names k s v table, version_cmp-equal k s v vent.version)

pub both-is_tagged :
    (absent : Bool) (m : Method) (table : List VersionInfo)
    → is_tagged (both absent m ∷ table) ≡ is_tagged table
both-is_tagged true m table = refl
both-is_tagged false m table = ground arith

pub tls_table-is_tagged : (k : Config) → is_tagged (tls_version_table k) ≡ true
tls_table-is_tagged k =
    rw
      (
        both-is_tagged k.no_tls1_3 _ _,
        both-is_tagged k.no_tls1_2 _ _,
        both-is_tagged k.no_tls1_1 _ _,
        both-is_tagged k.no_tls1 _ _,
        both-is_tagged k.no_ssl3 _ _,
      )
      refl

-- A connection with a flexible method of TLS.
pub record IsFlexible (k : Config) (s : Handle) : Type 0 where
  pub any : s.method.version ≡ k.tls_any
  pub not_dtls : s.method.is_dtls ≡ false

pub version_supported-tls :
    (k : Config) (s : Handle) (v : ℕ)
    → IsFlexible k s
    → version_supported k s v ≡ supported_in k s v (tls_version_table k)
unfolding version_supported
version_supported-tls k s v flexible = ground (arith, flexible.any)

pub version_supported-names :
    (k : Config) (s : Handle) (v : ℕ) → IsFlexible k s → names v (version_supported k s v) ≡ true
version_supported-names k s v flexible =
    rw (version_supported-tls k s v flexible)
      (supported_in-names k s v (tls_version_table k) (tls_table-is_tagged k))
