-- ===== src/Protocols.antt =====
-- The choice of an application protocol: `SSL_select_next_proto` of ssl/ssl_lib.c. A pointer into a
-- vector of bytes is the list of the bytes from there to the end; `none` is a read past the end.
pub mod Select
mod Tests
use openssl_3_0_bee2evp.Prelude.{
  ℕ, zero, suc, Bool, true, false, ◌&&◌, Option, none, some, List, [], ◌∷◌, ◌==◌, if◌then◌else◌,
}

-- `OPENSSL_NPN_NEGOTIATED` and `OPENSSL_NPN_NO_OVERLAP`
pub data Status : Type 0 where
  negotiated no_overlap : Status

-- The return value, `*outlen` and `*out`.
pub record Selected : Type 0 where
  pub status : Status
  pub outlen : ℕ
  pub out : List ℕ

-- `memcmp(a, b, n) == 0`, which may read all the bytes.
unfoldable pub same_bytes : ℕ → List ℕ → List ℕ → Option Bool
same_bytes zero a b = some true
same_bytes (suc n) [] b = none
same_bytes (suc n) (x ∷ a) [] = none
same_bytes (suc n) (x ∷ a) (y ∷ b) = elim (same_bytes n a b) [
  | none ↦ none
  | some same ↦ some (x == y && same)
]

-- The loop over the client's list, for the server's protocol with the length `len` and the bytes from
-- `name` on. `skip` counts the bytes up to the next length: `j += client[j]; j++`.
unfoldable pub supports : ℕ → List ℕ → ℕ → List ℕ → Option Bool
supports len name skip [] = some false
supports len name (suc skip) (x ∷ client) = supports len name skip client
supports len name zero (x ∷ client) =
    if len == x
    then elim (same_bytes len name client) [
      | none ↦ none
      | some true ↦ some true
      | some false ↦ supports len name x client
    ]
    else supports len name x client

-- At the label `found`.
unfoldable pub found : Status → List ℕ → Option Selected
found st [] = none
found st (n ∷ bytes) = some (record { status = st; outlen = n; out = bytes })

-- The loop over the server's list.
unfoldable pub select_from : ℕ → List ℕ → List ℕ → Option Selected
select_from skip [] client = found no_overlap client
select_from (suc skip) (x ∷ server) client = select_from skip server client
select_from zero (x ∷ server) client = elim (supports x server zero client) [
  | none ↦ none
  | some true ↦ found negotiated (x ∷ server)
  | some false ↦ select_from x server client
]

-- `SSL_select_next_proto`
unfoldable pub select_next_proto : List ℕ → List ℕ → Option Selected
select_next_proto server client = select_from zero server client
