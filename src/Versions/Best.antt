-- ===== src/Versions/Best.antt =====
-- The loop over the client's list of versions, against the greatest version of the list that the
-- server supports.
use openssl_3_0_bee2evp.Prelude.{
  sym, ℕ, ◌<◌, ◌≡◌, refl, Bool, true, false, ◌&&◌, none, some, List, [], ◌∷◌, ltb, ◌==◌,
  if◌then◌else◌, arith,
}
use openssl_3_0_bee2evp.Versions.{
  Reason, unsupported_protocol, Config, Handle, version_supported, is_supported,
}
use openssl_3_0_bee2evp.Ssl.{is_hrr_none}
use openssl_3_0_bee2evp.Versions.Server.{
  Best, better, best_of, Downgrade, Choice, settle, Hello, versions, choose_server_version,
}
use openssl_3_0_bee2evp.Versions.Tables.{IsFlexible, version_cmp-greater, version_supported-names}

-- The greatest number of a list that satisfies a test; 0 if there is none.
unfoldable pub greatest : (ℕ → Bool) → List ℕ → ℕ
greatest p [] = 0
greatest p (v ∷ vs) = let g = greatest p vs in if p v && ltb g v then v else g

abbrev pub supports : Config → Handle → ℕ → Bool
supports k s v = is_supported (version_supported k s v)

-- The method that goes with the best version so far.
abbrev pub is_tagged : Best → Bool
is_tagged best = elim (best.method) [ none ↦ best.vers == 0 | some m ↦ m.version == best.vers ]

better-vers :
    (k : Config) (s : Handle) (v : ℕ) (best : Best)
    → IsFlexible k s
    → (better k s v best).vers ≡ (if supports k s v && ltb best.vers v then v else best.vers)
better-vers k s v best flexible =
    ground (arith, version_cmp-greater k s v best.vers flexible.not_dtls)

better-is_tagged :
    (k : Config) (s : Handle) (v : ℕ) (best : Best)
    → IsFlexible k s
    → is_tagged best ≡ true
    → is_tagged (better k s v best) ≡ true
better-is_tagged k s v best flexible h = ground (
  arith,
  version_cmp-greater k s v best.vers flexible.not_dtls,
  version_supported-names k s v flexible,
)

pub best_of-vers :
    (k : Config) (s : Handle) (list : List ℕ) (best : Best)
    → IsFlexible k s
    → (best_of k s list best).vers ≡ (
        if ltb best.vers (greatest (supports k s) list)
        then greatest (supports k s) list
        else best.vers)
unfolding best_of greatest
best_of-vers k s [] best flexible = ground arith
best_of-vers k s (v ∷ list) best flexible =
    ground
      (arith, best_of-vers k s list (better k s v best) flexible, better-vers k s v best flexible)

pub best_of-is_tagged :
    (k : Config) (s : Handle) (list : List ℕ) (best : Best)
    → IsFlexible k s
    → is_tagged best ≡ true
    → is_tagged (best_of k s list best) ≡ true
unfolding best_of
best_of-is_tagged k s [] best flexible h = h
best_of-is_tagged k s (v ∷ list) best flexible h =
    best_of-is_tagged k s list (better k s v best) flexible (better-is_tagged k s v best flexible h)

-- What the server ends up with for a version `g`, or for none if it is 0, starting from `s`.
pub record IsChoice (s : Handle) (dgrd : Downgrade) (g : ℕ) (none_error : Reason) (c : Choice)
    : Type 0 where
  pub outcome : c.error ≡ (if g == 0 then some none_error else none)
  pub version_is : c.handle.version ≡ (if g == 0 then s.version else g)
  pub method_is : c.handle.method.version ≡ (if g == 0 then s.method.version else g)
  pub method_kept : c.handle.no_method ≡ s.no_method

settle-IsChoice :
    (k : Config) (s : Handle) (dgrd : Downgrade) (best : Best)
    → is_hrr_none s.hello_retry_request ≡ true
    → is_tagged best ≡ true
    → IsChoice s dgrd best.vers unsupported_protocol (settle k s dgrd false best)
settle-IsChoice k s dgrd best first tag = record {
  outcome = ground (arith, first);
  version_is = ground (arith, first, tag);
  method_is = ground (arith, first, tag);
  method_kept = ground (arith, first, tag);
}

abbrev pub no_best : Best
no_best = record { vers = 0; method = none }

-- The connection after the ClientHello's version is noted.
abbrev pub told : Handle → ℕ → Handle
told s legacy = record s { client_version = legacy }

abbrev pub listed : ℕ → List ℕ → Hello
listed legacy list = record { legacy_version = legacy; suppversions = versions list false }

choose_server_version-listed :
    (k : Config) (s : Handle) (legacy : ℕ) (list : List ℕ) (dgrd : Downgrade)
    → IsFlexible k s
    → k.ssl3 < legacy
    → choose_server_version k s (listed legacy list) dgrd
      ≡ settle k (told s legacy) dgrd false (best_of k (told s legacy) list no_best)
unfolding choose_server_version
choose_server_version-listed k s legacy list dgrd flexible high =
    ground (arith, flexible.any, flexible.not_dtls)

best_of-greatest :
    (k : Config) (s : Handle) (list : List ℕ)
    → IsFlexible k s
    → (best_of k s list no_best).vers ≡ greatest (supports k s) list
best_of-greatest k s list flexible = ground (arith, best_of-vers k s list no_best flexible)

-- When a server with a flexible method of TLS gets the first ClientHello with a well-formed list of
-- versions and a legacy version above SSLv3, it chooses the greatest version of the list that it
-- supports, with the method of that version; if it supports none of them, it fails with
-- `SSL_R_UNSUPPORTED_PROTOCOL` and keeps its version and its method. `s->method` is never set to NULL.
pub choose_server_version-greatest :
    (k : Config) (s : Handle) (legacy : ℕ) (list : List ℕ) (dgrd : Downgrade)
    → IsFlexible k s
    → is_hrr_none s.hello_retry_request ≡ true
    → k.ssl3 < legacy
    → IsChoice s dgrd
        (greatest (supports k (told s legacy)) list)
        unsupported_protocol
        (choose_server_version k s (listed legacy list) dgrd)
choose_server_version-greatest k s legacy list dgrd flexible first high =
    let s' = told s legacy in
    let flexible' : IsFlexible k s' = record { any = flexible.any; not_dtls = flexible.not_dtls } in
    let c =
      settle-IsChoice k s' dgrd (best_of k s' list no_best) first
        (best_of-is_tagged k s' list no_best flexible' refl) in
    let step = choose_server_version-listed k s legacy list dgrd flexible high in
    let g = best_of-greatest k s' list flexible' in
    rw (step, sym g)
      (record {
        outcome = c.outcome;
        version_is = c.version_is;
        method_is = c.method_is;
        method_kept = c.method_kept;
      })
