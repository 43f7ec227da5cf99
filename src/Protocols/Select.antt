-- ===== src/Protocols/Select.antt =====
-- `SSL_select_next_proto` (ssl/ssl_lib.c) against the lists of protocols that the vectors encode.
use openssl_3_0_bee2evp.Prelude.{
  ℕ, zero, suc, ◌≡◌, refl, ap, ◌∙◌, inl, inr, Bool, true, false, ◌&&◌, ◌||◌, Option, none, some,
  List, [], ◌∷◌, ◌++◌, length, ◌==◌, if◌then◌else◌, Bool-cases, arith,
}
use openssl_3_0_bee2evp.Protocols.{
  Status, negotiated, no_overlap, Selected, same_bytes, supports, found, select_from,
  select_next_proto,
}

-- A protocol's name, and the vector of 8-bit, length-prefixed strings that encodes a list of them.
abbrev pub Name : Type 0
Name = List ℕ

abbrev pub encode : List Name → List ℕ
encode [] = []
encode (p ∷ ps) = length p ∷ (p ++ encode ps)

abbrev pub same_name : Name → Name → Bool
same_name [] [] = true
same_name (x ∷ p) (y ∷ q) = x == y && same_name p q
same_name _ _ = false

unfoldable pub offers : Name → List Name → Bool
offers p [] = false
offers p (q ∷ qs) = same_name p q || offers p qs

-- The first name of the server's that the client offers too.
unfoldable pub first_common : List Name → List Name → Option Name
first_common [] client = none
first_common (p ∷ ps) client = if offers p client then some p else first_common ps client

-- The bytes that `*out` and `*outlen` stand for.
abbrev pub take : ℕ → List ℕ → List ℕ
take zero xs = []
take (suc n) [] = []
take (suc n) (x ∷ xs) = x ∷ take n xs

abbrev pub chosen : Selected → Status × Name
chosen s = (s.status, take s.outlen s.out)

-- What is to be chosen: a common name, or else the client's first.
abbrev pub choice : Option Name → List Name → Option (Status × Name)
choice (some p) client = some (negotiated, p)
choice none [] = none
choice none (q ∷ qs) = some (no_overlap, q)

abbrev pub map_chosen : Option Selected → Option (Status × Name)
map_chosen none = none
map_chosen (some s) = some (chosen s)

take-append : (p xs : List ℕ) → take (length p) (p ++ xs) ≡ p
take-append [] xs = refl
take-append (x ∷ p) xs = ap (λ q. x ∷ q) (take-append p xs)

same_bytes-append :
    (p q xs ys : List ℕ)
    → length p ≡ length q
    → same_bytes (length p) (p ++ xs) (q ++ ys) ≡ some (same_name p q)
unfolding same_bytes
same_bytes-append [] [] xs ys h = refl
same_bytes-append [] (y ∷ q) xs ys h = ground arith
same_bytes-append (x ∷ p) [] xs ys h = ground arith
same_bytes-append (x ∷ p) (y ∷ q) xs ys h = rw (same_bytes-append p q xs ys (omega (arith, h))) refl

same_name-length : (p q : Name) → same_name p q ≡ true → length p ≡ length q
same_name-length [] [] h = refl
same_name-length [] (y ∷ q) h = cc
same_name-length (x ∷ p) [] h = cc
same_name-length (x ∷ p) (y ∷ q) h = ground (arith, same_name-length p q)

-- The loops skip a name.
supports-skip :
    (len : ℕ) (name q ys : List ℕ) → supports len name (length q) (q ++ ys) ≡ supports len name 0 ys
unfolding supports
supports-skip len name [] ys = refl
supports-skip len name (y ∷ q) ys = supports-skip len name q ys

select_from-skip :
    (q ys client : List ℕ) → select_from (length q) (q ++ ys) client ≡ select_from 0 ys client
unfolding select_from
select_from-skip [] ys client = refl
select_from-skip (y ∷ q) ys client = select_from-skip q ys client

-- The inner loop finds the name if the client offers it, and reads no byte past the end.
supports_lem :
    (p : Name) (xs : List ℕ) (client : List Name)
    → supports (length p) (p ++ xs) 0 (encode client) ≡ some (offers p client)
unfolding supports offers
supports_lem p xs [] = refl
supports_lem p xs (q ∷ qs) = elim (Bool-cases (length p == length q)) [
  | inl same ↦
      rw (same, same_bytes-append p q xs (encode qs) (ground (arith, same)))
        (elim (Bool-cases (same_name p q)) [
          | inl eq ↦ rw eq refl
          | inr ne ↦ rw ne (supports-skip (length p) (p ++ xs) q (encode qs) ∙ supports_lem p xs qs)
        ])
  | inr other ↦ elim (Bool-cases (same_name p q)) [
    | inl eq ↦ ground (arith, other, same_name-length p q eq)
    | inr ne ↦
        rw (other, ne) (supports-skip (length p) (p ++ xs) q (encode qs) ∙ supports_lem p xs qs)
  ]
]

module _ (p : Name) (server : List ℕ) (client : List Name) where
  abbrev after_supports : Option Bool → Option Selected
  after_supports none = none
  after_supports (some true) = found negotiated (length p ∷ (p ++ server))
  after_supports (some false) = select_from (length p) (p ++ server) (encode client)

  -- One round of the outer loop.
  select_from-common :
      offers p client ≡ true
      → select_from 0 (length p ∷ (p ++ server)) (encode client)
        ≡ found negotiated (length p ∷ (p ++ server))
  unfolding select_from
  select_from-common h = ap after_supports (supports_lem p server client ∙ ap (λ b. some b) h)

  select_from-other :
      offers p client ≡ false
      → select_from 0 (length p ∷ (p ++ server)) (encode client)
        ≡ select_from 0 server (encode client)
  unfolding select_from
  select_from-other h =
      ap after_supports (supports_lem p server client ∙ ap (λ b. some b) h)
      ∙ select_from-skip p server (encode client)

-- On two vectors that encode lists of names, `SSL_select_next_proto` reads no byte past the end of a
-- vector, unless the client's list is empty and nothing is in common; it chooses the first of the
-- server's names that the client offers too, or, if there is none, the client's first name, and says
-- which of the two it did.
pub select_next_proto_lem :
    (server client : List Name)
    → map_chosen (select_next_proto (encode server) (encode client))
      ≡ choice (first_common server client) client
unfolding select_next_proto select_from found first_common
select_next_proto_lem [] [] = refl
select_next_proto_lem [] (q ∷ qs) = ap (λ n. some (no_overlap, n)) (take-append q (encode qs))
select_next_proto_lem (p ∷ ps) client = elim (Bool-cases (offers p client)) [
  | inl common ↦ rw common (
      ap map_chosen (select_from-common p (encode ps) client common)
      ∙ ap (λ n. some (negotiated, n)) (take-append p (encode ps)))
  | inr other ↦ rw other (
      ap map_chosen (select_from-other p (encode ps) client other)
      ∙ select_next_proto_lem ps client)
]
