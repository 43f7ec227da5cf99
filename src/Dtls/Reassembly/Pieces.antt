-- ===== src/Dtls/Reassembly/Pieces.antt =====
-- The fragments of a message, and what adding one does to the buffer and to the bitmask.
use openssl_3_0_bee2evp.Prelude.{
  ℕ, suc, ◌+◌, ◌-◌, ◌*◌, ◌/◌, ◌<◌, ◌≤◌, ◌≡◌, ◌∙◌, refl, ap, ap₂, Bool, true, false, ◌&&◌, ◌||◌,
  List, [], ◌∷◌, ltb, leb, ◌==◌, if◌then◌else◌, Bool-cases, arith, inl, inr, length,
}
use openssl_3_0_bee2evp.Dtls.Reassembly.{element, update, mark, HmFragment, put_at, add_fragment}
use openssl_3_0_bee2evp.Dtls.Reassembly.Mask.{covered, covered-mark, element-update, length-update}

-- A fragment that has arrived, and its place in the message.
pub record Piece : Type 0 where
  pub off : ℕ
  pub body : List ℕ

-- It is a part of the message, and not empty.
pub record IsPart (message : List ℕ) (p : Piece) : Type 0 where
  pub some_byte : 0 < length p.body
  pub inside : p.off + length p.body ≤ length message
  pub same_bytes : (j : ℕ) → j < length p.body → element 0 p.body j ≡ element 0 message (p.off + j)

pub data AreParts (message : List ℕ) : List Piece → Type 0 where
  no_parts : AreParts message []
  part :
      (p : Piece) (ps : List Piece)
      → IsPart message p
      → AreParts message ps
      → AreParts message (p ∷ ps)

-- Whether a byte is in one of the fragments.
abbrev pub covers : Piece → ℕ → Bool
covers p i = leb p.off i && ltb i (p.off + length p.body)

abbrev pub arrived : List Piece → ℕ → Bool
arrived [] i = false
arrived (p ∷ ps) i = arrived ps i || covers p i

-- The fragments are added, the last of the list first.
unfoldable pub add_all : List Piece → HmFragment → HmFragment
add_all [] frag = frag
add_all (p ∷ ps) frag = add_fragment p.off p.body (add_all ps frag)

pub element-put_at :
    (off : ℕ) (body buffer : List ℕ) (i : ℕ)
    → off + length body ≤ length buffer
    → element 0 (put_at off body buffer) i ≡ (
        if leb off i && ltb i (off + length body)
        then element 0 body (i - off)
        else element 0 buffer i)
element-put_at off [] buffer i h = ground arith
element-put_at off (b ∷ body) buffer i h =
    let buffer' = update (λ c. b) buffer off in
    element-put_at (suc off) body buffer' i (omega (arith, h, length-update (λ c. b) buffer off))
    ∙ elim (Bool-cases (i == off)) [
      | inl here ↦
          let first : i - off ≡ 0 = ground (arith, here) in
          ground (
            arith,
            here,
            h,
            ap (element 0 (b ∷ body)) first,
            element-update 0 (λ c. b) buffer off i,
          )
      | inr other ↦ elim (Bool-cases (ltb off i)) [
        | inl later ↦
            let next : i - off ≡ suc (i - suc off) = ground (arith, later) in
            ground (
              arith,
              later,
              h,
              ap (element 0 (b ∷ body)) next,
              element-update 0 (λ c. b) buffer off i,
            )
        | inr earlier ↦ ground (arith, other, earlier, element-update 0 (λ c. b) buffer off i)
      ]
    ]

pub length-put_at :
    (off : ℕ) (body buffer : List ℕ) → length (put_at off body buffer) ≡ length buffer
length-put_at off [] buffer = refl
length-put_at off (b ∷ body) buffer =
    length-put_at (suc off) body (update (λ c. b) buffer off) ∙ length-update (λ c. b) buffer off

-- Two lists of the same length with the same elements.
pub same_elements :
    (xs ys : List ℕ)
    → length xs ≡ length ys
    → ((i : ℕ) → i < length ys → element 0 xs i ≡ element 0 ys i)
    → xs ≡ ys
same_elements [] [] size h = refl
same_elements [] (y ∷ ys) size h = absurd (omega (arith, size))
same_elements (x ∷ xs) [] size h = absurd (omega (arith, size))
same_elements (x ∷ xs) (y ∷ ys) size h =
    ap₂ (λ z zs. z ∷ zs) (h 0 (omega arith))
      (same_elements xs ys (omega (arith, size)) (λ i below. h (suc i) (omega (arith, below))))

-- The bytes after one more fragment.
pub put_at-content :
    (message : List ℕ) (ps : List Piece) (buffer : List ℕ) (p : Piece)
    → IsPart message p
    → length buffer ≡ length message
    → ((i : ℕ) → arrived ps i ≡ true → element 0 buffer i ≡ element 0 message i)
    → (i : ℕ) → arrived (p ∷ ps) i ≡ true
    → element 0 (put_at p.off p.body buffer) i ≡ element 0 message i
put_at-content message ps buffer p is_part size content i here =
    element-put_at p.off p.body buffer i (omega (arith, is_part.inside, size))
    ∙ elim (Bool-cases (covers p i)) [
      | inl new ↦ rw new (
          is_part.same_bytes (i - p.off) (ground (arith, new))
          ∙ ap (element 0 message) (ground (arith, new)))
      | inr old ↦ rw old (content i (ground (arith, here, old)))
    ]

pub arrived-bounded :
    (message : List ℕ) (ps : List Piece) (i : ℕ)
    → AreParts message ps
    → arrived ps i ≡ true
    → i < length message
arrived-bounded message _ i no_parts h = absurd (ground (arith, h))
arrived-bounded message _ i (part p ps is_part are_parts) h =
    ground (arith, h, is_part.inside, arrived-bounded message ps i are_parts)

-- The bits after one more fragment.
pub mark-arrived :
    (message : List ℕ) (ps : List Piece) (bitmask : List (List Bool)) (p : Piece)
    → IsPart message p
    → length bitmask ≡ (length message + 7) / 8
    → ((i : ℕ) → i < 8 * ((length message + 7) / 8) → covered bitmask i ≡ arrived ps i)
    → (i : ℕ) → i < 8 * ((length message + 7) / 8)
    → covered (mark p.off (p.off + length p.body) bitmask) i ≡ arrived (p ∷ ps) i
mark-arrived message ps bitmask p is_part mask_size bits i below =
    covered-mark p.off (p.off + length p.body) i bitmask (omega (arith, is_part.some_byte))
      (omega (arith, is_part.inside, mask_size))
    ∙ ap (λ c. c || covers p i) (bits i below)
