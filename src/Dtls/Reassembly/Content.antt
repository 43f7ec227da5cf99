-- ===== src/Dtls/Reassembly/Content.antt =====
-- The assembly of a message from its fragments, in any order and with repetitions.
use openssl_3_0_bee2evp.Prelude.{
  ℕ, zero, suc, ◌+◌, ◌*◌, ◌/◌, ◌%◌, ◌<◌, ◌≤◌, ◌≡◌, ◌∙◌, ◌↔◌, refl, ap, sym, Bool, true, false, none,
  some, List, [], ◌∷◌, Bool-cases, arith, inl, inr, length,
}
use openssl_3_0_bee2evp.Dtls.Bitmap.{bit_at}
use openssl_3_0_bee2evp.Dtls.Message.{MsgHeader}
use openssl_3_0_bee2evp.Dtls.Reassembly.{
  element, mark, is_complete, HmFragment, zeros, fragment_new, add_body, add_fragment,
}
use openssl_3_0_bee2evp.Dtls.Reassembly.Mask.{covered, length-mark}
use openssl_3_0_bee2evp.Dtls.Reassembly.Complete.{is_complete-covered}
use openssl_3_0_bee2evp.Dtls.Reassembly.Pieces.{
  Piece, IsPart, AreParts, no_parts, part, arrived, add_all, length-put_at, same_elements,
  put_at-content, arrived-bounded, mark-arrived,
}

-- What the fragments `ps` of a message have made of the buffer.
pub data Assembles (message : List ℕ) (ps : List Piece) (frag : HmFragment) : Type 0 where
  whole :
      frag.reassembly ≡ none
      → frag.fragment ≡ message
      → ((i : ℕ) → i < length message → arrived ps i ≡ true)
      → Assembles message ps frag
  partial :
      (bitmask : List (List Bool))
      → frag.reassembly ≡ some bitmask
      → length bitmask ≡ (length message + 7) / 8
      → frag.msg_header.msg_len ≡ length message
      → length frag.fragment ≡ length message
      → ((i : ℕ) → i < 8 * ((length message + 7) / 8) → covered bitmask i ≡ arrived ps i)
      → ((i : ℕ) → arrived ps i ≡ true → element 0 frag.fragment i ≡ element 0 message i)
      → ¬ ((i : ℕ) → i < length message → arrived ps i ≡ true)
      → Assembles message ps frag

pub covered-zeros : (n i : ℕ) → covered (zeros [] n) i ≡ false
covered-zeros n i = ap (λ b. bit_at b (i % 8)) (go n (i / 8))
  where
    go : (n k : ℕ) → element {A = List Bool} [] (zeros [] n) k ≡ []
    go zero k = refl
    go (suc n) zero = refl
    go (suc n) (suc k) = go n k

length-zeros : (n : ℕ) → length (zeros {A = List Bool} [] n) ≡ n
length-zeros zero = refl
length-zeros (suc n) = ap suc (length-zeros n)

-- The state after one more fragment.
add_body-Assembles :
    (message : List ℕ) (ps : List Piece) (frag : HmFragment) (p : Piece)
    (bitmask : List (List Bool))
    → AreParts message (p ∷ ps)
    → IsPart message p
    → length bitmask ≡ (length message + 7) / 8
    → frag.msg_header.msg_len ≡ length message
    → length frag.fragment ≡ length message
    → ((i : ℕ) → i < 8 * ((length message + 7) / 8) → covered bitmask i ≡ arrived ps i)
    → ((i : ℕ) → arrived ps i ≡ true → element 0 frag.fragment i ≡ element 0 message i)
    → Assembles message (p ∷ ps) (add_body p.off p.body bitmask frag)
unfolding add_body
add_body-Assembles message ps frag p bitmask are_parts is_part mask_size len_is size bits content =
    let len = length message in
    let marked = mark p.off (p.off + length p.body) bitmask in
    let bits' = mark-arrived message ps bitmask p is_part mask_size bits in
    let content' = put_at-content message ps frag.fragment p is_part size content in
    let bounded = λ (i : ℕ). arrived-bounded message (p ∷ ps) i are_parts in
    let positive : 0 < len = omega (arith, is_part.some_byte, is_part.inside) in
    let clean : (i : ℕ) → len ≤ i → i < 8 * ((len + 7) / 8) → covered marked i ≡ false =
      λ i above below. bits' i below ∙ ground (arith, above, bounded i) in
    let says = is_complete-covered len marked positive clean in
    let size' = length-put_at p.off p.body frag.fragment ∙ size in
    elim (Bool-cases (is_complete len marked)) [
      | inl complete ↦
          let all = λ (i : ℕ) (below : i < len).
            sym (bits' i (omega (arith, below))) ∙ says.0 complete i below in
          whole (rw (len_is, complete) refl)
            (same_elements _ message size' (λ i below. content' i (all i below))) all
      | inr incomplete ↦
          partial marked (rw (len_is, incomplete) refl)
            (length-mark p.off (p.off + length p.body) bitmask ∙ mask_size) len_is size' bits'
            content'
            (λ all.
              let complete = says.1 (λ i below. bits' i (omega (arith, below)) ∙ all i below) in
              absurd (ground (arith, complete, incomplete)))
    ]

add_fragment-Assembles :
    (message : List ℕ) (ps : List Piece) (frag : HmFragment) (p : Piece)
    → AreParts message (p ∷ ps)
    → IsPart message p
    → Assembles message ps frag
    → Assembles message (p ∷ ps) (add_fragment p.off p.body frag)
unfolding add_fragment add_body
add_fragment-Assembles message ps frag p are_parts is_part (whole done same all) =
    rw done (whole refl same (λ i below. ground (arith, all i below)))
add_fragment-Assembles message ps frag p are_parts is_part
      (partial bitmask going mask_size len_is size bits content unfinished) =
    rw going (
      add_body-Assembles message ps frag p bitmask are_parts is_part mask_size len_is size bits
        content)

fragment_new-Assembles :
    (message junk : List ℕ) (h : MsgHeader)
    → 0 < length message
    → h.msg_len ≡ length message
    → length junk ≡ length message
    → Assembles message [] (fragment_new junk h)
unfolding fragment_new
fragment_new-Assembles message junk h positive len_is size =
    partial (zeros [] ((h.msg_len + 7) / 8)) refl
      (length-zeros ((h.msg_len + 7) / 8) ∙ ap (λ n. (n + 7) / 8) len_is) len_is size
      (λ i below. covered-zeros ((h.msg_len + 7) / 8) i)
      (λ i none_yet. absurd (ground (arith, none_yet)))
      (λ all. absurd (ground (arith, all 0 positive)))

add_all-Assembles :
    (message junk : List ℕ) (h : MsgHeader) (ps : List Piece)
    → 0 < length message
    → h.msg_len ≡ length message
    → length junk ≡ length message
    → AreParts message ps
    → Assembles message ps (add_all ps (fragment_new junk h))
unfolding add_all
add_all-Assembles message junk h _ positive len_is size no_parts =
    fragment_new-Assembles message junk h positive len_is size
add_all-Assembles message junk h _ positive len_is size (part p ps is_part are_parts) =
    add_fragment-Assembles message ps _ p (part p ps is_part are_parts) is_part
      (add_all-Assembles message junk h ps positive len_is size are_parts)

-- The message is complete exactly when all its bytes have arrived, and it is then the one sent.
pub record IsReassembled (message : List ℕ) (ps : List Piece) (frag : HmFragment) : Type 0 where
  pub complete_iff : (frag.reassembly ≡ none) ↔ ((i : ℕ) → i < length message → arrived ps i ≡ true)
  pub content : frag.reassembly ≡ none → frag.fragment ≡ message

-- Fragments of one message arrive, in any order, overlapping and repeated, each not empty, inside the
-- message and with its bytes, and are added to a new `hm_fragment` for the length of the message,
-- which is not 0, whatever its buffer holds at first. Then `reassembly` is NULL if and only if every
-- byte of the message has arrived, and then the buffer holds the message.
pub add_all-IsReassembled :
    (message junk : List ℕ) (h : MsgHeader) (ps : List Piece)
    → 0 < length message
    → h.msg_len ≡ length message
    → length junk ≡ length message
    → AreParts message ps
    → IsReassembled message ps (add_all ps (fragment_new junk h))
add_all-IsReassembled message junk h ps positive len_is size are_parts =
    elim (add_all-Assembles message junk h ps positive len_is size are_parts) [
      | whole done same all ↦ record { complete_iff = (λ e. all, λ h. done); content = λ e. same }
      | partial bitmask going mask_size l s bits content unfinished ↦ record {
        complete_iff = (λ e. absurd (ground (arith, e, going)), λ all. absurd (unfinished all));
        content = λ e. absurd (ground (arith, e, going));
      }
    ]
