-- ===== src/Dtls/Tests/Fragments.antt =====
-- A message of twelve bytes in two fragments.
use openssl_3_0_bee2evp.Prelude.{
  ℕ, ◌+◌, ◌≡◌, refl, true, false, some, List, [], ◌∷◌, ◌==◌, arith, holds_below-each,
}
use openssl_3_0_bee2evp.Dtls.Bitmap.{zeros_before}
use openssl_3_0_bee2evp.Dtls.Message.{MsgHeader, write_message_header, get_message_header}
use openssl_3_0_bee2evp.Dtls.Message.Header.{IsSendable, get-write}
use openssl_3_0_bee2evp.Dtls.Reassembly.{
  element, zeros, mark, mark_bits, fill_bytes, is_complete, all_full, fragment_new, add_body,
  add_fragment,
}
use openssl_3_0_bee2evp.Dtls.Reassembly.Pieces.{Piece, IsPart, AreParts, no_parts, part, add_all}
use openssl_3_0_bee2evp.Dtls.Reassembly.Content.{IsReassembled, add_all-IsReassembled}

abbrev header : MsgHeader
header = record { type = 11; msg_len = 12; seq = 258; frag_off = 2; frag_len = 10; is_ccs = 0 }

header-IsSendable : IsSendable header
header-IsSendable = record {
  type_fits = omega arith;
  msg_len_fits = omega arith;
  seq_fits = omega arith;
  frag_off_fits = omega arith;
  frag_len_fits = omega arith;
  no_ccs = refl;
}

written : write_message_header header [] ≡ 11 ∷ 0 ∷ 0 ∷ 12 ∷ 1 ∷ 2 ∷ 0 ∷ 0 ∷ 2 ∷ 0 ∷ 0 ∷ 10 ∷ []
unfolding write_message_header
written = refl

get-write_example :
    get_message_header (write_message_header header (7 ∷ [])) ≡ some (header, 7 ∷ [])
get-write_example = get-write header (7 ∷ []) header-IsSendable

-- The message, its first three bytes and its last ten.
abbrev text : List ℕ
text = 1 ∷ 2 ∷ 3 ∷ 4 ∷ 5 ∷ 6 ∷ 7 ∷ 8 ∷ 9 ∷ 10 ∷ 11 ∷ 12 ∷ []

abbrev start : Piece
start = record { off = 0; body = 1 ∷ 2 ∷ 3 ∷ [] }

abbrev tail : Piece
tail = record { off = 2; body = 3 ∷ 4 ∷ 5 ∷ 6 ∷ 7 ∷ 8 ∷ 9 ∷ 10 ∷ 11 ∷ 12 ∷ [] }

abbrev junk : List ℕ
junk = zeros 99 12

same_byte :
    (p : Piece) (j : ℕ)
    → (element 0 p.body j == element 0 text (p.off + j)) ≡ true
    → element 0 p.body j ≡ element 0 text (p.off + j)
same_byte p j h = ground (arith, h)

start-IsPart : IsPart text start
start-IsPart = record {
  some_byte = omega arith;
  inside = omega arith;
  same_bytes = λ j below. same_byte start j (
      holds_below-each 3 (λ j. element 0 start.body j == element 0 text (start.off + j)) j refl
        below);
}

tail-IsPart : IsPart text tail
tail-IsPart = record {
  some_byte = omega arith;
  inside = omega arith;
  same_bytes = λ j below. same_byte tail j (
      holds_below-each 10 (λ j. element 0 tail.body j == element 0 text (tail.off + j)) j refl
        below);
}

parts : AreParts text (start ∷ tail ∷ [])
parts = part start (tail ∷ []) start-IsPart (part tail [] tail-IsPart no_parts)

assembled : (add_all (start ∷ tail ∷ []) (fragment_new junk header)).fragment ≡ text
unfolding add_all fragment_new add_fragment add_body mark mark_bits fill_bytes zeros_before
    is_complete all_full
assembled = refl

not_yet : is_complete 12 (mark 2 12 (zeros [] 2)) ≡ false
unfolding mark mark_bits fill_bytes zeros_before is_complete all_full
not_yet = refl

add_all-IsReassembled_example :
    IsReassembled text (start ∷ tail ∷ []) (add_all (start ∷ tail ∷ []) (fragment_new junk header))
add_all-IsReassembled_example =
    add_all-IsReassembled text junk header (start ∷ tail ∷ []) (omega arith) refl refl parts
