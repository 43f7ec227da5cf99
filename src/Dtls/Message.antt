-- ===== src/Dtls/Message.antt =====
-- The header of a DTLS handshake message: `struct hm_header_st` (ssl/ssl_local.h) and the functions of
-- ssl/statem/statem_dtls.c that set, write and read it. A buffer is the list of its bytes.
pub mod Header
use openssl_3_0_bee2evp.Prelude.{
  ℕ, suc, ◌+◌, ◌-◌, ◌*◌, ◌/◌, ◌%◌, ◌^◌, Bool, Option, none, some, List, [], ◌∷◌, ◌==◌,
  if◌then◌else◌,
}

-- `struct hm_header_st`, but for the state of a retransmission.
pub record MsgHeader : Type 0 where
  pub type : ℕ
  pub msg_len : ℕ
  pub seq : ℕ
  pub frag_off : ℕ
  pub frag_len : ℕ
  pub is_ccs : ℕ

-- The members of `SSL` and `DTLS1_STATE` that number the messages that are written.
pub record Writer : Type 0 where
  pub w_msg_hdr : MsgHeader
  pub handshake_write_seq : ℕ
  pub next_handshake_write_seq : ℕ

-- `s2n` and `l2n3`, before the bytes that follow.
abbrev pub s2n : ℕ → List ℕ → List ℕ
s2n n rest = n / 2 ^ 8 % 256 ∷ n % 256 ∷ rest

abbrev pub l2n3 : ℕ → List ℕ → List ℕ
l2n3 n rest = n / 2 ^ 16 % 256 ∷ n / 2 ^ 8 % 256 ∷ n % 256 ∷ rest

-- `n2s` and `n2l3`: the bytes do not overlap, so that `|` is a sum.
abbrev pub n2s : ℕ → ℕ → ℕ
n2s a b = a * 2 ^ 8 + b

abbrev pub n2l3 : ℕ → ℕ → ℕ → ℕ
n2l3 a b c = a * 2 ^ 16 + b * 2 ^ 8 + c

-- `dtls1_write_message_header`, before the bytes that follow.
unfoldable pub write_message_header : MsgHeader → List ℕ → List ℕ
write_message_header h rest =
    h.type ∷ l2n3 h.msg_len (s2n h.seq (l2n3 h.frag_off (l2n3 h.frag_len rest)))

-- `dtls1_get_message_header`; `none` is a read past the end.
unfoldable pub get_message_header : List ℕ → Option (MsgHeader × List ℕ)
get_message_header (t ∷ l1 ∷ l2 ∷ l3 ∷ s1 ∷ s2 ∷ o1 ∷ o2 ∷ o3 ∷ f1 ∷ f2 ∷ f3 ∷ rest) = some (
  record {
    type = t;
    msg_len = n2l3 l1 l2 l3;
    seq = n2s s1 s2;
    frag_off = n2l3 o1 o2 o3;
    frag_len = n2l3 f1 f2 f3;
    is_ccs = 0;
  },
  rest,
)
get_message_header _ = none

-- `dtls1_set_message_header_int`
unfoldable pub set_message_header_int : ℕ → ℕ → ℕ → ℕ → ℕ → Writer → Writer
set_message_header_int mt len seq_num frag_off frag_len w = record w {
  w_msg_hdr = record (w.w_msg_hdr) {
    type = mt;
    msg_len = len;
    seq = seq_num;
    frag_off = frag_off;
    frag_len = frag_len;
  };
}

-- `dtls1_fix_message_header`
unfoldable pub fix_message_header : ℕ → ℕ → Writer → Writer
fix_message_header frag_off frag_len w = record w {
  w_msg_hdr = record (w.w_msg_hdr) { frag_off = frag_off; frag_len = frag_len };
}

abbrev pub next_seq : ℕ → Writer → Writer
next_seq frag_off w =
    if frag_off == 0
    then record w {
      handshake_write_seq = w.next_handshake_write_seq;
      next_handshake_write_seq = suc w.next_handshake_write_seq % 2 ^ 16;
    }
    else w

-- `dtls1_set_message_header`; the sequence numbers are `unsigned short`.
unfoldable pub set_message_header : ℕ → ℕ → ℕ → ℕ → Writer → Writer
set_message_header mt len frag_off frag_len w =
    let w' = next_seq frag_off w in
    set_message_header_int mt len w'.handshake_write_seq frag_off frag_len w'

-- `dtls1_get_queue_priority`; the subtraction is in `int`, and the caller's type makes the result of
-- 0 - 1 the greatest number of 16 bits.
unfoldable pub get_queue_priority : ℕ → Bool → ℕ
get_queue_priority seq is_ccs =
    if is_ccs then (seq * 2 + (2 ^ 16 - 1)) % 2 ^ 16 else seq * 2 % 2 ^ 16
