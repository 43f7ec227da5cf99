-- ===== src/Dtls/Inbox/Fits.antt =====
-- The room in `init_buf` for a fragment that `dtls1_preprocess_fragment` lets through.
use openssl_3_0_bee2evp.Prelude.{
  ℕ, ◌+◌, ◌≤◌, ◌≡◌, refl, ap, sym, ◌∙◌, true, false, ◌||◌, Option, none, some, List, length, ltb,
  Bool-cases, inl, inr, arith,
}
use openssl_3_0_bee2evp.Dtls.Message.{MsgHeader}
use openssl_3_0_bee2evp.Dtls.Inbox.{
  Inbox, Calls, max_handshake_message_len, is_outside, start_message, preprocess_fragment,
}

-- The buffer has room for the header and the message, of which the fragment is a part; the message is
-- noted as it is said to be, and is not longer than allowed.
pub record Fits (k : Calls) (s : Inbox) (h : MsgHeader) (s' : Inbox) : Type 0 where
  pub inside : h.frag_off + h.frag_len ≤ h.msg_len
  pub room : k.hm_header_length + h.msg_len ≤ length s'.init_buf
  pub allowed : h.msg_len ≤ max_handshake_message_len k s
  pub size : s'.message_size ≡ h.msg_len
  pub header : s'.r_msg_hdr.msg_len ≡ h.msg_len

start_message-Fits :
    (k : Calls) (h : MsgHeader) (s : Inbox)
    → ((buf : List ℕ) (n : ℕ) (buf' : List ℕ) → k.grow_clean buf n ≡ some buf' → n ≤ length buf')
    → h.frag_off + h.frag_len ≤ h.msg_len
    → h.msg_len ≤ max_handshake_message_len k s
    → (start_message k h s).0 ≡ true
    → Fits k s h (start_message k h s).1
start_message-Fits k h s grows inside allowed =
    go (k.grow_clean s.init_buf (h.msg_len + k.hm_header_length)) refl
  where
    go :
        (grown : Option (List ℕ))
        → k.grow_clean s.init_buf (h.msg_len + k.hm_header_length) ≡ grown
        → (start_message k h s).0 ≡ true
        → Fits k s h (start_message k h s).1
    go none e done = absurd (ground (arith, e, done))
    go (some buf) e done = record {
      inside = inside;
      room = ground (arith, e, grows s.init_buf (h.msg_len + k.hm_header_length) buf e);
      allowed = allowed;
      size = ground (arith, e);
      header = ground (arith, e);
    }

begins :
    (k : Calls) (h : MsgHeader) (s : Inbox)
    → (is_outside h || ltb (max_handshake_message_len k s) h.msg_len) ≡ false
    → s.r_msg_hdr.frag_off ≡ 0
    → preprocess_fragment k h s ≡ start_message k h s
unfolding preprocess_fragment
begins k h s fine first = ground (arith, fine, first)

-- When `dtls1_preprocess_fragment` lets a first fragment through, then the fragment is inside its
-- message, `init_buf` has room for the header and the whole message, the message is not longer than
-- `dtls1_max_handshake_message_len`, and its length is noted, if `BUF_MEM_grow_clean` makes the buffer
-- as large as it is asked to.
pub preprocess_fragment-Fits :
    (k : Calls) (h : MsgHeader) (s : Inbox)
    → ((buf : List ℕ) (n : ℕ) (buf' : List ℕ) → k.grow_clean buf n ≡ some buf' → n ≤ length buf')
    → s.r_msg_hdr.frag_off ≡ 0
    → (preprocess_fragment k h s).0 ≡ true
    → Fits k s h (preprocess_fragment k h s).1
unfolding preprocess_fragment
preprocess_fragment-Fits k h s grows first =
    elim (Bool-cases (is_outside h || ltb (max_handshake_message_len k s) h.msg_len)) [
      | inl refused ↦ rw refused (λ done. absurd (ground (arith, done)))
      | inr fine ↦ λ done.
          let same = begins k h s fine first in
          rw same (
            start_message-Fits k h s grows (ground (arith, fine)) (ground (arith, fine))
              (ap (λ r. r.0) (sym same) ∙ done))
    ]
