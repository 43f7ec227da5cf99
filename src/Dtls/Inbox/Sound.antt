-- ===== src/Dtls/Inbox/Sound.antt =====
-- The invariant of the queue, through a pass of `dtls_get_reassembled_message`.
use openssl_3_0_bee2evp.Prelude.{
  subst, ◌∙◌, ℕ, ◌+◌, ◌≡◌, refl, Bool, true, false, not, ◌&&◌, ◌||◌, Option, none, some, List, [],
  ◌∷◌, ltb, leb, ◌==◌, if-holds, Bool-cases, inl, inr, arith,
}
use openssl_3_0_bee2evp.Ssl.{illegal_parameter, internal_error}
use openssl_3_0_bee2evp.Dtls.Pqueue.{Pitem}
use openssl_3_0_bee2evp.Dtls.Pqueue.Order.{IsSorted}
use openssl_3_0_bee2evp.Dtls.Message.{MsgHeader}
use openssl_3_0_bee2evp.Dtls.Reassembly.{HmFragment}
use openssl_3_0_bee2evp.Dtls.Inbox.{
  Inbox, Calls, fatal, max_handshake_message_len, is_outside, is_queued, start_message,
  preprocess_fragment, process_out_of_seq_message,
}
use openssl_3_0_bee2evp.Dtls.Inbox.Receive.{
  may_restart, Front, empty, at_head, front, deliver, fill, restart, retrieve_front, is_assembled,
  retrieve_buffered_fragment,
}
use openssl_3_0_bee2evp.Dtls.Inbox.Items.{near, AreItems, no_items, an_item}
use openssl_3_0_bee2evp.Dtls.Inbox.Limits.{
  IsSound, Allocates, IsSoundAfter, reassemble_fragment-IsSound, read_whole-IsSound,
}

-- A message out of sequence is kept only if it is near.
pub process_out_of_seq_message-IsSound :
    (k : Calls) (h : MsgHeader) (s : Inbox)
    → Allocates k
    → IsSound k s
    → IsSoundAfter k (process_out_of_seq_message k h s)
unfolding process_out_of_seq_message
process_out_of_seq_message-IsSound k h s allocates sound =
    if-holds (IsSoundAfter k) (is_outside h) sound
      (elim (Bool-cases (
        leb h.seq s.handshake_read_seq
        || ltb (s.handshake_read_seq + 10) h.seq
        || is_queued h s
        || (s.handshake_read_seq == 0 && h.type == k.mt_finished))) [
          | inl stale ↦ rw stale (record { sorted = sound.sorted; items = sound.items })
          | inr fresh ↦
              let close : near s.handshake_read_seq h.seq ≡ true = ground (arith, fresh) in
              rw fresh (elim (Bool-cases (h.frag_len == h.msg_len)) [
                | inr part ↦ rw part (reassemble_fragment-IsSound k h s sound close allocates)
                | inl whole ↦
                    rw whole (elim (Bool-cases (ltb (max_handshake_message_len k s) h.frag_len)) [
                      | inl long ↦ rw long sound
                      | inr short ↦ rw short (
                          read_whole-IsSound k h s sound close (ground (arith, whole))
                            (ground (arith, short, whole)))
                    ])
              ])
        ])

-- Anything else of the state may change.
pub moved-IsSound :
    (k : Calls) (s s' : Inbox)
    → s'.buffered_messages ≡ s.buffered_messages
    → s'.handshake_read_seq ≡ s.handshake_read_seq
    → s'.max_cert_list ≡ s.max_cert_list
    → IsSound k s
    → IsSound k s'
moved-IsSound k s s' q r m sound = record {
  sorted = rw q sound.sorted;
  items = rw (q, r, m) sound.items;
}

start_message-IsSound :
    (k : Calls) (h : MsgHeader) (s : Inbox) → IsSound k s → IsSoundAfter k (start_message k h s)
start_message-IsSound k h s sound = go (k.grow_clean s.init_buf (h.msg_len + k.hm_header_length))
  where
    go :
        (grown : Option (List ℕ))
        → IsSoundAfter {A = Bool} k (elim grown [
          | none ↦ (false, fatal internal_error s)
          | some buf ↦ (
            true,
            record s {
              init_buf = buf;
              message_size = h.msg_len;
              message_type = h.type;
              r_msg_hdr = record (s.r_msg_hdr) { msg_len = h.msg_len; type = h.type; seq = h.seq };
            },
          )
        ])
    go none = moved-IsSound k s _ refl refl refl sound
    go (some buf) = moved-IsSound k s _ refl refl refl sound

pub preprocess_fragment-IsSound :
    (k : Calls) (h : MsgHeader) (s : Inbox)
    → IsSound k s
    → IsSoundAfter k (preprocess_fragment k h s)
unfolding preprocess_fragment
preprocess_fragment-IsSound k h s sound =
    let kept = moved-IsSound k s (fatal illegal_parameter s) refl refl refl sound in
    if-holds (IsSoundAfter k) (is_outside h || ltb (max_handshake_message_len k s) h.msg_len) kept (
      if-holds (IsSoundAfter k) (s.r_msg_hdr.frag_off == 0) (start_message-IsSound k h s sound)
        (if-holds (IsSoundAfter k) (not (h.msg_len == s.r_msg_hdr.msg_len)) kept sound))

-- A restart sets the number that is expected from 1 to 0.
near_restart : (seq : ℕ) → near 1 seq ≡ true → near 0 seq ≡ true
near_restart seq h = ground (arith, h)

AreItems-restart : (max : ℕ) (q : List (Pitem HmFragment)) → AreItems 1 max q → AreItems 0 max q
AreItems-restart max _ no_items = no_items
AreItems-restart max _ (an_item item q i is) =
    an_item item q
      (record {
        numbered = i.numbered;
        is_near = near_restart item.value.msg_header.seq i.is_near;
        short = i.short;
        fits = i.fits;
      })
      (AreItems-restart max q is)

pub restart-IsSound :
    (k : Calls) (s : Inbox) (chretran : Bool)
    → (chretran ≡ true → s.handshake_read_seq ≡ 1)
    → IsSound k s
    → IsSound k (restart chretran s)
restart-IsSound k s false one sound = sound
restart-IsSound k s true one sound = record {
  sorted = sound.sorted;
  items = AreItems-restart (max_handshake_message_len k s) s.buffered_messages (
      subst (λ n. AreItems n (max_handshake_message_len k s) s.buffered_messages) (one refl)
        sound.items);
}

-- The numbers do not change before a restart.
start_message-seq :
    (k : Calls) (h : MsgHeader) (s : Inbox)
    → (start_message k h s).1.handshake_read_seq ≡ s.handshake_read_seq
start_message-seq k h s = ground arith

pub preprocess_fragment-seq :
    (k : Calls) (h : MsgHeader) (s : Inbox)
    → (preprocess_fragment k h s).1.handshake_read_seq ≡ s.handshake_read_seq
unfolding preprocess_fragment
preprocess_fragment-seq k h s = ground (arith, start_message-seq k h s)

-- What the loop of `dtls1_retrieve_buffered_fragment` leaves.
data IsFront (s : Inbox) (max : ℕ) : Front → Type 0 where
  none_left : IsFront s max empty
  some_left :
      (item : Pitem HmFragment) (rest : List (Pitem HmFragment)) (chretran : Bool)
      → IsSorted (item ∷ rest)
      → AreItems s.handshake_read_seq max (item ∷ rest)
      → (chretran ≡ true → s.handshake_read_seq ≡ 1)
      → IsFront s max (at_head item rest chretran)

pub may_restart-seq : (seq : ℕ) (s : Inbox) → may_restart seq s ≡ true → s.handshake_read_seq ≡ 1
may_restart-seq seq s h = ground (arith, h)

front-IsFront :
    (s : Inbox) (max : ℕ) (q : List (Pitem HmFragment))
    → IsSorted q
    → AreItems s.handshake_read_seq max q
    → IsFront s max (front s q)
unfolding front
front-IsFront s max [] sorted items = none_left
front-IsFront s max (item ∷ []) sorted items =
    if-holds (IsFront s max) (not (ltb item.value.msg_header.seq s.handshake_read_seq))
      (some_left item [] false sorted items (λ e. absurd (ground (arith, e))))
      (elim (Bool-cases (may_restart item.value.msg_header.seq s)) [
        | inl again ↦
            rw again (some_left item [] true sorted items (λ e. may_restart-seq _ s again))
        | inr stale ↦ rw stale none_left
      ])
front-IsFront s max _ sorted (an_item item _ i (an_item next rest j is)) =
    if-holds (IsFront s max) (not (ltb item.value.msg_header.seq s.handshake_read_seq))
      (some_left item (next ∷ rest) false sorted (an_item item _ i (an_item next rest j is))
        (λ e. absurd (ground (arith, e))))
      (elim (Bool-cases (may_restart item.value.msg_header.seq s)) [
        | inl again ↦ rw again (
            if-holds (IsFront s max) (next.value.msg_header.seq == s.handshake_read_seq)
              (some_left next rest false (sorted.1) (an_item next rest j is)
                (λ e. absurd (ground (arith, e))))
              (some_left item (next ∷ rest) true sorted (an_item item _ i (an_item next rest j is))
                (λ e. may_restart-seq _ s again)))
        | inr stale ↦
            rw stale (front-IsFront s max (next ∷ rest) (sorted.1) (an_item next rest j is))
      ])

AreItems-tail :
    (read_seq max : ℕ) (item : Pitem HmFragment) (q : List (Pitem HmFragment))
    → AreItems read_seq max (item ∷ q)
    → AreItems read_seq max q
AreItems-tail read_seq max item q (an_item _ _ i is) = is

deliver-IsSound :
    (k : Calls) (frag : HmFragment) (chretran : Bool) (s : Inbox)
    → (chretran ≡ true → s.handshake_read_seq ≡ 1)
    → IsSound k s
    → IsSoundAfter k (deliver k frag chretran s)
deliver-IsSound k frag chretran s one sound =
    let h = frag.msg_header in
    let s' = (preprocess_fragment k h s).1 in
    let sound' = preprocess_fragment-IsSound k h s sound in
    let one' : chretran ≡ true → s'.handshake_read_seq ≡ 1 =
      λ e. preprocess_fragment-seq k h s ∙ one e in
    if-holds (IsSoundAfter k) (not (preprocess_fragment k h s).0)
      (moved-IsSound k s' _ refl refl refl sound')
      (elim (Bool-cases (ltb 0 h.frag_len)) [
        | inl some_bytes ↦ rw some_bytes (
            restart-IsSound k (fill k h frag.fragment s') chretran one'
              (moved-IsSound k s' _ refl refl refl sound'))
        | inr no_bytes ↦ rw no_bytes (restart-IsSound k s' chretran one' sound')
      ])

retrieve_front-IsSound :
    (k : Calls) (s : Inbox) (f : Front)
    → IsFront s (max_handshake_message_len k s) f
    → IsSoundAfter k (retrieve_front k f s)
retrieve_front-IsSound k s _ none_left = record { sorted = tt; items = no_items }
retrieve_front-IsSound k s _ (some_left item rest chretran sorted items one) =
    if-holds (IsSoundAfter k) (not (is_assembled item.value))
      (record { sorted = sorted; items = items })
      (if-holds (IsSoundAfter k) (s.handshake_read_seq == item.value.msg_header.seq || chretran)
        (deliver-IsSound k item.value chretran (record s { buffered_messages = rest }) one
          (record { sorted = sorted.1; items = AreItems-tail _ _ item rest items }))
        (record { sorted = sorted; items = items }))

pub retrieve-IsSound :
    (k : Calls) (s : Inbox) → IsSound k s → IsSoundAfter k (retrieve_buffered_fragment k s)
unfolding retrieve_buffered_fragment
retrieve-IsSound k s sound =
    retrieve_front-IsSound k s (front s s.buffered_messages)
      (front-IsFront s (max_handshake_message_len k s) s.buffered_messages sound.sorted sound.items)
