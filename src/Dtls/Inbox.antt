-- ===== src/Dtls/Inbox.antt =====
-- The handshake messages that are received over DTLS: ssl/statem/statem_dtls.c, from
-- `dtls1_preprocess_fragment` to `dtls_get_reassembled_message`. This file has the state, the checks
-- of a fragment and the buffering of messages.
pub mod Receive
pub mod Items
pub mod Limits
pub mod Sound
pub mod Pass
pub mod InOrder
pub mod Fits
use openssl_3_0_bee2evp.Prelude.{
  ℕ, zero, suc, ◌+◌, ◌-◌, Bool, true, false, not, ◌&&◌, ◌||◌, Option, none, some, List, [], ◌∷◌,
  length, ltb, leb, ◌==◌, if◌then◌else◌,
}
use openssl_3_0_bee2evp.Ssl.{HandState, Alert, internal_error, illegal_parameter}
use openssl_3_0_bee2evp.Dtls.Pqueue.{Pitem, pitem_new, insert, find}
use openssl_3_0_bee2evp.Dtls.Message.{MsgHeader}
use openssl_3_0_bee2evp.Dtls.Reassembly.{HmFragment, fragment_new, put_at, add_body}

-- One success of `ssl_read_bytes`: whether the record is a change of cipher specification, the bytes,
-- and how many are left in the record (`RECORD_LAYER_get_rrec_length`).
pub record Read : Type 0 where
  pub is_ccs_record : Bool
  pub bytes : List ℕ
  pub remaining : ℕ

-- The members of `SSL` and `DTLS1_STATE` that are used. `reads` is what `ssl_read_bytes` is going to
-- return: `none`, and the end of the list, are results that are not positive. `alerts` are the fatal
-- alerts, the last first.
pub record Inbox : Type 0 where
  pub server : Bool
  pub hand_state : HandState
  pub handshake_read_seq : ℕ
  pub next_handshake_write_seq : ℕ
  pub buffered_messages : List (Pitem HmFragment)
  pub r_msg_hdr : MsgHeader
  pub init_buf : List ℕ
  pub init_num : ℕ
  pub message_size : ℕ
  pub message_type : ℕ
  pub max_cert_list : ℕ
  pub reading : Bool
  pub reads : List (Option Read)
  pub alerts : List Alert

-- What is called and not modelled: the contents of new memory, and `BUF_MEM_grow_clean`; and the
-- numbers of public headers.
pub record Calls : Type 0 where
  pub malloc : ℕ → List ℕ
  pub grow_clean : List ℕ → ℕ → Option (List ℕ)
  pub hm_header_length : ℕ
  pub max_encrypted_length : ℕ
  pub mt_finished : ℕ
  pub mt_client_hello : ℕ
  pub mt_hello_request : ℕ
  pub mt_ccs : ℕ

-- `SSLfatal`
abbrev pub fatal : Alert → Inbox → Inbox
fatal al s = record s { alerts = al ∷ s.alerts }

-- `dtls1_max_handshake_message_len`
abbrev pub max_handshake_message_len : Calls → Inbox → ℕ
max_handshake_message_len k s =
    let max_len = k.hm_header_length + k.max_encrypted_length in
    if ltb max_len s.max_cert_list then s.max_cert_list else max_len

-- `(frag_off + frag_len) > msg_len`
abbrev pub is_outside : MsgHeader → Bool
is_outside h = ltb h.msg_len (h.frag_off + h.frag_len)

-- The first fragment of a message.
abbrev pub start_message : Calls → MsgHeader → Inbox → Bool × Inbox
start_message k h s = elim (k.grow_clean s.init_buf (h.msg_len + k.hm_header_length)) [
  | none ↦ (false, fatal internal_error s)
  | some buf ↦ (
    true,
    record s {
      init_buf = buf;
      message_size = h.msg_len;
      message_type = h.type;
      r_msg_hdr = record (s.r_msg_hdr) { msg_len = h.msg_len; type = h.type; seq = h.seq };
    },
  )
]

-- `dtls1_preprocess_fragment`
unfoldable pub preprocess_fragment : Calls → MsgHeader → Inbox → Bool × Inbox
preprocess_fragment k h s =
    if is_outside h || ltb (max_handshake_message_len k s) h.msg_len
    then (false, fatal illegal_parameter s)
    else if s.r_msg_hdr.frag_off == 0
    then start_message k h s
    else if not (h.msg_len == s.r_msg_hdr.msg_len)
    then (false, fatal illegal_parameter s)
    else (true, s)

-- The result of `dtls1_reassemble_fragment` and `dtls1_process_out_of_seq_message`: -1, 0 and
-- `DTLS1_HM_FRAGMENT_RETRY`.
pub data FragmentResult : Type 0 where
  bad_fragment no_fragment fragment_retry : FragmentResult

-- The loop that reads the body of a fragment and drops it: whether it succeeds, and the reads that are
-- left.
unfoldable pub drop_body : ℕ → List (Option Read) → Bool × List (Option Read)
drop_body len [] = (len == 0, [])
drop_body len (none ∷ reads) = if len == 0 then (true, none ∷ reads) else (false, reads)
drop_body len (some r ∷ reads) =
    let rest = drop_body (len - length r.bytes) reads in
    if len == 0 then (true, some r ∷ reads) else rest

abbrev pub dropped : FragmentResult → ℕ → Inbox → FragmentResult × Inbox
dropped failure len s =
    let (done, reads) = drop_body len s.reads in
    (if done then fragment_retry else failure, record s { reads = reads })

-- The item with a priority has a new value: the code changes what the item points to.
abbrev pub set_value : ℕ → HmFragment → List (Pitem HmFragment) → List (Pitem HmFragment)
set_value prio frag [] = []
set_value prio frag (item ∷ q) =
    if item.priority == prio then record item { value = frag } ∷ q else item ∷ set_value prio frag q

-- The fragment goes back to the queue, new or changed.
abbrev pub keep : Bool → ℕ → HmFragment → Inbox → FragmentResult × Inbox
keep true seq frag s =
    let (q, done) = insert s.buffered_messages (pitem_new seq frag) in
    if done then (fragment_retry, record s { buffered_messages = q }) else (bad_fragment, s)
keep false seq frag s =
    (fragment_retry, record s { buffered_messages = set_value seq frag s.buffered_messages })

-- A read that fails or is too short; what it read is in the buffer all the same.
abbrev pub spoil : Bool → MsgHeader → List ℕ → HmFragment → Inbox → FragmentResult × Inbox
spoil true h bytes frag s = (bad_fragment, s)
spoil false h bytes frag s = (
  bad_fragment,
  record s {
    buffered_messages =
        set_value h.seq (record frag { fragment = put_at h.frag_off bytes frag.fragment })
          s.buffered_messages;
  },
)

-- The body of a fragment is read into a message that is being assembled.
abbrev pub read_part :
    Bool → MsgHeader → List (List Bool) → HmFragment → Inbox → FragmentResult × Inbox
read_part new h bitmask frag s = elim (s.reads) [
  | [] ↦ (bad_fragment, s)
  | none ∷ reads ↦ (bad_fragment, record s { reads = reads })
  | some r ∷ reads ↦
      let s' = record s { reads = reads } in
      if not (length r.bytes == h.frag_len)
      then spoil new h r.bytes frag s'
      else keep new h.seq (add_body h.frag_off r.bytes bitmask frag) s'
]

abbrev pub reassemble_into : Bool → MsgHeader → HmFragment → Inbox → FragmentResult × Inbox
reassemble_into new h frag s = elim (frag.reassembly) [
  | none ↦ dropped bad_fragment h.frag_len s
  | some bitmask ↦ read_part new h bitmask frag s
]

-- `dtls1_reassemble_fragment`; the assertion that the message is not empty cannot fail here.
unfoldable pub reassemble_fragment : Calls → MsgHeader → Inbox → FragmentResult × Inbox
reassemble_fragment k h s =
    if is_outside h || ltb (max_handshake_message_len k s) h.msg_len
    then (bad_fragment, s)
    else if h.frag_len == 0
    then (fragment_retry, s)
    else elim (find s.buffered_messages h.seq) [
      | none ↦ reassemble_into true h (fragment_new (k.malloc h.msg_len) h) s
      | some item ↦
          if not (item.value.msg_header.msg_len == h.msg_len)
          then (bad_fragment, s)
          else reassemble_into false h item.value s
    ]

-- A whole message is buffered.
abbrev pub keep_whole : MsgHeader → List ℕ → Inbox → FragmentResult × Inbox
keep_whole h body s =
    let (q, done) =
      insert s.buffered_messages
        (pitem_new h.seq (record { msg_header = h; fragment = body; reassembly = none })) in
    if done then (fragment_retry, record s { buffered_messages = q }) else (no_fragment, s)

abbrev pub read_whole : MsgHeader → Inbox → FragmentResult × Inbox
read_whole h s = if h.frag_len == 0 then keep_whole h [] s else elim (s.reads) [
  | [] ↦ (no_fragment, s)
  | none ∷ reads ↦ (no_fragment, record s { reads = reads })
  | some r ∷ reads ↦
      if not (length r.bytes == h.frag_len)
      then (no_fragment, record s { reads = reads })
      else keep_whole h r.bytes (record s { reads = reads })
]

abbrev pub is_queued : MsgHeader → Inbox → Bool
is_queued h s = elim (find s.buffered_messages h.seq) [
  | none ↦ false
  | some item ↦ h.frag_len == h.msg_len
]

-- `dtls1_process_out_of_seq_message`
unfoldable pub process_out_of_seq_message : Calls → MsgHeader → Inbox → FragmentResult × Inbox
process_out_of_seq_message k h s =
    if is_outside h
    then (no_fragment, s)
    else if leb h.seq s.handshake_read_seq
        || ltb (s.handshake_read_seq + 10) h.seq
        || is_queued h s
        || (s.handshake_read_seq == 0 && h.type == k.mt_finished)
    then dropped no_fragment h.frag_len s
    else if not (h.frag_len == h.msg_len)
    then reassemble_fragment k h s
    else if ltb (max_handshake_message_len k s) h.frag_len
    then (no_fragment, s)
    else read_whole h s
