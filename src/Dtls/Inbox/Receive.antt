-- ===== src/Dtls/Inbox/Receive.antt =====
-- The next message: `dtls1_retrieve_buffered_fragment` and one pass of
-- `dtls_get_reassembled_message` (ssl/statem/statem_dtls.c).
use openssl_3_0_bee2evp.Prelude.{
  ℕ, ◌+◌, Bool, true, false, not, ◌&&◌, ◌||◌, Option, none, some, List, [], ◌∷◌, length, ltb, ◌==◌,
  if◌then◌else◌,
}
use openssl_3_0_bee2evp.Ssl.{
  HandState, sw_hello_verify_request, ok, Alert, illegal_parameter, unexpected_message,
}
use openssl_3_0_bee2evp.Dtls.Pqueue.{Pitem}
use openssl_3_0_bee2evp.Dtls.Message.{MsgHeader, get_message_header}
use openssl_3_0_bee2evp.Dtls.Reassembly.{HmFragment, put_at}
use openssl_3_0_bee2evp.Dtls.Inbox.{
  Inbox, Calls, fatal, preprocess_fragment, FragmentResult, reassemble_fragment,
  process_out_of_seq_message,
}

abbrev pub is_hello_verify_sent : HandState → Bool
is_hello_verify_sent sw_hello_verify_request = true
is_hello_verify_sent _ = false

abbrev pub is_ok : HandState → Bool
is_ok ok = true
is_ok _ = false

-- A ClientHello without a cookie may come again after the HelloVerifyRequest.
abbrev pub may_restart : ℕ → Inbox → Bool
may_restart seq s =
    s.server && seq == 0 && s.handshake_read_seq == 1 && is_hello_verify_sent s.hand_state

-- Where the loop of `dtls1_retrieve_buffered_fragment` ends: no item is left, or it is at the head of
-- the queue that remains, and `chretran`.
pub data Front : Type 0 where
  empty : Front
  at_head : Pitem HmFragment → List (Pitem HmFragment) → Bool → Front

-- The loop, on the queue; what is before the iterator has been popped.
unfoldable pub front : Inbox → List (Pitem HmFragment) → Front
front s [] = empty
front s (item ∷ []) =
    if not (ltb item.value.msg_header.seq s.handshake_read_seq)
    then at_head item [] false
    else if not (may_restart item.value.msg_header.seq s)
    then empty
    else at_head item [] true
front s (item ∷ next ∷ rest) =
    let later = front s (next ∷ rest) in
    if not (ltb item.value.msg_header.seq s.handshake_read_seq)
    then at_head item (next ∷ rest) false
    else if not (may_restart item.value.msg_header.seq s)
    then later
    else if next.value.msg_header.seq == s.handshake_read_seq
    then at_head next rest false
    else at_head item (next ∷ rest) true

-- 0, 1 with the length, and -1.
pub data Retrieved : Type 0 where
  unavailable fatal_error : Retrieved
  available : ℕ → Retrieved

-- The body goes into `init_buf`, after the room for the header.
abbrev pub fill : Calls → MsgHeader → List ℕ → Inbox → Inbox
fill k h body s = record s { init_buf = put_at (k.hm_header_length + h.frag_off) body s.init_buf }

-- The sequence numbers go back to the beginning.
abbrev pub restart : Bool → Inbox → Inbox
restart chretran s =
    if chretran then record s { handshake_read_seq = 0; next_handshake_write_seq = 0 } else s

-- The message is taken out of the queue.
abbrev pub deliver : Calls → HmFragment → Bool → Inbox → Retrieved × Inbox
deliver k frag chretran s =
    let h = frag.msg_header in
    let (done, s') = preprocess_fragment k h s in
    if not done then (fatal_error, record s' { init_num = 0 }) else (
      available h.frag_len,
      restart chretran (if ltb 0 h.frag_len then fill k h frag.fragment s' else s'),
    )

abbrev pub is_assembled : HmFragment → Bool
is_assembled frag = elim (frag.reassembly) [ none ↦ true | some bitmask ↦ false ]

abbrev pub retrieve_front : Calls → Front → Inbox → Retrieved × Inbox
retrieve_front k empty s = (unavailable, record s { buffered_messages = [] })
retrieve_front k (at_head item rest chretran) s =
    if not (is_assembled item.value)
    then (unavailable, record s { buffered_messages = item ∷ rest })
    else if s.handshake_read_seq == item.value.msg_header.seq || chretran
    then deliver k item.value chretran (record s { buffered_messages = rest })
    else (unavailable, record s { buffered_messages = item ∷ rest })

-- `dtls1_retrieve_buffered_fragment`
unfoldable pub retrieve_buffered_fragment : Calls → Inbox → Retrieved × Inbox
retrieve_buffered_fragment k s = retrieve_front k (front s s.buffered_messages) s

-- One pass of `dtls_get_reassembled_message`: 1 with the length, 0 with `*errtype`, if it is set, and
-- the jump to `redo`.
pub data Outcome : Type 0 where
  message : ℕ → Outcome
  no_message : Option FragmentResult → Outcome
  redo : Outcome

-- At the label `f_err`.
abbrev pub f_err : Alert → Inbox → Outcome × Inbox
f_err al s = (no_message none, record (fatal al s) { init_num = 0 })

abbrev pub blocked : Inbox → Outcome × Inbox
blocked s = (no_message none, record s { reading = true })

abbrev pub errtype_of : FragmentResult × Inbox → Outcome × Inbox
errtype_of (r, s) = (no_message (some r), s)

-- A record of a change of cipher specification.
abbrev pub take_ccs : Calls → List ℕ → Inbox → Outcome × Inbox
take_ccs k [] s = f_err unexpected_message s
take_ccs k (b ∷ more) s = if not (b == k.mt_ccs) then f_err unexpected_message s else (
  message (length more),
  record s {
    init_buf = put_at 0 (b ∷ more) s.init_buf;
    init_num = length more;
    message_type = k.mt_ccs;
    message_size = length more;
  },
)

-- The end of the function.
abbrev pub finish : Bool → MsgHeader → Inbox → Outcome × Inbox
finish chretran h s = (message h.frag_len, record (restart chretran s) { init_num = h.frag_len })

-- The body is read.
abbrev pub take_body : Calls → Bool → MsgHeader → Inbox → Outcome × Inbox
take_body k chretran h s = if not (ltb 0 h.frag_len) then finish chretran h s else elim (s.reads) [
  | [] ↦ blocked s
  | none ∷ reads ↦ blocked (record s { reads = reads })
  | some r ∷ reads ↦
      let s' = fill k h r.bytes (record s { reads = reads }) in
      if not (length r.bytes == h.frag_len)
      then f_err illegal_parameter s'
      else finish chretran h s'
]

-- A message in sequence, or a ClientHello that comes again.
abbrev pub take_message : Calls → Bool → MsgHeader → Inbox → Outcome × Inbox
take_message k chretran h s =
    if not (h.frag_len == 0) && ltb h.frag_len h.msg_len
    then errtype_of (reassemble_fragment k h s)
    else if not s.server
        && s.r_msg_hdr.frag_off == 0
        && not (is_ok s.hand_state)
        && h.type == k.mt_hello_request
    then (if h.msg_len == 0 then (redo, record s { init_num = 0 }) else f_err unexpected_message s)
    else let (done, s') = preprocess_fragment k h s in
      if not done then (no_message none, record s' { init_num = 0 }) else take_body k chretran h s'

-- The header has been read.
abbrev pub take_header : Calls → MsgHeader → ℕ → Inbox → Outcome × Inbox
take_header k h remaining s =
    if ltb remaining h.frag_len
    then f_err illegal_parameter s
    else if h.seq == s.handshake_read_seq
    then take_message k false h s
    else if may_restart h.seq s && h.type == k.mt_client_hello
    then take_message k true h s
    else errtype_of (process_out_of_seq_message k h s)

abbrev pub read_header : Calls → Inbox → Outcome × Inbox
read_header k s = elim (s.reads) [
  | [] ↦ blocked s
  | none ∷ reads ↦ blocked (record s { reads = reads })
  | some r ∷ reads ↦
      let s' = record s { reads = reads } in
      if r.is_ccs_record
      then take_ccs k r.bytes s'
      else if not (length r.bytes == k.hm_header_length)
      then f_err unexpected_message s'
      else elim (get_message_header r.bytes) [
        | none ↦ f_err unexpected_message s'
        | some (h, rest) ↦ take_header k h r.remaining s'
      ]
]

abbrev pub after_retrieve : Calls → Retrieved × Inbox → Outcome × Inbox
after_retrieve k (fatal_error, s) = (no_message none, s)
after_retrieve k (available len, s) = (message len, record s { init_num = len })
after_retrieve k (unavailable, s) = read_header k s

-- `dtls_get_reassembled_message`, up to the jump.
unfoldable pub get_reassembled_message : Calls → Inbox → Outcome × Inbox
get_reassembled_message k s = after_retrieve k (retrieve_buffered_fragment k s)
