-- ===== src/Dtls/Tests/Received.antt =====
-- A server that expects the message with the number 1.
use openssl_3_0_bee2evp.Prelude.{
  zero, suc, ℕ, ◌≤◌, ◌≡◌, refl, true, false, Option, none, some, List, [], ◌∷◌, length, arith, ap,
}
use openssl_3_0_bee2evp.Ssl.{sr_clnt_hello}
use openssl_3_0_bee2evp.Dtls.Pqueue.{Pitem, pitem_new, insert, find}
use openssl_3_0_bee2evp.Dtls.Message.{MsgHeader, get_message_header}
use openssl_3_0_bee2evp.Dtls.Reassembly.{zeros, HmFragment}
use openssl_3_0_bee2evp.Dtls.Inbox.{
  Read, Inbox, Calls, preprocess_fragment, process_out_of_seq_message, fragment_retry,
}
use openssl_3_0_bee2evp.Dtls.Inbox.Receive.{
  front, retrieve_buffered_fragment, get_reassembled_message, no_message, deliver,
}
use openssl_3_0_bee2evp.Dtls.Inbox.Items.{near, IsItem, no_items, an_item}
use openssl_3_0_bee2evp.Dtls.Inbox.Limits.{IsSound}
use openssl_3_0_bee2evp.Dtls.Inbox.Pass.{get_reassembled_message-IsSound}
use openssl_3_0_bee2evp.Dtls.Inbox.InOrder.{behind, retrieve-expected}
use openssl_3_0_bee2evp.Dtls.Inbox.Fits.{Fits, preprocess_fragment-Fits}

abbrev calls : Calls
calls = record {
  malloc = zeros 0;
  grow_clean = λ buf n. some (zeros 0 n);
  hm_header_length = 12;
  max_encrypted_length = 16704;
  mt_finished = 20;
  mt_client_hello = 1;
  mt_hello_request = 0;
  mt_ccs = 1;
}

length-zeros : (n : ℕ) → length (zeros {A = ℕ} 0 n) ≡ n
length-zeros zero = refl
length-zeros (suc n) = ap suc (length-zeros n)

grows :
    (buf : List ℕ) (n : ℕ) (buf' : List ℕ) → calls.grow_clean buf n ≡ some buf' → n ≤ length buf'
grows buf n buf' e =
    let same : zeros 0 n ≡ buf' = ground (arith, e) in omega (arith, ap length same, length-zeros n)

abbrev no_header : MsgHeader
no_header = record { type = 0; msg_len = 0; seq = 0; frag_off = 0; frag_len = 0; is_ccs = 0 }

-- A ClientKeyExchange of two bytes.
abbrev header : ℕ → MsgHeader
header seq = record { type = 16; msg_len = 2; seq = seq; frag_off = 0; frag_len = 2; is_ccs = 0 }

abbrev whole : ℕ → HmFragment
whole seq = record { msg_header = header seq; fragment = 8 ∷ 9 ∷ []; reassembly = none }

abbrev wire : ℕ → List ℕ
wire seq = 16 ∷ 0 ∷ 0 ∷ 2 ∷ 0 ∷ seq ∷ 0 ∷ 0 ∷ 0 ∷ 0 ∷ 0 ∷ 2 ∷ []

abbrev inbox : List (Pitem HmFragment) → List (Option Read) → Inbox
inbox q reads = record {
  server = true;
  hand_state = sr_clnt_hello;
  handshake_read_seq = 1;
  next_handshake_write_seq = 1;
  buffered_messages = q;
  r_msg_hdr = no_header;
  init_buf = [];
  init_num = 0;
  message_size = 0;
  message_type = 0;
  max_cert_list = 0;
  reading = false;
  reads = reads;
  alerts = [];
}

-- The message with the number 2 arrives.
abbrev early : Inbox
early = inbox [] (
    some (record { is_ccs_record = false; bytes = wire 2; remaining = 2 })
    ∷ some (record { is_ccs_record = false; bytes = 8 ∷ 9 ∷ []; remaining = 0 })
    ∷ [])

early_is_buffered :
    get_reassembled_message calls early
    ≡ (no_message (some fragment_retry), inbox (pitem_new 2 (whole 2) ∷ []) [])
unfolding get_reassembled_message retrieve_buffered_fragment front get_message_header
    process_out_of_seq_message insert find pitem_new
early_is_buffered = refl

get_reassembled_message-IsSound_example : IsSound calls (get_reassembled_message calls early).1
get_reassembled_message-IsSound_example =
    get_reassembled_message-IsSound calls early length-zeros
      (record { sorted = tt; items = no_items })

-- A stale message, the one that is expected, and a later one.
abbrev waiting : Inbox
waiting =
    inbox
      (record { priority = 0; value = whole 0 }
        ∷ record { priority = 1; value = whole 1 }
        ∷ record { priority = 4; value = whole 4 }
        ∷ [])
      []

whole-IsItem :
    (seq : ℕ) → near 1 seq ≡ true → IsItem 1 16716 (record { priority = seq; value = whole seq })
whole-IsItem seq close = record {
  numbered = refl;
  is_near = close;
  short = omega arith;
  fits = refl;
}

waiting-IsSound : IsSound calls waiting
waiting-IsSound = record {
  sorted = ((omega arith, (omega arith, tt)), ((omega arith, tt), (tt, tt)));
  items =
      an_item _ _ (whole-IsItem 0 refl)
        (an_item _ _ (whole-IsItem 1 refl) (an_item _ _ (whole-IsItem 4 refl) no_items));
}

found : find waiting.buffered_messages 1 ≡ some (record { priority = 1; value = whole 1 })
unfolding find
found = refl

retrieve-expected_example :
    retrieve_buffered_fragment calls waiting
    ≡ deliver calls
        (whole 1)
        false
        (record waiting { buffered_messages = behind 1 waiting.buffered_messages })
retrieve-expected_example =
    retrieve-expected calls waiting (record { priority = 1; value = whole 1 }) waiting-IsSound found
      refl

let_through : (preprocess_fragment calls (header 1) waiting).0 ≡ true
unfolding preprocess_fragment
let_through = refl

preprocess_fragment-Fits_example :
    Fits calls waiting (header 1) (preprocess_fragment calls (header 1) waiting).1
preprocess_fragment-Fits_example =
    preprocess_fragment-Fits calls (header 1) waiting grows refl let_through
