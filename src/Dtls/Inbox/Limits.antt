-- ===== src/Dtls/Inbox/Limits.antt =====
-- What is buffered is bounded: an invariant of the queue of received messages.
use openssl_3_0_bee2evp.Prelude.{
  ℕ, ◌≤◌, ◌≡◌, ◌∙◌, refl, sym, Bool, true, false, not, ◌||◌, Option, none, some, List, [], ◌∷◌,
  length, ltb, ◌==◌, if◌then◌else◌, if-holds, Bool-cases, inl, inr, arith,
}
use openssl_3_0_bee2evp.Dtls.Pqueue.{Pitem, pitem_new, insert, find}
use openssl_3_0_bee2evp.Dtls.Pqueue.Order.{IsSorted, insert-IsSorted}
use openssl_3_0_bee2evp.Dtls.Message.{MsgHeader}
use openssl_3_0_bee2evp.Dtls.Reassembly.{HmFragment, fragment_new, put_at, add_body}
use openssl_3_0_bee2evp.Dtls.Reassembly.Pieces.{length-put_at}
use openssl_3_0_bee2evp.Dtls.Inbox.{
  bad_fragment, no_fragment, Read, Inbox, Calls, max_handshake_message_len, is_outside,
  FragmentResult, keep, spoil, reassemble_into, reassemble_fragment, keep_whole, read_whole,
  dropped,
}
use openssl_3_0_bee2evp.Dtls.Inbox.Items.{
  near, IsItem, AreItems, insert-AreItems, set_value-AreItems, find-IsItem, find-priority,
  set_value-IsSorted,
}

-- The invariant of the queue.
pub record IsSound (k : Calls) (s : Inbox) : Type 0 where
  pub sorted : IsSorted s.buffered_messages
  pub items : AreItems s.handshake_read_seq (max_handshake_message_len k s) s.buffered_messages

-- The memory that is new has the length that was asked for.
abbrev pub Allocates : Calls → Type 0
Allocates k = (n : ℕ) → length (k.malloc n) ≡ n

abbrev pub IsSoundAfter : {A : Type 0} → Calls → A × Inbox → Type 0
IsSoundAfter k r = IsSound k r.1

-- One fragment, for a message that is near and not too long, of which it is a part.
module _ (k : Calls) (h : MsgHeader) (s : Inbox) (sound : IsSound k s)
    (close : near s.handshake_read_seq h.seq ≡ true) where
  abbrev max : ℕ
  max = max_handshake_message_len k s

  dropped-IsSound : (failure : FragmentResult) → IsSoundAfter k (dropped failure h.frag_len s)
  dropped-IsSound failure = record { sorted = sound.sorted; items = sound.items }

  -- The reads that are left do not matter.
  unread-IsSound : (reads : List (Option Read)) → IsSound k (record s { reads = reads })
  unread-IsSound reads = record { sorted = sound.sorted; items = sound.items }

  keep-IsSound :
      (new : Bool) (frag : HmFragment) (reads : List (Option Read))
      → IsItem s.handshake_read_seq max (record { priority = h.seq; value = frag })
      → IsSoundAfter k (keep new h.seq frag (record s { reads = reads }))
  unfolding pitem_new
  keep-IsSound true frag reads item =
      let x : Pitem HmFragment = record { priority = h.seq; value = frag } in
      let q = insert s.buffered_messages x in
      if-holds (IsSoundAfter k) (q.1)
        (record {
          sorted = insert-IsSorted s.buffered_messages x sound.sorted;
          items = insert-AreItems s.handshake_read_seq max s.buffered_messages x item sound.items;
        })
        (unread-IsSound reads)
  keep-IsSound false frag reads item = record {
    sorted = set_value-IsSorted h.seq frag s.buffered_messages sound.sorted;
    items =
        set_value-AreItems s.handshake_read_seq max h.seq frag s.buffered_messages item sound.items;
  }

  spoil-IsSound :
      (new : Bool) (bytes : List ℕ) (frag : HmFragment) (reads : List (Option Read))
      → IsItem s.handshake_read_seq max (record { priority = h.seq; value = frag })
      → IsSoundAfter k (spoil new h bytes frag (record s { reads = reads }))
  spoil-IsSound true bytes frag reads item = unread-IsSound reads
  spoil-IsSound false bytes frag reads item =
      let frag' = record frag { fragment = put_at h.frag_off bytes frag.fragment } in
      let item' : IsItem s.handshake_read_seq max (record { priority = h.seq; value = frag' }) =
        record {
          numbered = item.numbered;
          is_near = item.is_near;
          short = item.short;
          fits = length-put_at h.frag_off bytes frag.fragment ∙ item.fits;
        } in
      record {
        sorted = set_value-IsSorted h.seq frag' s.buffered_messages sound.sorted;
        items =
            set_value-AreItems s.handshake_read_seq max h.seq frag' s.buffered_messages item'
              sound.items;
      }

  reassemble_into-IsSound :
      (new : Bool) (frag : HmFragment)
      → IsItem s.handshake_read_seq max (record { priority = h.seq; value = frag })
      → IsSoundAfter k (reassemble_into new h frag s)
  unfolding add_body
  reassemble_into-IsSound new frag item = go frag.reassembly s.reads
    where
      go :
          (r : Option (List (List Bool))) (reads : List (Option Read))
          → IsSoundAfter {A = FragmentResult} k (elim r [
            | none ↦ dropped bad_fragment h.frag_len s
            | some bitmask ↦ elim reads [
              | [] ↦ (bad_fragment, s)
              | none ∷ reads ↦ (bad_fragment, record s { reads = reads })
              | some r ∷ reads ↦
                  let s' = record s { reads = reads } in
                  if not (length r.bytes == h.frag_len)
                  then spoil new h r.bytes frag s'
                  else keep new h.seq (add_body h.frag_off r.bytes bitmask frag) s'
            ]
          ])
      go none reads = dropped-IsSound bad_fragment
      go (some bitmask) [] = sound
      go (some bitmask) (none ∷ reads) = unread-IsSound reads
      go (some bitmask) (some r ∷ reads) =
          if-holds (IsSoundAfter k) (not (length r.bytes == h.frag_len))
            (spoil-IsSound new r.bytes frag reads item)
            (keep-IsSound new (add_body h.frag_off r.bytes bitmask frag) reads (record {
              numbered = item.numbered;
              is_near = item.is_near;
              short = item.short;
              fits = length-put_at h.frag_off r.bytes frag.fragment ∙ item.fits;
            }))

  -- A message that is longer than its item says, or than allowed, is refused.
  reassemble_found :
      (item : Pitem HmFragment)
      → find s.buffered_messages h.seq ≡ some item
      → IsSoundAfter k (
          if not (item.value.msg_header.msg_len == h.msg_len)
          then (bad_fragment, s)
          else reassemble_into false h item.value s)
  reassemble_found item e =
      let i = find-IsItem s.handshake_read_seq max s.buffered_messages h.seq item sound.items e in
      if-holds (IsSoundAfter k) (not (item.value.msg_header.msg_len == h.msg_len)) sound (
        reassemble_into-IsSound false item.value (record {
          numbered = sym (find-priority s.buffered_messages h.seq item e) ∙ i.numbered;
          is_near = i.is_near;
          short = i.short;
          fits = i.fits;
        }))

  pub reassemble_fragment-IsSound : Allocates k → IsSoundAfter k (reassemble_fragment k h s)
  unfolding reassemble_fragment fragment_new
  reassemble_fragment-IsSound allocates = elim (Bool-cases (is_outside h || ltb max h.msg_len)) [
    | inl refused ↦ rw refused sound
    | inr fine ↦ rw fine (
        if-holds (IsSoundAfter k) (h.frag_len == 0) sound
          (go (find s.buffered_messages h.seq) refl fine))
  ]
    where
      go :
          (found : Option (Pitem HmFragment))
          → find s.buffered_messages h.seq ≡ found
          → (is_outside h || ltb max h.msg_len) ≡ false
          → IsSoundAfter {A = FragmentResult} k (elim found [
            | none ↦ reassemble_into true h (fragment_new (k.malloc h.msg_len) h) s
            | some item ↦
                if not (item.value.msg_header.msg_len == h.msg_len)
                then (bad_fragment, s)
                else reassemble_into false h item.value s
          ])
      go none e fine = reassemble_into-IsSound true (fragment_new (k.malloc h.msg_len) h) (record {
        numbered = refl;
        is_near = close;
        short = ground (arith, fine);
        fits = allocates h.msg_len;
      })
      go (some item) e fine = reassemble_found item e

  keep_whole-IsSound :
      (body : List ℕ) (reads : List (Option Read))
      → h.msg_len ≤ max
      → length body ≡ h.msg_len
      → IsSoundAfter k (keep_whole h body (record s { reads = reads }))
  unfolding pitem_new
  keep_whole-IsSound body reads small fits =
      let x : Pitem HmFragment = record {
        priority = h.seq;
        value = record { msg_header = h; fragment = body; reassembly = none };
      } in
      let q = insert s.buffered_messages x in
      if-holds (IsSoundAfter k) (q.1)
        (record {
          sorted = insert-IsSorted s.buffered_messages x sound.sorted;
          items =
              insert-AreItems s.handshake_read_seq max s.buffered_messages x
                (record { numbered = refl; is_near = close; short = small; fits = fits })
                sound.items;
        })
        (unread-IsSound reads)

  pub read_whole-IsSound :
      h.frag_len ≡ h.msg_len → h.msg_len ≤ max → IsSoundAfter k (read_whole h s)
  read_whole-IsSound all small = elim (Bool-cases (h.frag_len == 0)) [
    | inl nothing ↦ rw nothing (keep_whole-IsSound [] s.reads small (ground (arith, nothing, all)))
    | inr something ↦ rw something (go s.reads)
  ]
    where
      go :
          (reads : List (Option Read))
          → IsSoundAfter {A = FragmentResult} k (elim reads [
            | [] ↦ (no_fragment, s)
            | none ∷ reads ↦ (no_fragment, record s { reads = reads })
            | some r ∷ reads ↦
                if not (length r.bytes == h.frag_len)
                then (no_fragment, record s { reads = reads })
                else keep_whole h r.bytes (record s { reads = reads })
          ])
      go [] = sound
      go (none ∷ reads) = unread-IsSound reads
      go (some r ∷ reads) = elim (Bool-cases (length r.bytes == h.frag_len)) [
        | inl same ↦ rw same (keep_whole-IsSound r.bytes reads small (ground (arith, same, all)))
        | inr other ↦ rw other (unread-IsSound reads)
      ]
