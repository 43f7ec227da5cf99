-- ===== src/Dtls/Inbox/Pass.antt =====
-- The invariant of the queue after one pass of `dtls_get_reassembled_message`.
use openssl_3_0_bee2evp.Prelude.{
  ◌∙◌, ℕ, ◌≡◌, refl, Bool, true, false, not, ◌&&◌, Option, none, some, List, [], ◌∷◌, length, ltb,
  ◌==◌, if◌then◌else◌, if-holds, Bool-cases, inl, inr, arith,
}
use openssl_3_0_bee2evp.Ssl.{illegal_parameter, unexpected_message}
use openssl_3_0_bee2evp.Dtls.Message.{MsgHeader, get_message_header}
use openssl_3_0_bee2evp.Dtls.Inbox.{Read, Inbox, Calls, preprocess_fragment}
use openssl_3_0_bee2evp.Dtls.Inbox.Receive.{
  may_restart, is_ok, Retrieved, fill, restart, retrieve_buffered_fragment, Outcome, f_err, blocked,
  take_ccs, finish, take_body, take_message, take_header, read_header, after_retrieve, unavailable,
  fatal_error, available, get_reassembled_message,
}
use openssl_3_0_bee2evp.Dtls.Inbox.Items.{near}
use openssl_3_0_bee2evp.Dtls.Inbox.Limits.{
  IsSound, Allocates, IsSoundAfter, reassemble_fragment-IsSound,
}
use openssl_3_0_bee2evp.Dtls.Inbox.Sound.{
  process_out_of_seq_message-IsSound, moved-IsSound, preprocess_fragment-IsSound, restart-IsSound,
  preprocess_fragment-seq, may_restart-seq, retrieve-IsSound,
}

module _ (k : Calls) where
  take_ccs-IsSound :
      (bytes : List ℕ) (s : Inbox) → IsSound k s → IsSoundAfter k (take_ccs k bytes s)
  take_ccs-IsSound [] s sound = moved-IsSound k s _ refl refl refl sound
  take_ccs-IsSound (b ∷ more) s sound =
      if-holds (IsSoundAfter k) (not (b == k.mt_ccs)) (moved-IsSound k s _ refl refl refl sound)
        (moved-IsSound k s _ refl refl refl sound)

  finish-IsSound :
      (chretran : Bool) (h : MsgHeader) (s : Inbox)
      → (chretran ≡ true → s.handshake_read_seq ≡ 1)
      → IsSound k s
      → IsSoundAfter k (finish chretran h s)
  finish-IsSound chretran h s one sound =
      moved-IsSound k (restart chretran s) _ refl refl refl (restart-IsSound k s chretran one sound)

  take_body-IsSound :
      (chretran : Bool) (h : MsgHeader) (s : Inbox)
      → (chretran ≡ true → s.handshake_read_seq ≡ 1)
      → IsSound k s
      → IsSoundAfter k (take_body k chretran h s)
  take_body-IsSound chretran h s one sound =
      if-holds (IsSoundAfter k) (not (ltb 0 h.frag_len)) (finish-IsSound chretran h s one sound)
        (go s.reads)
    where
      go :
          (reads : List (Option Read))
          → IsSoundAfter {A = Outcome} k (elim reads [
            | [] ↦ blocked s
            | none ∷ reads ↦ blocked (record s { reads = reads })
            | some r ∷ reads ↦
                let s' = fill k h r.bytes (record s { reads = reads }) in
                if not (length r.bytes == h.frag_len)
                then f_err illegal_parameter s'
                else finish chretran h s'
          ])
      go [] = moved-IsSound k s _ refl refl refl sound
      go (none ∷ reads) = moved-IsSound k s _ refl refl refl sound
      go (some r ∷ reads) =
          if-holds (IsSoundAfter k) (not (length r.bytes == h.frag_len))
            (moved-IsSound k s _ refl refl refl sound)
            (finish-IsSound chretran h (fill k h r.bytes (record s { reads = reads })) one
              (moved-IsSound k s _ refl refl refl sound))

  module _ (allocates : Allocates k) where
    take_message-IsSound :
        (chretran : Bool) (h : MsgHeader) (s : Inbox)
        → (chretran ≡ true → s.handshake_read_seq ≡ 1)
        → near s.handshake_read_seq h.seq ≡ true
        → IsSound k s
        → IsSoundAfter k (take_message k chretran h s)
    take_message-IsSound chretran h s one close sound =
        if-holds (IsSoundAfter k) (not (h.frag_len == 0) && ltb h.frag_len h.msg_len)
          (reassemble_fragment-IsSound k h s sound close allocates)
          (if-holds (IsSoundAfter k)
            (not s.server
              && s.r_msg_hdr.frag_off == 0
              && not (is_ok s.hand_state)
              && h.type == k.mt_hello_request)
            (if-holds (IsSoundAfter k) (h.msg_len == 0) (moved-IsSound k s _ refl refl refl sound)
              (moved-IsSound k s _ refl refl refl sound))
            (let s' = (preprocess_fragment k h s).1 in
              let sound' = preprocess_fragment-IsSound k h s sound in
              if-holds (IsSoundAfter k) (not (preprocess_fragment k h s).0)
                (moved-IsSound k s' _ refl refl refl sound')
                (take_body-IsSound chretran h s' (λ e. preprocess_fragment-seq k h s ∙ one e)
                  sound')))

    take_header-IsSound :
        (h : MsgHeader) (remaining : ℕ) (s : Inbox)
        → IsSound k s
        → IsSoundAfter k (take_header k h remaining s)
    take_header-IsSound h remaining s sound =
        if-holds (IsSoundAfter k) (ltb remaining h.frag_len)
          (moved-IsSound k s _ refl refl refl sound)
          (elim (Bool-cases (h.seq == s.handshake_read_seq)) [
            | inl expected ↦ rw expected (
                take_message-IsSound false h s (λ e. absurd (ground (arith, e)))
                  (ground (arith, expected)) sound)
            | inr other ↦
                rw other (elim (Bool-cases (may_restart h.seq s && h.type == k.mt_client_hello)) [
                  | inl again ↦ rw again (
                      take_message-IsSound true h s
                        (λ e. may_restart-seq h.seq s (ground (arith, again)))
                        (ground (arith, again)) sound)
                  | inr out ↦ rw out (process_out_of_seq_message-IsSound k h s allocates sound)
                ])
          ])

    read_header-IsSound : (s : Inbox) → IsSound k s → IsSoundAfter k (read_header k s)
    read_header-IsSound s sound = go s.reads
      where
        header :
            (r : Read) (reads : List (Option Read)) (parsed : Option (MsgHeader × List ℕ))
            → IsSoundAfter {A = Outcome} k (elim parsed [
              | none ↦ f_err unexpected_message (record s { reads = reads })
              | some (h, rest) ↦ take_header k h r.remaining (record s { reads = reads })
            ])
        header r reads none = moved-IsSound k s _ refl refl refl sound
        header r reads (some (h, rest)) =
            take_header-IsSound h r.remaining (record s { reads = reads })
              (moved-IsSound k s _ refl refl refl sound)

        go :
            (reads : List (Option Read))
            → IsSoundAfter {A = Outcome} k (elim reads [
              | [] ↦ blocked s
              | none ∷ reads ↦ blocked (record s { reads = reads })
              | some r ∷ reads ↦
                  let s' = record s { reads = reads } in
                  if r.is_ccs_record
                  then take_ccs k r.bytes s'
                  else if not (length r.bytes == k.hm_header_length)
                  then f_err unexpected_message s'
                  else elim (get_message_header r.bytes) [
                    | none ↦ f_err unexpected_message s'
                    | some (h, rest) ↦ take_header k h r.remaining s'
                  ]
            ])
        go [] = moved-IsSound k s _ refl refl refl sound
        go (none ∷ reads) = moved-IsSound k s _ refl refl refl sound
        go (some r ∷ reads) =
            let unread = moved-IsSound k s (record s { reads = reads }) refl refl refl sound in
            if-holds (IsSoundAfter k) r.is_ccs_record
              (take_ccs-IsSound r.bytes (record s { reads = reads }) unread)
              (if-holds (IsSoundAfter k) (not (length r.bytes == k.hm_header_length))
                (moved-IsSound k s _ refl refl refl sound)
                (header r reads (get_message_header r.bytes)))

    after_retrieve-IsSound :
        (r : Retrieved × Inbox) → IsSoundAfter k r → IsSoundAfter k (after_retrieve k r)
    after_retrieve-IsSound (fatal_error, s) sound = sound
    after_retrieve-IsSound (available len, s) sound = moved-IsSound k s _ refl refl refl sound
    after_retrieve-IsSound (unavailable, s) sound = read_header-IsSound s sound

-- A pass of `dtls_get_reassembled_message` keeps the queue of buffered messages in strict order of
-- their numbers, each item under its message's number, no number more than 10 ahead of the one that is
-- expected (or above 11, which the restart of a handshake may leave), no message longer than the
-- longest that is allowed, and each in a buffer of its length, whatever is read, if the memory that is
-- allocated has the length that was asked for.
pub get_reassembled_message-IsSound :
    (k : Calls) (s : Inbox) → Allocates k → IsSound k s → IsSound k (get_reassembled_message k s).1
unfolding get_reassembled_message
get_reassembled_message-IsSound k s allocates sound =
    after_retrieve-IsSound k allocates (retrieve_buffered_fragment k s) (retrieve-IsSound k s sound)
