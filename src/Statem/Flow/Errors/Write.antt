-- ===== src/Statem/Flow/Errors/Write.antt =====
-- The errors of the loop in `write_state_machine` (ssl/statem/statem.c).
use openssl_3_0_bee2evp.Prelude.{
  ◌≡◌, refl, inl, inr, true, false, ◌&&◌, none, some, Option, Bool-cases, arith, if◌then◌else◌,
}
use openssl_3_0_bee2evp.Ssl.{MsgType, ◌is◌, dummy, WriteState, WriteTran, internal_error, Env, Ssl}
use openssl_3_0_bee2evp.Statem.Control.{HasFailed, fatal-HasFailed}
use openssl_3_0_bee2evp.Statem.Client.Messages.{client_construct_message}
use openssl_3_0_bee2evp.Statem.Server.Messages.{server_construct_message}
use openssl_3_0_bee2evp.Statem.Flow.{
  Pass, returned, sub_error, FlowCalls, Construct, Constructed, is_more,
}
use openssl_3_0_bee2evp.Statem.Flow.Errors.{check_fatal-HasFailed, FailsOr, after_work-FailsOr}
use openssl_3_0_bee2evp.Statem.Flow.Writing.{
  next_message, do_write, post_work_pass, send_pass, close_and_send, after_construct,
  construct_pass, message_pass, pre_work_pass, after_transition, transition_pass, write_pass,
}

module _ (e : Env) (f : FlowCalls) where
  -- What the writing side waits for: to write, or more work before or after a message.
  pub data IsWriteWait : Ssl → Type 0 where
    cannot_write : {t : Ssl} (u : Ssl) → do_write e f u ≡ (t, false) → IsWriteWait t
    more_to_do : {t : Ssl} → is_more t.statem.write_state_work ≡ true → IsWriteWait t

  abbrev Fails : Pass → Type 0
  Fails p = FailsOr IsWriteWait p

  post_work_pass-Fails : (s : Ssl) → Fails (post_work_pass e f s)
  unfolding post_work_pass
  post_work_pass-Fails s =
      after_work-FailsOr IsWriteWait _ _ _ _ (λ h. cc) (λ m. more_to_do (ground (arith, m))) tt

  send_pass-Fails : (s : Ssl) → Fails (send_pass e f s)
  unfolding send_pass
  send_pass-Fails s =
      let u = if s.is_dtls && s.statem.use_timer then f.start_timer s else s in
      elim (Bool-cases (do_write e f u).1) [
        | inl written ↦ rw written (post_work_pass-Fails _)
        | inr not_written ↦ rw not_written (inr (cannot_write u (ground (arith, not_written))))
      ]

  close_and_send-Fails : (mt : MsgType) (s : Ssl) → Fails (close_and_send e f mt s)
  unfolding close_and_send
  close_and_send-Fails mt s = elim (Bool-cases (f.close_packet mt s).1) [
    | inl closed ↦ rw closed (send_pass-Fails _)
    | inr failed ↦ rw failed (inl (fatal-HasFailed internal_error _))
  ]

  after_construct-Fails :
      (mt : MsgType) (s : Ssl) (r : Constructed) → Fails (after_construct e f mt s r)
  unfolding after_construct
  after_construct-Fails mt s Constructed.construct_failed = inl (check_fatal-HasFailed s)
  after_construct-Fails mt s Constructed.constructed = close_and_send-Fails mt s
  after_construct-Fails mt s Constructed.construct_skipped = tt

  construct_pass-Fails :
      (con : Construct) (mt : MsgType) (s : Ssl) → Fails (construct_pass e f con mt s)
  unfolding construct_pass
  construct_pass-Fails con mt s = elim (Bool-cases (mt is dummy)) [
    | inl skips ↦ rw skips tt
    | inr sends ↦ rw sends (elim (Bool-cases (f.start_packet mt s).1) [
      | inl started ↦ rw started (after_construct-Fails mt _ _)
      | inr failed ↦ rw failed (inl (fatal-HasFailed internal_error _))
    ])
  ]

  -- Where a state has no message, the connection fails.
  next_message-HasFailed :
      (s : Ssl) → (next_message e f s).1 ≡ none → HasFailed (next_message e f s).0
  unfolding next_message server_construct_message client_construct_message
  next_message-HasFailed s h = ground (arith, fatal-HasFailed internal_error s)

  message_pass-Fails : (s : Ssl) → Fails (message_pass e f s)
  unfolding message_pass
  message_pass-Fails s = go (next_message e f s) (next_message-HasFailed s)
    where
      go :
          (r : Ssl × Option (Construct × MsgType))
          → (r.1 ≡ none → HasFailed r.0)
          → Fails (elim r.1 [
            | none ↦ returned sub_error r.0
            | some (con, mt) ↦ construct_pass e f con mt r.0
          ])
      go (t, none) h = inl (h refl)
      go (t, some (con, mt)) h = construct_pass-Fails con mt t

  pre_work_pass-Fails : (s : Ssl) → Fails (pre_work_pass e f s)
  unfolding pre_work_pass
  pre_work_pass-Fails s =
      after_work-FailsOr IsWriteWait _ _ _ _ (λ h. cc) (λ m. more_to_do (ground (arith, m)))
        (message_pass-Fails _)

  after_transition-Fails : (t : WriteTran) (s : Ssl) → Fails (after_transition e f t s)
  unfolding after_transition
  after_transition-Fails WriteTran.tran_error s = inl (check_fatal-HasFailed s)
  after_transition-Fails WriteTran.tran_continue s = tt
  after_transition-Fails WriteTran.tran_finished s = tt

  pub write_pass-Fails : (w : WriteState) (s : Ssl) → Fails (write_pass e f w s)
  unfolding write_pass transition_pass
  write_pass-Fails WriteState.write_transition s = after_transition-Fails _ _
  write_pass-Fails WriteState.write_pre_work s = pre_work_pass-Fails s
  write_pass-Fails WriteState.write_send s = send_pass-Fails s
  write_pass-Fails WriteState.write_post_work s = post_work_pass-Fails s
