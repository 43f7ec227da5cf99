-- ===== src/Statem/Flow/Errors/Read.antt =====
-- The errors of the loop in `read_state_machine` (ssl/statem/statem.c).
use openssl_3_0_bee2evp.Prelude.{
  ◌≡◌, refl, inl, inr, true, false, not, none, some, ltb, arith, Bool-cases, Option, ◌&&◌,
  if◌then◌else◌,
}
use openssl_3_0_bee2evp.Ssl.{MsgType, ReadState, internal_error, illegal_parameter, Env, Ssl}
use openssl_3_0_bee2evp.Statem.Control.{HasDropped, IsRefusal, fatal-HasFailed}
use openssl_3_0_bee2evp.Statem.Client.Rejection.{client_read_transition-IsRefusal}
use openssl_3_0_bee2evp.Statem.Server.Rejection.{server_read_transition-IsRefusal}
use openssl_3_0_bee2evp.Statem.Flow.{sub_error, MsgProcess, Pass, returned, FlowCalls, is_more}
use openssl_3_0_bee2evp.Statem.Flow.Errors.{check_fatal-HasFailed, FailsOr, after_work-FailsOr}
use openssl_3_0_bee2evp.Statem.Flow.Reading.{
  read_transition, get_message, get_body, after_process, body_pass, header_moved, header_got,
  header_pass, post_process_pass, read_pass, max_message_size,
}

module _ (e : Env) (f : FlowCalls) where
  -- What the reading side waits for: a message, the body of one, the next message after one that was
  -- dropped, or more work after the processing of one.
  pub data IsReadWait : Ssl → Type 0 where
    no_message : {t : Ssl} (u : Ssl) → get_message e f u ≡ (t, none) → IsReadWait t
    no_body : {t : Ssl} (u : Ssl) → get_body e f u ≡ (t, false) → IsReadWait t
    dropped : {t : Ssl} (mt : MsgType) → HasDropped mt t → IsReadWait t
    more_to_do : {t : Ssl} → is_more t.statem.read_state_work ≡ true → IsReadWait t

  abbrev Fails : Pass → Type 0
  Fails p = FailsOr IsReadWait p

  after_process-Fails : (r : MsgProcess) (s : Ssl) → Fails (after_process e f r s)
  unfolding after_process
  after_process-Fails MsgProcess.process_error s = inl (check_fatal-HasFailed s)
  after_process-Fails MsgProcess.finished_reading s = tt
  after_process-Fails MsgProcess.continue_processing s = tt
  after_process-Fails MsgProcess.continue_reading s = tt

  body_pass-Fails : (s : Ssl) → Fails (body_pass e f s)
  unfolding body_pass
  body_pass-Fails s = elim (Bool-cases (get_body e f s).1) [
    | inr none_got ↦ simp none_got (inr (no_body s (ground (arith, none_got))))
    | inl got ↦
        simp got
          (elim (Bool-cases
            (f.packet_buf_init (record ((get_body e f s).0) { first_packet = false }))) [
              | inl fits ↦ simp fits (after_process-Fails _ _)
              | inr long ↦ simp long (inl (fatal-HasFailed internal_error _))
            ])
  ]

  header_moved-Fails : (s : Ssl) → Fails (header_moved e f s)
  unfolding header_moved
  header_moved-Fails s = elim (Bool-cases (ltb (max_message_size e f s) s.message_size)) [
    | inl long ↦ rw long (inl (fatal-HasFailed illegal_parameter s))
    | inr fits ↦
        rw fits
          (elim (Bool-cases
            (if not s.is_dtls && ltb 0 s.message_size then f.grow_init_buf s else (s, true)).1) [
              | inl grown ↦ rw grown (body_pass-Fails _)
              | inr failed ↦ rw failed (inl (fatal-HasFailed internal_error _))
            ])
  ]

  read_transition-IsRefusal :
      (s : Ssl) (mt : MsgType)
      → (read_transition e f s mt).1 ≡ false
      → IsRefusal mt (read_transition e f s mt).0
  unfolding read_transition
  read_transition-IsRefusal s mt = elim (Bool-cases s.server) [
    | inl server ↦ simp server (server_read_transition-IsRefusal e s mt)
    | inr client ↦ simp client (client_read_transition-IsRefusal e s mt)
  ]

  header_got-Fails : (s : Ssl) (mt : MsgType) → Fails (header_got e f s mt)
  unfolding header_got
  header_got-Fails s mt = elim (Bool-cases (read_transition e f s mt).1) [
    | inl allowed ↦ rw allowed (header_moved-Fails _)
    | inr refused ↦ rw refused (elim (read_transition-IsRefusal s mt refused) [
      | inl d ↦ inr (dropped mt d)
      | inr h ↦ inl h
    ])
  ]

  header_pass-Fails : (s : Ssl) → Fails (header_pass e f s)
  unfolding header_pass
  header_pass-Fails s = go (get_message e f s) refl
    where
      go :
          (r : Ssl × Option MsgType)
          → get_message e f s ≡ r
          → Fails (elim r.1 [ none ↦ returned sub_error r.0 | some m ↦ header_got e f r.0 m ])
      go (t, none) at = inr (no_message s at)
      go (t, some m) at = header_got-Fails t m

  post_process_pass-Fails : (s : Ssl) → Fails (post_process_pass e f s)
  unfolding post_process_pass
  post_process_pass-Fails s =
      after_work-FailsOr IsReadWait _ _ _ _ (λ h. cc) (λ m. more_to_do (ground (arith, m))) tt

  pub read_pass-Fails : (r : ReadState) (s : Ssl) → Fails (read_pass e f r s)
  unfolding read_pass
  read_pass-Fails ReadState.read_header s = header_pass-Fails s
  read_pass-Fails ReadState.read_body s = body_pass-Fails s
  read_pass-Fails ReadState.read_post_process s = post_process_pass-Fails s
