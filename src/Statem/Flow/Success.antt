-- ===== src/Statem/Flow/Success.antt =====
-- When `state_machine` returns 1 (ssl/statem/statem.c), the message flow has finished.
use openssl_3_0_bee2evp.Prelude.{
  ◌≡◌, ◌≢◌, refl, ◌||◌, inl, inr, Bool, true, false, none, some, Option, Bool-cases, arith,
  if◌then◌else◌,
}
use openssl_3_0_bee2evp.Ssl.{
  MsgType, WorkState, WriteState, WriteTran, work_finished_stop, flow_writing, flow_finished, Env,
  Ssl,
}
use openssl_3_0_bee2evp.Statem.{in_before, set_in_handshake}
use openssl_3_0_bee2evp.Statem.Work.Ends.{
  Ends, client_pre_work-Ends, client_post_work-Ends, server_pre_work-Ends, server_post_work-Ends,
}
use openssl_3_0_bee2evp.Statem.Flow.{
  sub_error, sub_end_handshake, Pass, again, returned, Construct, Constructed, FlowCalls,
  after_work,
}
use openssl_3_0_bee2evp.Statem.Flow.Reading.{init_read_state_machine, set_read_state}
use openssl_3_0_bee2evp.Statem.Flow.Writing.{
  pre_work, post_work, next_message, post_work_pass, send_pass, close_and_send, after_construct,
  construct_pass, message_pass, pre_work_pass, after_transition, transition_pass, write_pass,
  init_write_state_machine,
}
use openssl_3_0_bee2evp.Statem.Flow.Machine.{
  Loops, ends, goes_on, Flows, finishes, has_read, has_written, has_ended, Runs, runs, writing,
  or_fatal, start_writing, set_up, initialise, start,
}

-- A pass that ends the handshake leaves the connection out of the initial state.
record Leaves (p : Pass) : Type 0 where
  pub out_of_init : (t : Ssl) → p ≡ returned sub_end_handshake t → t.statem.in_init ≡ false

if-Leaves : (b : Bool) (p q : Pass) → Leaves p → Leaves q → Leaves (if b then p else q)
if-Leaves true p q x y = x
if-Leaves false p q x y = y

again-Leaves : (s : Ssl) → Leaves (again s)
again-Leaves s = record { out_of_init = λ t h. cc }

error-Leaves : (s : Ssl) → Leaves (returned sub_error s)
error-Leaves s = record { out_of_init = λ t h. cc }

after_work-Leaves :
    (w : WorkState) (s : Ssl) (next : Pass)
    → (w ≡ work_finished_stop → s.statem.in_init ≡ false)
    → Leaves next
    → Leaves (after_work w sub_end_handshake s next)
unfolding after_work
after_work-Leaves WorkState.work_error s next out n = error-Leaves _
after_work-Leaves WorkState.work_finished_stop s next out n = record {
  out_of_init = λ t h. ground (arith, out refl);
}
after_work-Leaves WorkState.work_finished_continue s next out n = n
after_work-Leaves WorkState.work_more_a s next out n = error-Leaves s
after_work-Leaves WorkState.work_more_b s next out n = error-Leaves s
after_work-Leaves WorkState.work_more_c s next out n = error-Leaves s

module _ (e : Env) (f : FlowCalls) where
  pre_work-Ends : (s : Ssl) → Ends (pre_work e f s)
  unfolding pre_work
  pre_work-Ends s = elim (Bool-cases s.server) [
    | inl server ↦ simp server (server_pre_work-Ends e.consts f.work s)
    | inr client ↦ simp client (client_pre_work-Ends e.consts f.work s)
  ]

  post_work-Ends : (s : Ssl) → Ends (post_work e f s)
  unfolding post_work
  post_work-Ends s = elim (Bool-cases s.server) [
    | inl server ↦ simp server (server_post_work-Ends e.consts f.work s)
    | inr client ↦ simp client (client_post_work-Ends e.consts f.work s)
  ]

  post_work_pass-Leaves : (s : Ssl) → Leaves (post_work_pass e f s)
  unfolding post_work_pass
  post_work_pass-Leaves s = after_work-Leaves _ _ _ (post_work-Ends s).out_of_init (again-Leaves _)

  send_pass-Leaves : (s : Ssl) → Leaves (send_pass e f s)
  unfolding send_pass
  send_pass-Leaves s = if-Leaves _ _ _ (post_work_pass-Leaves _) (error-Leaves _)

  after_construct-Leaves :
      (mt : MsgType) (s : Ssl) (r : Constructed) → Leaves (after_construct e f mt s r)
  unfolding after_construct close_and_send
  after_construct-Leaves mt s Constructed.construct_failed = error-Leaves _
  after_construct-Leaves mt s Constructed.constructed =
      if-Leaves _ _ _ (send_pass-Leaves _) (error-Leaves _)
  after_construct-Leaves mt s Constructed.construct_skipped = again-Leaves _

  construct_pass-Leaves :
      (con : Construct) (mt : MsgType) (s : Ssl) → Leaves (construct_pass e f con mt s)
  unfolding construct_pass
  construct_pass-Leaves con mt s =
      if-Leaves _ _ _ (again-Leaves _)
        (if-Leaves _ _ _ (after_construct-Leaves mt _ _) (error-Leaves _))

  message_pass-Leaves : (s : Ssl) → Leaves (message_pass e f s)
  unfolding message_pass
  message_pass-Leaves s = go (next_message e f s)
    where
      go :
          (r : Ssl × Option (Construct × MsgType))
          → Leaves (elim r.1 [
            | none ↦ returned sub_error r.0
            | some (con, mt) ↦ construct_pass e f con mt r.0
          ])
      go (t, none) = error-Leaves t
      go (t, some (con, mt)) = construct_pass-Leaves con mt t

  pre_work_pass-Leaves : (s : Ssl) → Leaves (pre_work_pass e f s)
  unfolding pre_work_pass
  pre_work_pass-Leaves s =
      after_work-Leaves _ _ _ (pre_work-Ends s).out_of_init (message_pass-Leaves _)

  after_transition-Leaves : (t : WriteTran) (s : Ssl) → Leaves (after_transition e f t s)
  unfolding after_transition
  after_transition-Leaves WriteTran.tran_error s = error-Leaves _
  after_transition-Leaves WriteTran.tran_continue s = again-Leaves _
  after_transition-Leaves WriteTran.tran_finished s = record { out_of_init = λ t h. cc }

  write_pass-Leaves : (w : WriteState) (s : Ssl) → Leaves (write_pass e f w s)
  unfolding write_pass transition_pass
  write_pass-Leaves WriteState.write_transition s = after_transition-Leaves _ _
  write_pass-Leaves WriteState.write_pre_work s = pre_work_pass-Leaves s
  write_pass-Leaves WriteState.write_send s = send_pass-Leaves s
  write_pass-Leaves WriteState.write_post_work s = post_work_pass-Leaves s

  writing_ends : (s t : Ssl) → Loops (writing e f) s sub_end_handshake t → t.statem.in_init ≡ false
  writing_ends s t (ends h) = (write_pass-Leaves s.statem.write_state s).out_of_init t h
  writing_ends s t (goes_on {u = u} h rest) = writing_ends u t rest

  -- The message flow has finished, out of the initial state.
  abbrev pub IsOver : Ssl → Type 0
  IsOver s = (s.statem.flow ≡ flow_finished) × (s.statem.in_init ≡ false)

  Flows-IsOver :
      (s t : Ssl)
      → Flows e f s true t
      → (s.statem.flow ≡ flow_finished → s.statem.in_init ≡ false)
      → IsOver t
  unfolding init_write_state_machine init_read_state_machine set_read_state
  Flows-IsOver s t (finishes h) over = (h, over h)
  Flows-IsOver s t (has_read {t = u} at r rest) over =
      Flows-IsOver _ t rest (λ h. ground (arith, h))
  Flows-IsOver s t (has_written {t = u} at w rest) over =
      Flows-IsOver _ t rest (λ h. ground (arith, h))
  Flows-IsOver s t (has_ended {t = u} at w rest) over =
      Flows-IsOver _ t rest (λ h. writing_ends s u w)

  -- If it succeeds, the initialisation leads to writing.
  record Writes (r : Ssl × Bool) : Type 0 where
    pub then_writes : r.1 ≡ true → r.0.statem.flow ≡ flow_writing

  or_fatal-Writes :
      (r : Ssl × Bool) (next : Ssl → Ssl × Bool)
      → ((s : Ssl) → Writes (next s))
      → Writes (or_fatal r next)
  unfolding or_fatal
  or_fatal-Writes (s, true) next w = w s
  or_fatal-Writes (s, false) next w = record { then_writes = λ h. cc }

  start_writing-Writes : (s : Ssl) → Writes (start_writing s)
  unfolding start_writing init_write_state_machine
  start_writing-Writes s = record { then_writes = λ h. refl }

  set_up-Writes : (s : Ssl) → Writes (set_up e f s)
  unfolding set_up
  set_up-Writes s = elim (Bool-cases (in_before s || s.renegotiate)) [
    | inr under_way ↦ rw under_way (start_writing-Writes s)
    | inl needed ↦ rw needed (elim (Bool-cases (e.setup_handshake s).1) [
      | inl done ↦ rw done (start_writing-Writes _)
      | inr failed ↦ rw failed (record { then_writes = λ h. cc })
    ])
  ]

  initialise-Writes : (server : Bool) (s : Ssl) → Writes (initialise e f server s)
  unfolding initialise
  initialise-Writes server s = or_fatal-Writes _ _ λ s1.
      or_fatal-Writes _ _
        λ s2. or_fatal-Writes _ _ λ s3. or_fatal-Writes _ _ λ s4. or_fatal-Writes _ _ set_up-Writes

  start_leaves_rest :
      (server : Bool) (s t : Ssl) → start e f server s ≡ (t, true) → t.statem.flow ≢ flow_finished
  unfolding start
  start_leaves_rest server s t r h = ground (arith, (initialise-Writes server s).then_writes)

  -- Whenever `state_machine` returns 1, from whatever state and after whatever calls before, the
  -- message flow has finished and the connection is not in the initial state (`in_init`). This holds
  -- after a handshake, and also where the call returns 1 in the middle of one, for early data.
  pub state_machine-IsOver : (server : Bool) (s t : Ssl) → Runs e f server s true t → IsOver t
  unfolding set_in_handshake
  state_machine-IsOver server s t (runs {t = u} {u = v} {v = w} ne en st fl) =
      Flows-IsOver v w fl (λ h. absurd (start_leaves_rest server u v st h))
