-- ===== src/Statem/Flow/Writing.antt =====
-- One pass of the loop in `write_state_machine` (ssl/statem/statem.c).
use openssl_3_0_bee2evp.Prelude.{Bool, true, false, ◌&&◌, Option, none, some, if◌then◌else◌}
use openssl_3_0_bee2evp.Ssl.{
  HandState, cw_change, sw_change, MsgType, ◌is◌, dummy, WorkState, work_more_a, WriteTran,
  tran_error, tran_continue, tran_finished, WriteState, write_transition, write_pre_work,
  write_send, write_post_work, internal_error, Env, Ssl,
}
use openssl_3_0_bee2evp.Statem.{fatal}
use openssl_3_0_bee2evp.Statem.Client.Write.{client_write_transition}
use openssl_3_0_bee2evp.Statem.Client.Messages.{ClientConstruct, client_construct_message}
use openssl_3_0_bee2evp.Statem.Server.Write.{server_write_transition}
use openssl_3_0_bee2evp.Statem.Server.Messages.{ServerConstruct, server_construct_message}
use openssl_3_0_bee2evp.Statem.Work.Client.{client_pre_work, client_post_work}
use openssl_3_0_bee2evp.Statem.Work.Server.{server_pre_work, server_post_work}
use openssl_3_0_bee2evp.Statem.Flow.{
  sub_error, sub_finished, sub_end_handshake, Pass, again, returned, Constructed, construct_failed,
  constructed, construct_skipped, Construct, by_client, by_server, FlowCalls, check_fatal,
  after_work,
}

unfoldable pub set_write_state : WriteState → WorkState → Ssl → Ssl
set_write_state w k s = record s {
  statem = record (s.statem) { write_state = w; write_state_work = k };
}

-- `init_write_state_machine`
unfoldable pub init_write_state_machine : Ssl → Ssl
init_write_state_machine s = record s {
  statem = record (s.statem) { write_state = write_transition };
}

abbrev has_construct : Construct → Bool
has_construct (by_client ClientConstruct.no_construct) = false
has_construct (by_server ServerConstruct.no_construct) = false
has_construct _ = true

abbrev is_change : HandState → Bool
is_change cw_change = true
is_change sw_change = true
is_change _ = false

abbrev tag : {A B : Type 0} → (A → B) → Option (A × MsgType) → Option (B × MsgType)
tag g none = none
tag g (some (a, mt)) = some (g a, mt)

module _ (e : Env) (f : FlowCalls) where
  unfoldable pub next_transition : Ssl → Ssl × WriteTran
  next_transition s = if s.server then server_write_transition e s else client_write_transition e s

  unfoldable pub pre_work : Ssl → Ssl × WorkState
  pre_work s =
      if s.server then server_pre_work e.consts f.work s else client_pre_work e.consts f.work s

  unfoldable pub post_work : Ssl → Ssl × WorkState
  post_work s =
      if s.server then server_post_work e.consts f.work s else client_post_work e.consts f.work s

  unfoldable pub next_message : Ssl → Ssl × Option (Construct × MsgType)
  next_message s =
      if s.server
      then (let (s', m) = server_construct_message s in (s', tag by_server m))
      else (let (s', m) = client_construct_message s in (s', tag by_client m))

  -- `statem_do_write`
  unfoldable pub do_write : Ssl → Ssl × Bool
  do_write s = if is_change s.statem.hand_state then f.write_ccs s else f.write_handshake s

  -- `WRITE_STATE_POST_WORK`
  unfoldable pub post_work_pass : Ssl → Pass
  post_work_pass s =
      let (s1, w) = post_work s in
      let s2 = record s1 { statem = record (s1.statem) { write_state_work = w } } in
      after_work w sub_end_handshake s2 (again (init_write_state_machine s2))

  -- `WRITE_STATE_SEND`
  unfoldable pub send_pass : Ssl → Pass
  send_pass s =
      let (s', written) =
        do_write (if s.is_dtls && s.statem.use_timer then f.start_timer s else s) in
      if written
      then post_work_pass (set_write_state write_post_work work_more_a s')
      else returned sub_error s'

  unfoldable pub close_and_send : MsgType → Ssl → Pass
  close_and_send mt s =
      let (s', closed) = f.close_packet mt s in
      if closed then send_pass s' else returned sub_error (fatal internal_error s')

  unfoldable pub after_construct : MsgType → Ssl → Constructed → Pass
  after_construct mt s construct_failed = returned sub_error (check_fatal s)
  after_construct mt s constructed = close_and_send mt s
  after_construct mt s construct_skipped = again (set_write_state write_post_work work_more_a s)

  unfoldable pub construct_pass : Construct → MsgType → Ssl → Pass
  construct_pass con mt s =
      let (s1, started) = f.start_packet mt s in
      let (s2, result) = if has_construct con then f.construct con s1 else (s1, constructed) in
      if mt is dummy
      then again (set_write_state write_post_work work_more_a s)
      else if started
      then after_construct mt s2 result
      else returned sub_error (fatal internal_error s1)

  unfoldable pub message_pass : Ssl → Pass
  message_pass s =
      let (s', m) = next_message s in
      elim m [ none ↦ returned sub_error s' | some (con, mt) ↦ construct_pass con mt s' ]

  -- `WRITE_STATE_PRE_WORK`
  unfoldable pub pre_work_pass : Ssl → Pass
  pre_work_pass s =
      let (s1, w) = pre_work s in
      let s2 = record s1 { statem = record (s1.statem) { write_state_work = w } } in
      after_work w sub_end_handshake s2
        (message_pass (record s2 { statem = record (s2.statem) { write_state = write_send } }))

  unfoldable pub after_transition : WriteTran → Ssl → Pass
  after_transition tran_continue s = again (set_write_state write_pre_work work_more_a s)
  after_transition tran_finished s = returned sub_finished s
  after_transition tran_error s = returned sub_error (check_fatal s)

  -- `WRITE_STATE_TRANSITION`
  unfoldable pub transition_pass : Ssl → Pass
  transition_pass s = let (s', t) = next_transition s in after_transition t s'

  unfoldable pub write_pass : WriteState → Ssl → Pass
  write_pass write_transition s = transition_pass s
  write_pass write_pre_work s = pre_work_pass s
  write_pass write_send s = send_pass s
  write_pass write_post_work s = post_work_pass s
