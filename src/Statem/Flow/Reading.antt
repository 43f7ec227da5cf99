-- ===== src/Statem/Flow/Reading.antt =====
-- One pass of the loop in `read_state_machine` (ssl/statem/statem.c).
use openssl_3_0_bee2evp.Prelude.{
  ℕ, Bool, true, false, not, ◌&&◌, Option, none, some, ltb, if◌then◌else◌,
}
use openssl_3_0_bee2evp.Ssl.{
  MsgType, WorkState, work_error, work_more_a, read_header, read_body, read_post_process, ReadState,
  internal_error, illegal_parameter, Env, Ssl,
}
use openssl_3_0_bee2evp.Statem.{fatal}
use openssl_3_0_bee2evp.Statem.Client.Read.{client_read_transition}
use openssl_3_0_bee2evp.Statem.Client.Messages.{client_max_message_size}
use openssl_3_0_bee2evp.Statem.Client.Process.{client_process_of, client_post_process_of}
use openssl_3_0_bee2evp.Statem.Server.Read.{server_read_transition}
use openssl_3_0_bee2evp.Statem.Server.Messages.{server_max_message_size}
use openssl_3_0_bee2evp.Statem.Server.Process.{server_process_of, server_post_process_of}
use openssl_3_0_bee2evp.Statem.Flow.{
  sub_error, sub_finished, Pass, again, returned, MsgProcess, process_error, finished_reading,
  continue_processing, continue_reading, FlowCalls, check_fatal, after_work,
}

unfoldable pub set_read_state : ReadState → Ssl → Ssl
set_read_state r s = record s { statem = record (s.statem) { read_state = r } }

-- `init_read_state_machine`
unfoldable pub init_read_state_machine : Ssl → Ssl
unfolding set_read_state
init_read_state_machine s = set_read_state read_header s

abbrev is_finished_stop : WorkState → Bool
is_finished_stop WorkState.work_finished_stop = true
is_finished_stop _ = false

-- Before the loop.
unfoldable pub enter_reading : Ssl → Ssl
enter_reading s =
    if s.statem.read_state_first_init
    then record s {
      first_packet = true;
      statem = record (s.statem) { read_state_first_init = false };
    }
    else s

module _ (e : Env) (f : FlowCalls) where
  unfoldable pub read_transition : Ssl → MsgType → Ssl × Bool
  read_transition s mt =
      if s.server then server_read_transition e s mt else client_read_transition e s mt

  unfoldable pub max_message_size : Ssl → ℕ
  max_message_size s =
      if s.server then server_max_message_size e.consts s else client_max_message_size e.consts s

  unfoldable pub process_message : Ssl → Ssl × MsgProcess
  process_message s =
      if s.server
      then elim (server_process_of s.statem.hand_state) [
        | none ↦ (fatal internal_error s, process_error)
        | some p ↦ f.server_process p s
      ]
      else elim (client_process_of s.statem.hand_state) [
        | none ↦ (fatal internal_error s, process_error)
        | some p ↦ f.client_process p s
      ]

  unfoldable pub post_process_message : WorkState → Ssl → Ssl × WorkState
  post_process_message w s =
      if s.server
      then elim (server_post_process_of s.statem.hand_state) [
        | none ↦ (fatal internal_error s, work_error)
        | some p ↦ f.server_post_process p w s
      ]
      else elim (client_post_process_of s.statem.hand_state) [
        | none ↦ (fatal internal_error s, work_error)
        | some p ↦ f.client_post_process p w s
      ]

  unfoldable pub get_message : Ssl → Ssl × Option MsgType
  get_message s = if s.is_dtls then f.dtls_get_message s else f.get_message_header s

  unfoldable pub get_body : Ssl → Ssl × Bool
  get_body s = if s.is_dtls then f.dtls_get_message_body s else f.get_message_body s

  unfoldable pub stop_reading : Ssl → Ssl
  stop_reading s = if s.is_dtls then f.stop_timer s else s

  unfoldable pub after_process : MsgProcess → Ssl → Pass
  after_process process_error s = returned sub_error (check_fatal s)
  after_process finished_reading s = returned sub_finished (stop_reading s)
  after_process continue_processing s = again (record s {
    statem = record (s.statem) { read_state = read_post_process; read_state_work = work_more_a };
  })
  after_process continue_reading s = again (set_read_state read_header s)

  -- `READ_STATE_BODY`
  unfoldable pub body_pass : Ssl → Pass
  body_pass s =
      let (s1, got) = get_body s in
      let s2 = record s1 { first_packet = false } in
      let (s3, result) = process_message s2 in
      if not got
      then returned sub_error s1
      else if not (f.packet_buf_init s2)
      then returned sub_error (fatal internal_error s2)
      else after_process result (record s3 { init_num = 0 })

  -- `READ_STATE_HEADER`, once the move is made.
  unfoldable pub header_moved : Ssl → Pass
  header_moved s =
      let (s', grown) =
        if not s.is_dtls && ltb 0 s.message_size then f.grow_init_buf s else (s, true) in
      if ltb (max_message_size s) s.message_size
      then returned sub_error (fatal illegal_parameter s)
      else if grown
      then body_pass (set_read_state read_body s')
      else returned sub_error (fatal internal_error s')

  -- `READ_STATE_HEADER`, once there is a message.
  unfoldable pub header_got : Ssl → MsgType → Pass
  header_got s mt =
      let (s', allowed) = read_transition s mt in
      if allowed then header_moved s' else returned sub_error s'

  unfoldable pub header_pass : Ssl → Pass
  header_pass s =
      let (s', mt) = get_message s in
      elim mt [ none ↦ returned sub_error s' | some m ↦ header_got s' m ]

  -- `READ_STATE_POST_PROCESS`
  unfoldable pub post_process_pass : Ssl → Pass
  post_process_pass s =
      let (s1, w) = post_process_message s.statem.read_state_work s in
      let s2 = record s1 { statem = record (s1.statem) { read_state_work = w } } in
      after_work w sub_finished (if is_finished_stop w then stop_reading s2 else s2)
        (again (set_read_state read_header s2))

  unfoldable pub read_pass : ReadState → Ssl → Pass
  read_pass read_header s = header_pass s
  read_pass read_body s = body_pass s
  read_pass read_post_process s = post_process_pass s
