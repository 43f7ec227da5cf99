-- ===== src/Statem/Flow.antt =====
-- The message flow of ssl/statem/statem.c: one pass of the loop of each sub-state machine, and what
-- these call.
pub mod Reading
pub mod Writing
pub mod Errors
pub mod Machine
pub mod Success
pub mod Failure
use openssl_3_0_bee2evp.Prelude.{Bool, true, false, ◌&&◌, Option, if◌then◌else◌}
use openssl_3_0_bee2evp.Ssl.{MsgType, WorkState, internal_error, Ssl, is_flow_error}
use openssl_3_0_bee2evp.Statem.{fatal}
use openssl_3_0_bee2evp.Statem.Client.Messages.{ClientConstruct}
use openssl_3_0_bee2evp.Statem.Client.Process.{ClientProcess, ClientPost}
use openssl_3_0_bee2evp.Statem.Server.Messages.{ServerConstruct}
use openssl_3_0_bee2evp.Statem.Server.Process.{ServerProcess, ServerPost}
use openssl_3_0_bee2evp.Statem.Work.{Calls}

-- `SUB_STATE_RETURN`
pub data SubState : Type 0 where
  sub_error sub_finished sub_end_handshake : SubState

-- One pass of a loop: it goes on, or the function returns.
pub data Pass : Type 0 where
  again : Ssl → Pass
  returned : SubState → Ssl → Pass

-- `MSG_PROCESS_RETURN`
pub data MsgProcess : Type 0 where
  process_error finished_reading continue_processing continue_reading : MsgProcess

-- What a construction function returns: at most 0, 1, or 2, for a message that is not to be sent.
pub data Constructed : Type 0 where
  construct_failed constructed construct_skipped : Constructed

-- A message to construct, on either side.
pub data Construct : Type 0 where
  by_client : ClientConstruct → Construct
  by_server : ServerConstruct → Construct

-- The functions that the message flow calls. Each returns the connection and whether it succeeded, or
-- what it found.
pub record FlowCalls : Type 0 where
  pub work : Calls
  pub dtls_get_message : Ssl → Ssl × Option MsgType
  pub get_message_header : Ssl → Ssl × Option MsgType
  pub dtls_get_message_body : Ssl → Ssl × Bool
  pub get_message_body : Ssl → Ssl × Bool
  pub grow_init_buf : Ssl → Ssl × Bool
  pub packet_buf_init : Ssl → Bool
  pub client_process : ClientProcess → Ssl → Ssl × MsgProcess
  pub server_process : ServerProcess → Ssl → Ssl × MsgProcess
  pub client_post_process : ClientPost → WorkState → Ssl → Ssl × WorkState
  pub server_post_process : ServerPost → WorkState → Ssl → Ssl × WorkState
  pub stop_timer : Ssl → Ssl
  pub start_timer : Ssl → Ssl
  pub start_packet : MsgType → Ssl → Ssl × Bool
  pub construct : Construct → Ssl → Ssl × Constructed
  pub close_packet : MsgType → Ssl → Ssl × Bool
  pub write_ccs : Ssl → Ssl × Bool
  pub write_handshake : Ssl → Ssl × Bool
  pub ssl_clear : Ssl → Ssl × Bool
  pub allows_version : Ssl → Bool
  pub new_init_buf : Ssl → Ssl × Bool
  pub setup_buffers : Ssl → Ssl × Bool
  pub init_wbio_buffer : Ssl → Ssl × Bool

-- `check_fatal`
unfoldable pub check_fatal : Ssl → Ssl
check_fatal s =
    if s.statem.in_init && is_flow_error s.statem.flow then s else fatal internal_error s

-- What follows the work before or after a message, or after the processing of one: `next` if there
-- is no more of it.
unfoldable pub after_work : WorkState → SubState → Ssl → Pass → Pass
after_work WorkState.work_error stop s next = returned sub_error (check_fatal s)
after_work WorkState.work_finished_stop stop s next = returned stop s
after_work WorkState.work_finished_continue stop s next = next
after_work _ stop s next = returned sub_error s

abbrev pub is_more : WorkState → Bool
is_more WorkState.work_more_a = true
is_more WorkState.work_more_b = true
is_more WorkState.work_more_c = true
is_more _ = false
