-- ===== src/Statem/Flow/Machine.antt =====
-- `state_machine` of ssl/statem/statem.c: its start, and its loop as a relation between the
-- connection at the call, the result and the connection at the return. SCTP and the callback are left
-- out.
use openssl_3_0_bee2evp.Prelude.{
  ℕ, ◌/◌, ◌%◌, ◌≡◌, ◌≢◌, ◌⊎◌, Bool, true, false, not, ◌&&◌, ◌||◌, ◌==◌, if◌then◌else◌,
}
use openssl_3_0_bee2evp.Ssl.{
  before, FlowState, flow_error, flow_reading, flow_writing, flow_finished, flow_uninited, no_alert,
  Env, PublicConstants, Ssl, is_first_handshake, is_flow_uninited,
}
use openssl_3_0_bee2evp.Statem.{fatal, in_before, set_in_handshake}
use openssl_3_0_bee2evp.Statem.Flow.{
  SubState, sub_error, sub_finished, sub_end_handshake, Pass, again, returned, FlowCalls,
  check_fatal,
}
use openssl_3_0_bee2evp.Statem.Flow.Reading.{enter_reading, init_read_state_machine, read_pass}
use openssl_3_0_bee2evp.Statem.Flow.Writing.{init_write_state_machine, write_pass}

abbrev pub set_flow : FlowState → Ssl → Ssl
set_flow g s = record s { statem = record (s.statem) { flow = g } }

-- `version & 0xff00`, shifted down
abbrev high_byte : ℕ → ℕ
high_byte v = v / 256 % 256

unfoldable pub version_fits : PublicConstants → Bool → Ssl → Bool
version_fits k server s =
    if s.is_dtls
    then high_byte s.version == high_byte k.dtls1_version
      || (not server && high_byte s.version == high_byte k.dtls1_bad_ver)
    else s.version / 256 == k.ssl3_version_major

-- Go on if the call succeeded, and else raise an error without an alert.
unfoldable pub or_fatal : Ssl × Bool → (Ssl → Ssl × Bool) → Ssl × Bool
or_fatal (s, true) next = next s
or_fatal (s, false) next = (fatal no_alert s, false)

-- The state of a connection that was never started.
unfoldable pub reset_states : Ssl → Ssl
reset_states s =
    if is_flow_uninited s.statem.flow
    then record s { statem = record (s.statem) { hand_state = before; request_state = before } }
    else s

unfoldable pub first_init : Ssl → Ssl
first_init s =
    if is_first_handshake s
    then record s { statem = record (s.statem) { read_state_first_init = true } }
    else s

unfoldable pub start_writing : Ssl → Ssl × Bool
start_writing s = (init_write_state_machine (set_flow flow_writing s), true)

module _ (e : Env) (f : FlowCalls) where
  -- The handshake is set up, unless one is under way.
  unfoldable pub set_up : Ssl → Ssl × Bool
  set_up s =
      let (s', done) = e.setup_handshake s in
      if in_before s || s.renegotiate
      then if done then start_writing (first_init s') else (s', false)
      else start_writing s

  unfoldable pub get_init_buf : Ssl → Ssl × Bool
  get_init_buf s =
      if s.init_buf
      then (s, true)
      else (let (s', done) = f.new_init_buf s in
          if done then (record s' { init_buf = true }, true) else (s', false))

  -- The block that initialises the state machine.
  unfoldable pub initialise : Bool → Ssl → Ssl × Bool
  initialise server s =
      let s0 = record (reset_states s) { server = server } in
      or_fatal (s0, version_fits e.consts server s0)
        λ s1.
          or_fatal (s1, f.allows_version s1)
            λ s2. or_fatal (get_init_buf s2) λ s3. or_fatal (f.setup_buffers s3) λ s4.
              or_fatal (f.init_wbio_buffer (record s4 { init_num = 0; ccs_received = false }))
                set_up

  abbrev is_at_rest : FlowState → Bool
  is_at_rest flow_uninited = true
  is_at_rest flow_finished = true
  is_at_rest _ = false

  unfoldable pub start : Bool → Ssl → Ssl × Bool
  start server s = if is_at_rest s.statem.flow then initialise server s else (s, true)

  -- The first thing it does: count the call, and clear the connection unless it is in a handshake.
  unfoldable pub enter : Ssl → Ssl × Bool
  enter s =
      let s' = set_in_handshake true s in
      if (not s'.statem.in_init || in_before s') && not s'.stateless
      then f.ssl_clear s'
      else (s', true)

  abbrev pub reading : Ssl → Pass
  reading s = read_pass e f s.statem.read_state s

  abbrev pub writing : Ssl → Pass
  writing s = write_pass e f s.statem.write_state s

-- A loop, pass by pass.
pub data Loops (pass : Ssl → Pass) : Ssl → SubState → Ssl → Type 0 where
  ends : {s t : Ssl} {r : SubState} → pass s ≡ returned r t → Loops pass s r t
  goes_on : {s u t : Ssl} {r : SubState} → pass s ≡ again u → Loops pass u r t → Loops pass s r t

-- The loop of the message flow, sub-state machine by sub-state machine.
pub data Flows (e : Env) (f : FlowCalls) : Ssl → Bool → Ssl → Type 0 where
  finishes : {s : Ssl} → s.statem.flow ≡ flow_finished → Flows e f s true s
  has_read :
      {s t u : Ssl} {ok : Bool}
      → s.statem.flow ≡ flow_reading
      → Loops (reading e f) (enter_reading s) sub_finished t
      → Flows e f (init_write_state_machine (set_flow flow_writing t)) ok u
      → Flows e f s ok u
  stops_reading :
      {s t : Ssl} {r : SubState}
      → s.statem.flow ≡ flow_reading
      → Loops (reading e f) (enter_reading s) r t
      → r ≢ sub_finished
      → Flows e f s false t
  has_written :
      {s t u : Ssl} {ok : Bool}
      → s.statem.flow ≡ flow_writing
      → Loops (writing e f) s sub_finished t
      → Flows e f (init_read_state_machine (set_flow flow_reading t)) ok u
      → Flows e f s ok u
  has_ended :
      {s t u : Ssl} {ok : Bool}
      → s.statem.flow ≡ flow_writing
      → Loops (writing e f) s sub_end_handshake t
      → Flows e f (set_flow flow_finished t) ok u
      → Flows e f s ok u
  stops_writing :
      {s t : Ssl}
      → s.statem.flow ≡ flow_writing
      → Loops (writing e f) s sub_error t
      → Flows e f s false t
  goes_wrong :
      {s : Ssl}
      → (s.statem.flow ≡ flow_uninited) ⊎ (s.statem.flow ≡ flow_error)
      → Flows e f s false (check_fatal s)

-- `state_machine`: the result is whether it returns 1.
pub data Runs (e : Env) (f : FlowCalls) (server : Bool) : Ssl → Bool → Ssl → Type 0 where
  refuses : {s : Ssl} → s.statem.flow ≡ flow_error → Runs e f server s false s
  cannot_clear :
      {s t : Ssl}
      → s.statem.flow ≢ flow_error
      → enter e f s ≡ (t, false)
      → Runs e f server s false t
  cannot_start :
      {s t u : Ssl}
      → s.statem.flow ≢ flow_error
      → enter e f s ≡ (t, true)
      → start e f server t ≡ (u, false)
      → Runs e f server s false (set_in_handshake false u)
  runs :
      {s t u v : Ssl} {ok : Bool}
      → s.statem.flow ≢ flow_error
      → enter e f s ≡ (t, true)
      → start e f server t ≡ (u, true)
      → Flows e f u ok v
      → Runs e f server s ok (set_in_handshake false v)
