-- ===== src/Device/Session/State.antt =====
-- `class RealtimeSession` of session.py: the fields that the capture thread, the owner's threads and
-- the network thread share, and the methods that the first two call. Each method holds
-- `_state_lock` over its reads and writes of them, but for the test of `_terminal` before it, so that one call
-- is one step.
use ha_codex_voice.Prelude.{
  ℕ, ◌+◌, ◌%◌, Bool, true, false, not, ◌&&◌, ◌||◌, Option, none, some, is_some, List, length,
  is_empty, ltb, ◌==◌, if◌then◌else◌,
}
use ha_codex_voice.Device.Session.Audio.{
  AudioPacket, AudioQueue, empty_queue, put, clear, pcm_has_local_barge_in_signal,
  local_barge_in_frames_needed,
}

pub data SessionState : Type 0 where
  new connecting ready stopping stopped failed : SessionState

pub data SubmitResult : Type 0 where
  accepted gated full refused invalid : SubmitResult

-- The part of `RealtimeConfig` that the session reads, times in ticks.
pub record Config : Type 0 where
  pub full_duplex : Bool
  pub max_message_bytes : ℕ
  pub input_queue_bytes : ℕ
  pub output_queue_bytes : ℕ
  pub handshake_timeout : ℕ
  pub io_timeout : ℕ
  pub max_session : ℕ
  pub idle_timeout : ℕ
  pub ping_interval : ℕ
  pub pong_timeout : ℕ

pub record Session : Type 0 where
  pub config : Config
  pub audio : AudioQueue
  pub state : SessionState
  pub is_ready : Bool
  pub terminal : Bool
  pub stop_requested : Bool
  pub interrupt_requested : Bool
  pub interrupt_preserve_session : Bool
  pub output_active : Bool
  pub local_output_epoch : Option ℕ
  pub barge_in_requested_epoch : Option ℕ
  pub barge_in_frames : ℕ
  pub suppressed_output_epoch : Option ℕ
  pub ever_ready : Bool

-- `__init__`
unfoldable pub session : Config → Session
unfolding empty_queue
session config = record {
  config = config;
  audio = empty_queue config.input_queue_bytes;
  state = new;
  is_ready = false;
  terminal = false;
  stop_requested = false;
  interrupt_requested = false;
  interrupt_preserve_session = true;
  output_active = false;
  local_output_epoch = none;
  barge_in_requested_epoch = none;
  barge_in_frames = 0;
  suppressed_output_epoch = none;
  ever_ready = false;
}

-- `failed_before_ready`
unfoldable pub failed_before_ready : Session → Bool
failed_before_ready s = s.terminal && not s.ever_ready

-- `state in {CONNECTING, READY}`
abbrev pub is_open : SessionState → Bool
is_open connecting = true
is_open ready = true
is_open _ = false

-- `start`, with whether `thread.start()` succeeds; `none` is the `RuntimeError` of a second start.
unfoldable pub start : Bool → Session → Option Session
start thread_starts s = elim s.state [
  | new ↦
      if thread_starts
      then some (record s { state = connecting })
      else some (record s { state = failed; terminal = true })
  | _ ↦ none
]

-- The detector of `_detect_local_barge_in`, once an output epoch is playing and none is requested.
abbrev pub count_frame : ℕ → Bool → Session → Session
count_frame output_epoch loud s =
    let frames = (if loud then s.barge_in_frames + 1 else 0) in
    if ltb frames local_barge_in_frames_needed
    then record s { barge_in_frames = frames }
    else record s { barge_in_frames = 0; barge_in_requested_epoch = some output_epoch }

abbrev pub detect : Option ℕ → List ℕ → Session → Session
detect none value s = record s { barge_in_frames = 0 }
detect (some output_epoch) value s =
    if is_some s.barge_in_requested_epoch
    then s
    else count_frame output_epoch (pcm_has_local_barge_in_signal value) s

unfoldable pub detect_local_barge_in : List ℕ → Session → Session
detect_local_barge_in value s =
    if not s.config.full_duplex then s else detect s.local_output_epoch value s

unfoldable pub submit_audio : List ℕ → ℕ → Session → SubmitResult × Session
submit_audio value clock s =
    let packet : AudioPacket = record { samples = value; captured_at = clock } in
    let (stored, audio') = put packet s.audio in
    if is_empty value || not (length value % 2 == 0)
    then (invalid, s)
    else if ltb s.config.max_message_bytes (length value)
    then (invalid, s)
    else if not (is_open s.state)
    then (refused, s)
    else if s.output_active && not s.config.full_duplex
    then (gated, s)
    else if not stored
    then (full, s)
    else (accepted, detect_local_barge_in value (record s { audio = audio' }))

unfoldable pub set_local_output_epoch : Option ℕ → Session → Session
set_local_output_epoch output_epoch s = record s {
  local_output_epoch = output_epoch;
  barge_in_requested_epoch = none;
  barge_in_frames = 0;
  output_active = is_some output_epoch;
}

unfoldable pub reset_local_barge_in_detection : Session → Session
reset_local_barge_in_detection s = record s { barge_in_requested_epoch = none; barge_in_frames = 0 }

-- `if self._state in {CONNECTING, READY}: self._state = STOPPING`
abbrev pub stop_state : SessionState → SessionState
stop_state st = if is_open st then stopping else st

unfoldable pub interrupt : Bool → Session → Session
unfolding reset_local_barge_in_detection
interrupt preserve_session s =
    if s.terminal
    then s
    else reset_local_barge_in_detection (record s {
      interrupt_preserve_session =
          (if s.interrupt_requested
            then s.interrupt_preserve_session && preserve_session
            else preserve_session);
      interrupt_requested = true;
      state = stop_state s.state;
      audio = clear s.audio;
    })

unfoldable pub stop : Session → Session
unfolding reset_local_barge_in_detection
stop s =
    if s.terminal
    then s
    else reset_local_barge_in_detection
        (record s { stop_requested = true; state = stop_state s.state; audio = clear s.audio })
