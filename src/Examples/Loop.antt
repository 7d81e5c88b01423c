-- ===== src/Examples/Loop.antt =====
-- Tests of the session's loop, and its theorems at concrete inputs.
use ha_codex_voice.Prelude.{
  ℕ, ◌≤◌, ◌≡◌, refl, ◌⊎◌, true, false, Option, none, some, List, [], ◌∷◌, str_eq_iff, arith,
  if◌then◌else◌,
}
use ha_codex_voice.Prelude.Action.{returned}
use ha_codex_voice.Prelude.Hoare.{Post}
use ha_codex_voice.Json.{Value, object, text, end, field, get, member, text_length}
use ha_codex_voice.Device.WebSocket.Connection.{binary}
use ha_codex_voice.Device.Session.Player.{
  active, service, service_process, close_if_drained, reap_finished,
}
use ha_codex_voice.Device.Session.Audio.{due, pop}
use ha_codex_voice.Device.Session.Protocol.{check_deadlines}
use ha_codex_voice.Device.Session.Playback.{IsOwned}
use ha_codex_voice.Device.Session.State.{
  stopped, failed, refused, invalid, submit_audio, interrupt, stop, start,
}
use ha_codex_voice.Device.Session.Messages.{Desk, Speaker}
use ha_codex_voice.Device.Session.Dispatch.{handle_message, flush_local_barge_in, on_json}
use ha_codex_voice.Device.Session.Epochs.{
  IsPlaying, IsAsked, IsFlushed, GoesOn, Replies, Broken, handle_message-Replies,
  flush_local_barge_in-Flushes,
}
use ha_codex_voice.Device.Session.Loop.{
  Running, Locals, Pass, Setting, goes_on, on_requests, on_flush, on_playback, on_microphone,
  on_ping, wait_time,
}
use ha_codex_voice.Device.Session.Calls.{call, calls, submits, interrupts, stops}
use ha_codex_voice.Device.Session.Ends.{pass, expected, is_failure}
use ha_codex_voice.Device.Session.Interleaved.{
  Meanwhile, Closing, busy_pass, busy_microphone, busy_ping, busy_socket, end_session,
}
use ha_codex_voice.Device.Session.Ending.{end_session-released}
use ha_codex_voice.Device.Session.Network.{Plays, Fails, pass-Plays}
use ha_codex_voice.Device.Session.Threads.{here, next, passes, threads-Plays}
use ha_codex_voice.Device.Session.Silence.{audio_frames, interrupt-silent}
use ha_codex_voice.Bridge.Wire.Events.{
  RealtimeDataControl, parse_data_control_event, wire_value, event_role, collect_roles,
  confirms_response_cancelled, event_response_id, event_turn_id, event_transcript,
}
use ha_codex_voice.Bridge.Wire.Controls.{Continues, forwarded_control-accepted}
use ha_codex_voice.Examples.Device.{capturing, playing, leaving_child, playing-IsOwned}

abbrev speaker : Speaker
speaker = record { child = leaving_child; volume_ok = λ _. true }

-- Epoch 3 plays.
abbrev desk : Desk
desk = record {
  session = record capturing { output_active = true; local_output_epoch = some 3 };
  player = playing;
}

desk-IsPlaying : IsPlaying (some 3) 3 desk
desk-IsPlaying = record {
  current = refl;
  published = refl;
  suppressed = tt;
  started = omega arith;
  shown = refl;
  owned = playing-IsOwned;
}

abbrev loads : List ℕ → Option Value
loads _ = none

handle_message-Replies_example :
    Post (Replies 3) Broken (handle_message speaker (some 3) 3 loads (binary (5 ∷ 6 ∷ [])) desk)
handle_message-Replies_example =
    handle_message-Replies speaker (some 3) 3 loads (binary (5 ∷ 6 ∷ [])) desk desk-IsPlaying

-- A flush of the epoch that plays was requested.
abbrev asking : Desk
asking = record desk { session = record desk.session { barge_in_requested_epoch = some 3 } }

asking-IsPlaying : IsPlaying (some 3) 3 asking
asking-IsPlaying = record {
  current = desk-IsPlaying.current;
  published = desk-IsPlaying.published;
  suppressed = desk-IsPlaying.suppressed;
  started = desk-IsPlaying.started;
  shown = desk-IsPlaying.shown;
  owned = desk-IsPlaying.owned;
}

flush_local_barge_in-Flushes_example :
    let (o, d') = flush_local_barge_in (some 3) 3 asking in
    IsPlaying o 3 d'
    × (d'.session.barge_in_requested_epoch ≡ none)
    × ((requested : ℕ) → IsAsked requested (some 3) 3 asking → IsFlushed requested o d')
    × (((requested : ℕ) → ¬ IsAsked requested (some 3) 3 asking) → GoesOn (some 3) asking o d')
flush_local_barge_in-Flushes_example =
    flush_local_barge_in-Flushes (some 3) 3 asking asking-IsPlaying

abbrev locals : Locals
locals = record {
  pacer = none;
  last_activity = 0;
  next_ping_at = 20;
  pending_ping = none;
  pong_deadline = none;
  output_epoch = some 3;
  last_output_epoch = 3;
  interrupt_sent = false;
  interrupt_deadline = none;
  log = [];
}

abbrev going : Running
going = record { desk = desk; locals = locals }

abbrev setting : Setting
setting = record { speaker = speaker; loads = loads; started_at = 0 }

abbrev one_pass : Pass
one_pass = record {
  now = 1;
  later = 2;
  after_message = 3;
  resumed_at = 4;
  random = 1 ∷ 2 ∷ 3 ∷ 4 ∷ 5 ∷ 6 ∷ 7 ∷ 8 ∷ [];
  sends = λ _. returned tt;
  readable = λ _. true;
  received = returned (some (binary (5 ∷ 6 ∷ [])));
}

pass-Plays_example : Post (λ _. Plays 3) (λ _. Fails) (pass setting one_pass going)
pass-Plays_example = pass-Plays 3 one_pass setting going (desk-IsPlaying, omega arith)

abbrev interrupted : Running
interrupted = record going {
  desk = record desk { session = record desk.session { interrupt_requested = true } };
}

interrupt-silent_example :
    audio_frames (pass setting one_pass interrupted).1.locals.log
    ≡ audio_frames interrupted.locals.log
interrupt-silent_example = interrupt-silent setting one_pass interrupted refl

-- A frame is submitted before the microphone is served, and an interruption is asked for while the
-- pass waits for the socket.
abbrev meanwhile : Meanwhile
meanwhile = record {
  requests = [];
  playback = [];
  microphone = submits (1 ∷ 2 ∷ []) 1 ∷ [];
  ping = [];
  socket = [];
  message = interrupts true ∷ [];
  action = [];
}

abbrev no_message : Pass
no_message = record one_pass { received = returned none }

abbrev passed : Running
passed = (busy_pass setting no_message meanwhile going).1

passed_test : busy_pass setting no_message meanwhile going ≡ (returned goes_on, passed)
unfolding busy_pass on_requests on_flush flush_local_barge_in on_playback busy_microphone
    on_microphone busy_ping on_ping busy_socket wait_time check_deadlines calls call service
    service_process close_if_drained reap_finished due pop submit_audio
passed_test = refl

threads-Plays_example :
    IsPlaying passed.locals.output_epoch passed.locals.last_output_epoch passed.desk
    × (going.locals.last_output_epoch ≤ passed.locals.last_output_epoch)
threads-Plays_example =
    threads-Plays setting going passed
      (next going passed passed (passes no_message meanwhile going passed passed_test)
        (here passed))
      desk-IsPlaying

-- A frame is submitted after the queue is cleared, and the owner stops after the state is set.
abbrev closing : Closing
closing = record {
  after_epoch = interrupts true ∷ [];
  after_clear = submits (1 ∷ 2 ∷ []) 9 ∷ [];
  after_abort = [];
  after_state = stops ∷ [];
}

end_session-released_example :
    let d' = end_session expected closing desk in
    let s = d'.session in
    (active d'.player ≡ false)
    × IsOwned d'.player
    × (s.output_active ≡ false)
    × (s.local_output_epoch ≡ none)
    × (s.terminal ≡ true)
    × (s.state ≡ (if is_failure expected desk.session then failed else stopped))
    × ((submit_audio (1 ∷ 2 ∷ []) 9 s ≡ (refused, s))
        ⊎ (submit_audio (1 ∷ 2 ∷ []) 9 s ≡ (invalid, s)))
    × (interrupt true s ≡ s)
    × (stop s ≡ s)
    × (start true s ≡ none)
end_session-released_example =
    end_session-released expected closing desk (1 ∷ 2 ∷ []) 9 true true playing-IsOwned

-- What the bridge makes of a response that ends.
abbrev response_done : Value
response_done = object (field "type" (text "response.done") (field "response_id" (text "r1") end))

abbrev response_control : RealtimeDataControl
response_control = record {
  event_type = "response.done";
  role = none;
  response_cancelled = false;
  response_id = some "r1";
  turn_id = none;
  transcript = none;
}

response_parsed : parse_data_control_event (some response_done) ≡ some response_control
unfolding parse_data_control_event event_role confirms_response_cancelled event_response_id
    event_turn_id event_transcript collect_roles text_length get member
response_parsed = refl

forwarded_control-accepted_example :
    Continues (on_json speaker (some 3) 3 (wire_value response_control) desk).0
forwarded_control-accepted_example =
    forwarded_control-accepted speaker (some 3) 3 desk (some response_done) response_control
      response_parsed
      (λ h. ground (arith, (str_eq_iff "response.done" "session.context.appended").1 h))
