-- ===== src/Device/Session/Dispatch.antt =====
-- The head of `_handle_message`, which tells the messages apart, and `_flush_local_barge_in`.
use ha_codex_voice.Prelude.{
  ℕ, String, Bool, true, false, not, ◌&&◌, ◌||◌, Option, none, some, List, ◌==◌, str_eq,
  if◌then◌else◌,
}
use ha_codex_voice.Prelude.Action.{returned, pure, throw, lift, ◌>>=◌}
use ha_codex_voice.Json.{Value, Fields, get, equals_text, as_text, member}
use ha_codex_voice.Device.WebSocket.Connection.{Message, text, binary, pong}
use ha_codex_voice.Device.Session.Player.{active, abort}
use ha_codex_voice.Device.Session.Protocol.{
  json_object, control_events, output_epoch_of, unsupported_control, unexpected_kind, bridge_error,
  unsupported_message,
}
use ha_codex_voice.Device.Session.Messages.{
  session_error, Desk, DeskMethod, Reply, reply, Speaker, fail_session, handle_binary,
  speaking_started, speaking_stopped, speech_started, handle_stopped,
}

abbrev pub one_of : Option String → List String → Bool
one_of none names = false
one_of (some s) names = member s names

abbrev pub is_named : String → Option String → Bool
is_named name none = false
is_named name (some s) = str_eq s name

module _ (speaker : Speaker) (output_epoch : Option ℕ) (last : ℕ) where
  abbrev pub ignore : Bool → DeskMethod Reply
  ignore semantic = pure (reply none output_epoch last semantic)

  unfoldable pub on_control : Fields → DeskMethod Reply
  on_control value =
      let event_type = as_text (get "event_type" value) in
      let epoch = fail_session (output_epoch_of value) in
      if not (one_of event_type control_events)
      then throw (session_error unsupported_control)
      else if is_named "speaking.started" event_type
      then (lift epoch >>= speaking_started speaker output_epoch last)
      else if is_named "speaking.stopped" event_type
      then (lift epoch >>= speaking_stopped speaker output_epoch last)
      else if is_named "input_audio_buffer.speech_started" event_type
      then (λ d.
          (returned (speech_started output_epoch last d).0, (speech_started output_epoch last d).1))
      else ignore true

  unfoldable pub on_json : Fields → DeskMethod Reply
  on_json value =
      let message_type = get "type" value in
      if equals_text "control" message_type
      then on_control value
      else if equals_text "pong" message_type
      then ignore false
      else if equals_text "stopped" message_type
      then handle_stopped last value
      else if equals_text "error" message_type
      then throw (session_error bridge_error)
      else throw (session_error unsupported_message)

  -- `loads` is `json.loads` on the bytes of a text, `none` where it raises.
  unfoldable pub handle_message : (List ℕ → Option Value) → Message → DeskMethod Reply
  handle_message loads (binary bytes) = handle_binary output_epoch last bytes
  handle_message loads (pong _) = throw (session_error unexpected_kind)
  handle_message loads (text bytes) = lift (fail_session (json_object (loads bytes))) >>= on_json

abbrev pub same_epoch : Option ℕ → ℕ → Bool
same_epoch none e = false
same_epoch (some d) e = d == e

abbrev pub is_none : Option ℕ → Bool
is_none none = true
is_none (some _) = false

-- The flush proper, for a request that names the current output.
abbrev pub flushed : ℕ → Desk → Desk
flushed requested d = record d {
  session = record d.session {
    local_output_epoch = none;
    output_active = false;
    suppressed_output_epoch = some requested;
  };
  player = abort d.player;
}

abbrev pub without_request : Desk → Desk
without_request d = record d {
  session = record d.session { barge_in_requested_epoch = none; barge_in_frames = 0 };
}

abbrev pub flush_requested : Option ℕ → Option ℕ → ℕ → Desk → Option ℕ × Desk
flush_requested none output_epoch last d = (output_epoch, d)
flush_requested (some requested) output_epoch last d =
    let matches =
      same_epoch output_epoch requested
      || (is_none output_epoch && (requested == last && active d.player)) in
    let d' = without_request d in
    if not matches || not (same_epoch d.session.local_output_epoch requested)
    then (output_epoch, d')
    else (none, flushed requested d')

-- The output epoch that goes on, and the desk.
unfoldable pub flush_local_barge_in : Option ℕ → ℕ → Desk → Option ℕ × Desk
flush_local_barge_in output_epoch last d =
    flush_requested d.session.barge_in_requested_epoch output_epoch last d
