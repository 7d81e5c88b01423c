-- ===== src/Device/Session/Protocol.antt =====
-- The checks of session.py on what the bridge sends: the start acknowledgement, epochs, deadlines.
-- `json.loads` enters as the decoded value.
use ha_codex_voice.Prelude.{
  ℕ, suc, ◌+◌, String, Bool, true, false, not, ◌&&◌, Option, none, some, List, [], ◌∷◌, leb,
  if◌then◌else◌,
}
use ha_codex_voice.Prelude.Ints.{ℤ, pos}
use ha_codex_voice.Prelude.Action.{Outcome, returned, raised}
use ha_codex_voice.Json.{Value, Fields, get, equals_int, equals_text, is_bool, plain_int, as_object}

-- The messages with which the session raises `WebSocketError`.
pub data SessionError : Type 0 where
  start_not_text start_rejected incompatible_protocol capabilities_omitted : SessionError
  no_binary_pcm16 no_local_flush incompatible_cancel no_interrupt_ack : SessionError
  bad_output_epoch hard_limit idle_limit pong_timed_out : SessionError
  binary_outside_epoch unexpected_kind unsupported_control overlapping_epochs : SessionError
  future_stop stop_mismatch incompatible_interrupt bridge_error unsupported_message : SessionError
  not_json not_an_object : SessionError

-- `_json_object` of what `json.loads` gave, `none` where it raised.
unfoldable pub json_object : Option Value → Outcome SessionError Fields
json_object none = raised not_json
json_object (some v) = elim (as_object (some v)) [
  | none ↦ raised not_an_object
  | some d ↦ returned d
]

abbrev pub control_events : List String
control_events =
    "input_audio_buffer.committed" ∷ "input_audio_buffer.speech_started"
    ∷ "input_audio_buffer.speech_stopped" ∷ "output_audio_buffer.started"
    ∷ "output_audio_buffer.stopped" ∷ "response.created" ∷ "response.cancelled" ∷ "response.done"
    ∷ "session.started" ∷ "session.updated" ∷ "speaking.started" ∷ "speaking.stopped"
    ∷ "turn.created" ∷ "turn.done" ∷ []

-- `_output_epoch`
abbrev pub positive_int : Option ℤ → Outcome SessionError ℕ
positive_int (some (pos (suc n))) = returned (suc n)
positive_int _ = raised bad_output_epoch

unfoldable pub output_epoch_of : Fields → Outcome SessionError ℕ
output_epoch_of value = positive_int (plain_int (get "output_epoch" value))

-- The `expected` items of `_validate_started`.
unfoldable pub is_expected : Fields → Bool
is_expected value =
    equals_text "started" (get "type" value)
    && (equals_int (pos 2) (get "protocol_version" value)
        && (equals_text "native" (get "conversation_mode" value)
            && (equals_text "binary" (get "audio_transport" value)
                && (equals_int (pos 16000) (get "input_sample_rate" value)
                    && (equals_int (pos 1) (get "input_channels" value)
                        && (equals_int (pos 24000) (get "output_sample_rate" value)
                            && equals_int (pos 1) (get "output_channels" value)))))))

unfoldable pub check_capabilities : Option Fields → Outcome SessionError (Unit {0})
check_capabilities none = raised capabilities_omitted
check_capabilities (some c) =
    if not (is_bool true (get "binary_pcm16" c))
    then raised no_binary_pcm16
    else if not (is_bool true (get "local_flush" c))
    then raised no_local_flush
    else if not (is_bool false (get "remote_cancel" c))
    then raised incompatible_cancel
    else if not (is_bool true (get "same_session_interrupt_ack" c))
    then raised no_interrupt_ack
    else returned tt

unfoldable pub validate_started : Fields → Outcome SessionError (Unit {0})
unfolding is_expected check_capabilities
validate_started value =
    if is_expected value
    then check_capabilities (as_object (get "capabilities" value))
    else raised incompatible_protocol

-- `_check_deadlines`; a difference that would be negative is below every positive limit.
unfoldable pub check_deadlines :
    ℕ → ℕ → ℕ → ℕ → ℕ → Bool → Option ℕ → Outcome SessionError (Unit {0})
check_deadlines now started_at last_activity max_session idle_timeout pinging pong_deadline =
    if leb (started_at + max_session) now
    then raised hard_limit
    else if leb (last_activity + idle_timeout) now
    then raised idle_limit
    else if pinging && elim pong_deadline [ none ↦ false | some d ↦ leb d now ]
    then raised pong_timed_out
    else returned tt
