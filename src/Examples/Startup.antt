-- ===== src/Examples/Startup.antt =====
-- A test of the wait for the acknowledgement, and its theorems at concrete inputs.
use ha_codex_voice.Prelude.{ℕ, ◌≡◌, ◌≢◌, refl, true, false, Option, none, some, List, [], ◌∷◌}
use ha_codex_voice.Prelude.Ints.{pos}
use ha_codex_voice.Prelude.Action.{returned}
use ha_codex_voice.Json.{Value, null, object, get}
use ha_codex_voice.Device.WebSocket.Connection.{text}
use ha_codex_voice.Device.Session.Protocol.{
  json_object, validate_started, is_expected, check_capabilities,
}
use ha_codex_voice.Device.Session.Startup.{Turn, wait_turn, wait_for_started}
use ha_codex_voice.Device.Session.Acknowledged.{
  IsAcknowledged, wait_for_started-IsAcknowledged, wait_for_started-ends,
}
use ha_codex_voice.Bridge.Wire.Start.{binary_protocol, started_fields, uses_binary_audio}
use ha_codex_voice.Bridge.Wire.Handshake.{started_message}

abbrev loads : List ℕ → Option Value
loads _ =
    some (object (started_message null null null null (binary_protocol (pos 16000) (pos 1) true)))

-- nothing to read, then the acknowledgement
abbrev turns : List Turn
turns =
    record { is_cancelled = false; now = 1; readable = false; received = returned none }
    ∷ record {
      is_cancelled = false;
      now = 2;
      readable = true;
      received = returned (some (text []));
    }
    ∷ []

turns_acknowledged : wait_for_started loads 10 turns ≡ returned true
unfolding wait_for_started wait_turn json_object validate_started is_expected check_capabilities
    started_message started_fields uses_binary_audio get
turns_acknowledged = refl

wait_for_started-IsAcknowledged_example : IsAcknowledged loads 10 turns
wait_for_started-IsAcknowledged_example =
    wait_for_started-IsAcknowledged loads 10 turns turns_acknowledged

-- with the deadline at the second turn
wait_for_started-ends_example : wait_for_started loads 2 turns ≢ returned false
wait_for_started-ends_example = wait_for_started-ends loads 2 turns refl
