-- ===== src/Examples/Bridge.antt =====
-- Tests of the wire contract and the tool broker, and their theorems at concrete inputs.
use ha_codex_voice.Prelude.{
  ℕ, ◌≡◌, ◌⊎◌, ◌↔◌, refl, Bool, true, false, Option, some, List, [], ◌∷◌, ◌==◌, arith,
}
use ha_codex_voice.Prelude.Ints.{pos}
use ha_codex_voice.Prelude.Action.{returned, raised}
use ha_codex_voice.Json.{
  Value, null, int, text, array, object, nil, cons, Fields, end, field, get, member, text_length,
}
use ha_codex_voice.Texts.{lower, upper}
use ha_codex_voice.Device.Config.{
  optional_voice, is_voice_name, optional_prompt, realtime_start_message,
}
use ha_codex_voice.Device.Session.Protocol.{validate_started}
use ha_codex_voice.Bridge.Wire.Start.{
  negotiate, binary_protocol, legacy_protocol, uses_binary_audio,
}
use ha_codex_voice.Bridge.Wire.Events.{assistant, sanitized_data_control_event, event_role}
use ha_codex_voice.Bridge.Wire.Negotiate.{IsLegacyStart, IsBinary, negotiate_iff}
use ha_codex_voice.Bridge.Wire.Handshake.{started_message, handshake_agrees}
use ha_codex_voice.Bridge.Wire.Controls.{sanitized_data_control_event-content_free}
use ha_codex_voice.Bridge.Wire.Roles.{Place, Means, event_role_iff}
use ha_codex_voice.Bridge.ToolBroker.Broker.{
  fail_calls, failed, authority_changed, Broker, broker, Snapshot, unknown_result, call_timed_out,
  authority_disconnected, resolved, register, handle_message, unregister,
}
use ha_codex_voice.Bridge.ToolBroker.World.{
  Ticket, World, Event, answered, deadline, registers, unregisters, calls_tool, start_call,
  finish_call, step, run,
}
use ha_codex_voice.Bridge.ToolBroker.Language.{canonical_language, canonical_subtag}
use ha_codex_voice.Bridge.ToolBroker.Invariant.{WellFormed}
use ha_codex_voice.Bridge.ToolBroker.Runs.{new_world, AllFresh, run_new_broker-WellFormed}
use ha_codex_voice.Bridge.ToolBroker.Outcomes.{step-Keeps}
use ha_codex_voice.Bridge.ToolBroker.Delivery.{
  IsPending, tool_result, answer-delivered_once, late_answer-dropped, unregister-fails_pending,
}

abbrev voice_config : Fields
voice_config = field "voice" (text "Marin") (field "prompt" (text "Be brief") end)

abbrev ascii_space : ℕ → Bool
ascii_space c = c == 32

abbrev printable : ℕ → Bool
printable c = true

voice_accepted : optional_voice voice_config ≡ returned (some "marin")
unfolding optional_voice is_voice_name get lower
voice_accepted = refl

prompt_accepted : optional_prompt ascii_space printable voice_config ≡ returned (some "Be brief")
unfolding optional_prompt get text_length
prompt_accepted = refl

handshake_agrees_example :
    let p = binary_protocol (pos 16000) (pos 1) true in
    (negotiate (realtime_start_message (some "marin") (some "Be brief")) ≡ returned p)
    × (uses_binary_audio p ≡ true)
    × (validate_started (started_message null (text "t") (text "s") (text "v2") p) ≡ returned tt)
handshake_agrees_example =
    handshake_agrees ascii_space printable voice_config (some "marin") (some "Be brief")
      voice_accepted prompt_accepted null (text "t") (text "s") (text "v2")

abbrev legacy_start : Fields
legacy_start = field "type" (text "start") end

negotiate_iff_example : (negotiate legacy_start ≡ returned legacy_protocol) ↔ (
    (IsLegacyStart legacy_start × (legacy_protocol ≡ legacy_protocol))
    ⊎ IsBinary legacy_start legacy_protocol)
negotiate_iff_example = negotiate_iff legacy_start legacy_protocol

-- An event with content, and one without.
abbrev turn_done : Fields
turn_done = field "type" (text "turn.done") (
    field "role" (text "Output") (
      field "turn"
        (object (field "role" (text "assistant") (field "transcript" (text "hello") end))) end))

abbrev bare_turn_done : Fields
bare_turn_done = field "type" (text "turn.done") end

same_type : get "type" turn_done ≡ get "type" bare_turn_done
unfolding get
same_type = refl

sanitized_data_control_event-content_free_example :
    sanitized_data_control_event (some (object turn_done))
    ≡ sanitized_data_control_event (some (object bare_turn_done))
sanitized_data_control_event-content_free_example =
    sanitized_data_control_event-content_free turn_done bare_turn_done same_type

event_role_iff_example :
    (event_role turn_done ≡ some assistant)
    ↔ (((v : Value) × Place turn_done v) × ((v : Value) → Place turn_done v → Means assistant v))
event_role_iff_example = event_role_iff turn_done assistant

canonical_accepted : canonical_language "PT-br" ≡ returned "pt-BR"
unfolding canonical_language canonical_subtag text_length lower upper
canonical_accepted = refl

abbrev dumped : Value → Option ℕ
dumped _ = some 20

abbrev registration : Fields
registration = field "type" (text "register") (
    field "protocol_version" (int (pos 1)) (
      field "authority_id" (text "ha") (
        field "language" (text "PT-br") (
          field "tools"
            (array (
              cons (object (field "name" (text "HassTurnOn") (field "parameters" (object end) end)))
                nil))
            end))))

abbrev registered : Snapshot
registered = record {
  generation = "";
  authority_id = "ha";
  language = "pt-BR";
  instructions = "";
  tools = record { name = "HassTurnOn"; description = ""; parameters = end } ∷ [];
  tool_names = "HassTurnOn" ∷ [];
}

-- An authority is connected on socket 7, and one call waits.
abbrev authority : Snapshot
authority = record {
  generation = "g1";
  authority_id = "ha";
  language = "pt-BR";
  instructions = "";
  tools = [];
  tool_names = "HassTurnOn" ∷ [];
}

abbrev ticket : Ticket
ticket = record { call_id = "c1"; generation = "g1"; future = 0 }

abbrev open_socket : ℕ → Bool
open_socket _ = false

abbrev events : List Event
events =
    registers open_socket 7 (returned authority) "g1" true
    ∷ calls_tool open_socket authority "HassTurnOn" (some 2) "c1"
    ∷ []

abbrev calling : Broker
calling = record broker {
  websocket = some 7;
  snapshot = some authority;
  pending = record { key = "c1"; value = record { generation = "g1"; future = 0 } } ∷ [];
  calls_started = 1;
}

-- The two events lead there.
run_test :
    let w = run dumped events new_world in
    (w.calls ≡ ticket ∷ [])
    × (w.broker.pending ≡ calling.pending)
    × (w.broker.snapshot ≡ calling.snapshot)
    × (w.broker.calls_started ≡ 1)
unfolding run step register start_call member
run_test = (refl, refl, refl, refl)

ticket-IsPending : IsPending ticket calling
unfolding text_length
ticket-IsPending = record { entry = refl; authority = refl; unsettled = refl; named = refl }

-- The socket closes, and another authority takes over with the call pending.
abbrev takeover : List Event
takeover =
    registers open_socket 7 (returned authority) "g1" true
    ∷ calls_tool open_socket authority "HassTurnOn" (some 2) "c1"
    ∷ registers (λ ws. ws == 7) 9 (returned authority) "g2" true
    ∷ []

takeover_test :
    let w = run dumped takeover new_world in
    (w.calls ≡ ticket ∷ [])
    × (w.broker.pending ≡ [])
    × (w.broker.websocket ≡ some 9)
    × (w.broker.futures 0 ≡ failed authority_changed)
unfolding run step register start_call member fail_calls
takeover_test = (refl, refl, refl, refl)

takeover-AllFresh : AllFresh dumped takeover new_world
unfolding AllFresh step register
takeover-AllFresh = (tt, (refl, (tt, tt)))

run_new_broker-WellFormed_example : WellFormed (run dumped takeover new_world)
run_new_broker-WellFormed_example = run_new_broker-WellFormed dumped takeover takeover-AllFresh

-- The future of the call, once the result came.
abbrev resolved_world : World
resolved_world = record {
  broker = record calling {
    pending = [];
    futures = λ _. resolved (record { success = true; result = null });
  };
  calls = ticket ∷ [];
}

step-Keeps_example :
    (step dumped (unregisters 7) resolved_world).broker.futures 0 ≡ resolved_world.broker.futures 0
step-Keeps_example = step-Keeps 0 dumped (unregisters 7) resolved_world (omega arith) refl

answer-delivered_once_example :
    let (r, b') = handle_message dumped 7 (tool_result "g1" "c1" true (text "done")) true calling in
    (r ≡ returned tt)
    × ((finish_call ticket answered 12 b').0
        ≡ returned (record { success = true; result = text "done" }))
    × ((handle_message dumped 7 (tool_result "g1" "c1" true (text "done")) true b').0
        ≡ raised unknown_result)
answer-delivered_once_example =
    answer-delivered_once dumped 7 true ticket true (text "done") 20 refl (omega arith) calling 12
      refl ticket-IsPending refl

late_answer-dropped_example :
    let message = tool_result "g1" "c1" true (text "done") in
    let (r, b') = finish_call ticket deadline 35000 calling in
    let (r', b'') = handle_message dumped 7 message true b' in
    (r ≡ raised call_timed_out)
    × (r' ≡ returned tt)
    × (b''.futures ≡ b'.futures)
    × ((handle_message dumped 7 message true b'').0 ≡ raised unknown_result)
late_answer-dropped_example =
    late_answer-dropped dumped 7 true ticket true (text "done") 20 refl (omega arith) calling 35000
      refl ticket-IsPending

unregister-fails_pending_example :
    (finish_call ticket answered 12 (unregister 7 calling)).0 ≡ raised authority_disconnected
unregister-fails_pending_example =
    unregister-fails_pending 7 calling ticket 12 refl ticket-IsPending
