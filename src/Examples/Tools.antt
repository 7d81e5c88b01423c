-- ===== src/Examples/Tools.antt =====
-- Tests of the Home Assistant side of the tool broker, and its theorems at a concrete connection.
use ha_codex_voice.Prelude.{ℕ, ◌≡◌, refl, true, Option, some, List, [], ◌∷◌, arith}
use ha_codex_voice.Json.{Value, Fields, object, int, text, field, end, get, member, text_length}
use ha_codex_voice.HomeAssistant.ToolClient.{
  ToolResult, ToolClient, new_client, text_of, gives, bounded_string, bounded_tool_name, without,
  find_task, send_result, Event, receives, tool_ends, sends,
}
use ha_codex_voice.HomeAssistant.Connection.{
  answer, new_call, handle_tool_call, on_event, receive, tool_outcome, end_tool, step, run,
}
use ha_codex_voice.Prelude.Ints.{pos}
use ha_codex_voice.HomeAssistant.Ledger.{IsOnce}
use ha_codex_voice.HomeAssistant.Once.{run-new_client-IsOnce}
use ha_codex_voice.HomeAssistant.Answered.{IsServable, gave, served, serve-call}

abbrev serialized_size : Value → Option ℕ
serialized_size _ = some 2

abbrev message_size : ToolResult → ℕ
message_size _ = 100

abbrev registration : Fields
registration =
    field "type" (text "registered")
      (field "protocol_version" (int (pos 1)) (field "generation" (text "g1") end))

abbrev tool_call : Fields
tool_call = field "type" (text "tool_call") (
    field "generation" (text "g1") (
      field "call_id" (text "c1")
        (field "name" (text "turn_on") (field "arguments" (object end) end))))

abbrev call : Event
call = receives (text_of 90 (some (object tool_call)))

-- The call comes twice and is answered once.
abbrev twice : List Event
twice =
    receives (text_of 70 (some (object registration)))
    ∷ call
    ∷ call
    ∷ tool_ends "c1" (gives (object end))
    ∷ sends "c1" true
    ∷ call
    ∷ []

run-new_client-IsOnce_example :
    IsOnce (run serialized_size message_size twice (new_client ("turn_on" ∷ [])))
run-new_client-IsOnce_example =
    run-new_client-IsOnce serialized_size message_size twice ("turn_on" ∷ [])

abbrev connection : ToolClient
connection = record (new_client ("turn_on" ∷ [])) { generation = some "g1"; connected = true }

connection-IsServable : IsServable serialized_size connection tool_call "g1" "c1" "turn_on" end 2
unfolding new_client get bounded_string bounded_tool_name text_length member
connection-IsServable = record {
  live = refl;
  connected = refl;
  registered = refl;
  is_call = refl;
  its_generation = refl;
  its_id = refl;
  its_name = refl;
  its_arguments = refl;
  its_size = refl;
  small = omega arith;
  known = refl;
  new = refl;
  room = omega arith;
  few = omega arith;
}

abbrev answered : ToolClient
answered =
    served serialized_size message_size connection tool_call "g1" "c1" "turn_on" end 2
      connection-IsServable true end

twice-answered : run serialized_size message_size twice (new_client ("turn_on" ∷ [])) ≡ answered
unfolding run step receive on_event handle_tool_call new_call new_client get bounded_string
    bounded_tool_name text_length member find_task without answer end_tool send_result tool_outcome
twice-answered = refl

serve-call_example :
    (run serialized_size message_size
        (call ∷ tool_ends "c1" (gives (object end)) ∷ sends "c1" true ∷ [])
        connection
      ≡ answered)
    × (run serialized_size message_size (call ∷ []) answered ≡ answered)
serve-call_example =
    serve-call serialized_size message_size connection tool_call "g1" "c1" "turn_on" end 2
      connection-IsServable true end (gives (object end)) 90 (gave end 2 refl (omega arith))
      (omega arith) (omega arith)
