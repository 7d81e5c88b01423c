-- ===== src/Examples/AppServer.antt =====
-- Tests of the client of the app-server, and its theorems at concrete inputs.
use mathlib.Core.List.{Memᴰ}
use ha_codex_voice.Prelude.{ℕ, ◌≡◌, ◌≢◌, ◌↔◌, refl, Bool, true, false, none, some, List, [], ◌∷◌}
use ha_codex_voice.Prelude.Ints.{pos}
use ha_codex_voice.Prelude.Action.{returned}
use ha_codex_voice.Json.{
  Value, bool, int, text, object, array, Items, nil, cons, Fields, end, field, get,
}
use ha_codex_voice.Bridge.AppServer.Table.{number, key_of, same_key}
use ha_codex_voice.Bridge.AppServer.Client.{
  AppServer, app_server, answered, finish_call, subscribe, broadcast, delivered, offer,
}
use ha_codex_voice.Bridge.AppServer.Responses.{
  Responder, drained, broken, respond_result, acquire, finish_response, route_message, respond,
  commit, cancel_timeout, retire, trim, leave, handle_server_request, tool_call, result_message,
}
use ha_codex_voice.Bridge.AppServer.World.{
  Event, run, step, starts, receives, responds, acquires, finishes, subscribes, expires, start,
}
use ha_codex_voice.Bridge.AppServer.Answers.{answers, writers, bit}
use ha_codex_voice.Bridge.AppServer.Once.{new_world, run-new_world-Once}
use ha_codex_voice.Bridge.AppServer.Late.{finish_response_lem}
use ha_codex_voice.Bridge.AppServer.Calls.{meaning, route_message-answers}
use ha_codex_voice.Bridge.AppServer.Bounds.{Bounded, run-new_world-Bounded}
use ha_codex_voice.Bridge.AppServer.Layers.{
  assert_no_configured_mcp_servers, as_layers, get_of, AllClear,
  assert_no_configured_mcp_servers_iff,
}

abbrev tool_request : Fields
tool_request = field "id" (int (pos 7)) (field "method" (text "item/tool/call") end)

abbrev tool_answer : Fields
tool_answer = field "id" (int (pos 7)) (field "result" (object end) end)

-- A tool is asked for; its answer and the timeout race, and the answer is written first.
abbrev tool_run : List Event
tool_run =
    starts
    ∷ subscribes 4
    ∷ receives tool_request
    ∷ responds (int (pos 7)) tool_answer
    ∷ expires 0
    ∷ acquires 0
    ∷ finishes 0 drained
    ∷ acquires 0
    ∷ responds (int (pos 7)) tool_answer
    ∷ []

answered_once : answers 0 (run tool_run new_world).server.lines ≡ 1
unfolding run step start app_server subscribe route_message get handle_server_request key_of
    tool_call delivered broadcast offer respond_result respond acquire finish_response commit
    cancel_timeout retire trim leave same_key result_message
answered_once = refl

nothing_left : (run tool_run new_world).responders ≡ []
unfolding run step start app_server subscribe route_message get handle_server_request key_of
    tool_call delivered broadcast offer respond_result respond acquire finish_response commit
    cancel_timeout retire trim leave same_key result_message
nothing_left = refl

run-new_world-Once_example :
    (answers 0 (run tool_run new_world).server.lines
      ≡ bit ((run tool_run new_world).server.cells 0).written)
    × (writers 0 (run tool_run new_world).responders
        ≡ bit ((run tool_run new_world).server.cells 0).locked)
    × (((run tool_run new_world).server.cells 0).written ≡ true
        → writers 0 (run tool_run new_world).responders ≡ 0)
run-new_world-Once_example = run-new_world-Once 0 tool_run

run-new_world-Bounded_example : Bounded (run tool_run new_world)
run-new_world-Bounded_example = run-new_world-Bounded tool_run

abbrev asked : AppServer
asked = record app_server {
  alive = true;
  states = record { key = number (pos 7); value = 0 } ∷ [];
  next_cell = 1;
}

abbrev responder : Responder
responder = record {
  key = number (pos 7);
  message = tool_answer;
  cell = some 0;
  fallback = false;
  writing = true;
}

finish_response_lem_example :
    ((message : Fields)
      → respond_result (number (pos 7)) message (finish_response (some 0) responder drained asked)
        ≡ returned none)
    × ((reached : Bool) (q : Responder)
        → q.key ≡ number (pos 7)
        → (acquire 0 q (finish_response (some 0) responder (broken reached) asked)).0
          ≡ returned (some (record q { writing = true })))
unfolding app_server same_key
finish_response_lem_example = finish_response_lem 0 responder asked refl refl refl

abbrev called : AppServer
called = record app_server { alive = true; next_id = 3; pending = 1 ∷ 2 ∷ [] }

route_message-answers_example :
    let s' = (route_message (field "id" (int (pos 2)) (field "result" (bool true) end)) called).1 in
    let (outcome, s'') = finish_call "account/read" 2 answered s' in
    (outcome ≡ meaning "account/read" (field "id" (int (pos 2)) (field "result" (bool true) end)))
    × ((m : ℕ) → m ≢ 2 → s'.futures m ≡ called.futures m)
    × ((route_message (field "id" (int (pos 2)) end) s').1 ≡ s')
    × ((route_message (field "id" (int (pos 2)) end) s'').1 ≡ s'')
unfolding app_server get
route_message-answers_example =
    route_message-answers 2 (field "id" (int (pos 2)) (field "result" (bool true) end))
      (field "id" (int (pos 2)) end) refl refl refl refl "account/read" called
      (Memᴰ.tail (Memᴰ.head refl)) refl

abbrev layered : Value
layered = object (
    field "layers"
      (array
        (cons (object (field "config" (object (field "mcp_servers" (object end) end)) end)) nil))
      end)

assert_no_configured_mcp_servers_iff_example :
    (assert_no_configured_mcp_servers layered ≡ returned tt)
    ↔ ((layers : Items) × (as_layers (get_of "layers" layered) ≡ some layers) × AllClear layers)
assert_no_configured_mcp_servers_iff_example = assert_no_configured_mcp_servers_iff layered
