-- ===== src/HomeAssistant/ToolClient.antt =====
-- The state of one connection of custom_components/codex_voice/realtime_tools.py, whose tasks for tool
-- calls are cut at their awaits, with the checks and the tasks themselves.
use ha_codex_voice.Prelude.{
  ℕ, String, str_eq, Bool, true, false, not, ◌||◌, Option, none, some, List, [], ◌∷◌, ltb, ◌==◌,
  any, if◌then◌else◌,
}
use ha_codex_voice.Prelude.Action.{Outcome, returned, raised, and_then}
use ha_codex_voice.Json.{Value, bool, text, Fields, field, end, as_text, codes, text_length}
use ha_codex_voice.Bridge.ToolBroker.Registration.{is_control, is_tool_name}

-- What ends the service of a connection by an exception.
pub data ServeFault : Type 0 where
  socket_failed only_text event_too_large not_an_object registered_twice : ServeFault
  unsupported_protocol bad_text before_registration too_many_pending too_many_calls : ServeFault
  registration_rejected unknown_event disconnected : ServeFault

abbrev pub max_pending_tool_calls : ℕ
max_pending_tool_calls = 16

abbrev pub max_calls_per_generation : ℕ
max_calls_per_generation = 1024

abbrev pub max_realtime_tool_message_bytes : ℕ
max_realtime_tool_message_bytes = 262144

-- of arguments and of results
abbrev pub max_realtime_tool_json_bytes : ℕ
max_realtime_tool_json_bytes = 65536

pub record ToolResult : Type 0 where
  pub generation : String
  pub call_id : String
  pub success : Bool
  pub result : Fields

-- A pending task: in `async_call_tool`, or on its way to send its result.
pub data Task : Type 0 where
  calling : String → Task
  sending : ToolResult → Task

pub record Execution : Type 0 where
  pub call_id : String
  pub tool_name : String
  pub tool_args : Fields

pub record ToolClient : Type 0 where
  pub tool_names : List String
  pub generation : Option String
  pub seen_call_ids : List String
  pub pending_calls : List Task
  pub connected : Bool
  -- `websocket.closed`
  pub closed : Bool
  pub ended : Bool
  pub fault : Option ServeFault
  -- the calls of `async_call_tool` and the results that were sent, the latest first
  pub executions : List Execution
  pub results : List ToolResult
  pub pongs : ℕ

unfoldable pub new_client : List String → ToolClient
new_client tool_names = record {
  tool_names = tool_names;
  generation = none;
  seen_call_ids = [];
  pending_calls = [];
  connected = false;
  closed = false;
  ended = false;
  fault = none;
  executions = [];
  results = [];
  pongs = 0;
}

-- `websocket.receive()`: an error, a close, what is no text, or a text of so many bytes, as `json_loads`
-- reads it.
pub data Message : Type 0 where
  failed closing other : Message
  text_of : ℕ → Option Value → Message

-- How `async_call_tool` ends within its deadline, or does not.
pub data ToolEnd : Type 0 where
  gives : Value → ToolEnd
  raises times_out : ToolEnd

abbrev pub bounded : ℕ → Option String → Outcome ServeFault String
bounded limit none = raised bad_text
bounded limit (some s) =
    if (text_length s == 0) || (ltb limit (text_length s) || any is_control (codes s))
    then raised bad_text
    else returned s

-- `_bounded_string`
unfoldable pub bounded_string : Option Value → ℕ → Outcome ServeFault String
bounded_string value limit = bounded limit (as_text value)

-- `_bounded_tool_name`
unfoldable pub bounded_tool_name : Option Value → Outcome ServeFault String
bounded_tool_name value =
    and_then (bounded_string value 256)
      λ name. if is_tool_name (codes name) then returned name else raised bad_text

-- `_tool_error`
abbrev pub tool_error : String → String → Fields
tool_error code message = field "error" (text code) (field "error_text" (text message) end)

abbrev pub tool_timeout : Fields
tool_timeout = field "error" (text "tool_timeout") (
    field "error_text" (text "Home Assistant tool call timed out; outcome is unknown; do not retry")
      (field "do_not_retry" (bool true) end))

abbrev pub tool_failed : Fields
tool_failed = tool_error "tool_failed" "Home Assistant tool call failed"

-- The `finally` of the connection: the tasks are cancelled.
unfoldable pub end_connection : Option ServeFault → ToolClient → ToolClient
end_connection f c = record c { fault = f; ended = true; connected = false; pending_calls = [] }

abbrev pub fail : ServeFault → ToolClient → ToolClient
fail f = end_connection (some f)

-- `_async_handle_tool_call_safely`: a task that raises closes the socket.
abbrev pub shut : ToolClient → ToolClient
shut c = record c { closed = true }

abbrev pub add_task : Task → ToolClient → ToolClient
add_task t c = record c { pending_calls = t ∷ c.pending_calls }

abbrev pub task_id : Task → String
task_id (calling id) = id
task_id (sending r) = r.call_id

-- The task of a call id is taken out.
unfoldable pub without : String → List Task → List Task
without id [] = []
without id (t ∷ ts) = if str_eq id (task_id t) then ts else t ∷ without id ts

unfoldable pub find_task : String → List Task → Option Task
find_task id [] = none
find_task id (t ∷ ts) = if str_eq id (task_id t) then some t else find_task id ts

abbrev pub discard : String → ToolClient → ToolClient
discard id c = record c { pending_calls = without id c.pending_calls }

-- `_async_send_text` of a task's result, whether it goes through or raises
unfoldable pub send_result : String → Option Task → Bool → ToolClient → ToolClient
send_result id (some (sending r)) ok c =
    if c.closed || not ok
    then shut (discard id c)
    else record (discard id c) { results = r ∷ c.results }
send_result id _ ok c = c

pub data Event : Type 0 where
  receives : Message → Event
  tool_ends : String → ToolEnd → Event
  sends : String → Bool → Event
  closes : Event
