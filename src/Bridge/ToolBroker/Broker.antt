-- ===== src/Bridge/ToolBroker/Broker.antt =====
-- The broker's state and its methods, bridge/tool_broker.py. A future is a cell of the store
-- `futures`, which the pending entry and the suspended call both name. `json.dumps` enters as the
-- function `dumped`, the size of the encoding, `none` where it raises; a WebSocket is a number.
use ha_codex_voice.Prelude.{
  ℕ, String, Bool, true, false, not, ◌||◌, Option, none, some, is_some, List, [], ◌∷◌, leb, ◌==◌,
  if◌then◌else◌,
}
use ha_codex_voice.Prelude.Action.{Outcome, returned, raised, Action, check}
use ha_codex_voice.Json.{Value, null, bool, Fields, get, equals_text, as_text, text_length}
use ha_codex_voice.Bridge.ToolBroker.Dict.{Entry, lookup, remove}

pub record Tool : Type 0 where
  pub name : String
  pub description : String
  pub parameters : Fields

pub record Snapshot : Type 0 where
  pub generation : String
  pub authority_id : String
  pub language : String
  pub instructions : String
  pub tools : List Tool
  pub tool_names : List String

pub record ToolBrokerResult : Type 0 where
  pub success : Bool
  pub result : Value

-- `ToolBrokerUnavailable`, `BridgeBusyError` and `ProtocolError` by their messages.
pub data BrokerFault : Type 0 where
  busy connection_failed authority_changed authority_disconnected stale_authority : BrokerFault
  too_many_pending call_timed_out call_cancelled : BrokerFault
  unsupported_message invalid_correlation unknown_result duplicate_result : BrokerFault
  undeclared_tool not_json too_large : BrokerFault
  not_register bad_protocol bad_text bad_language bad_tools : BrokerFault

pub data Future : Type 0 where
  waiting : Future
  resolved : ToolBrokerResult → Future
  failed : BrokerFault → Future
  dropped : Future

pub record PendingCall : Type 0 where
  pub generation : String
  pub future : ℕ

abbrev pub Pending : Type 0
Pending = List (Entry PendingCall)

pub record Broker : Type 0 where
  pub websocket : Option ℕ
  pub snapshot : Option Snapshot
  pub pending : Pending
  pub retired : List (Entry String)
  pub calls_started : ℕ
  pub calls_succeeded : ℕ
  pub calls_failed : ℕ
  pub calls_timed_out : ℕ
  pub calls_transport_failed : ℕ
  pub calls_cancelled : ℕ
  pub last_call_duration_ms : Option ℕ
  pub futures : ℕ → Future

-- `HomeAssistantToolBroker.__init__`
abbrev pub broker : Broker
broker = record {
  websocket = none;
  snapshot = none;
  pending = [];
  retired = [];
  calls_started = 0;
  calls_succeeded = 0;
  calls_failed = 0;
  calls_timed_out = 0;
  calls_transport_failed = 0;
  calls_cancelled = 0;
  last_call_duration_ms = none;
  futures = λ _. waiting;
}

abbrev pub is_waiting : Future → Bool
is_waiting waiting = true
is_waiting (resolved _) = false
is_waiting (failed _) = false
is_waiting dropped = false

-- A future takes a value, whether or not it has one.
abbrev pub settle : ℕ → Future → (ℕ → Future) → ℕ → Future
settle n f futures m = if m == n then f else futures m

-- `if not future.done(): ...`; also `future.cancel()`, which does nothing to one that is done
abbrev pub settle_waiting : ℕ → Future → (ℕ → Future) → ℕ → Future
settle_waiting n f futures = if is_waiting (futures n) then settle n f futures else futures

-- the loop that fails every call of a list
unfoldable pub fail_calls : BrokerFault → Pending → (ℕ → Future) → ℕ → Future
fail_calls e [] futures = futures
fail_calls e (c ∷ cs) futures = fail_calls e cs (settle_waiting c.value.future (failed e) futures)

abbrev pub BrokerMethod : Type 0 → Type 0
BrokerMethod = Action Broker BrokerFault

abbrev pub same_socket : Option ℕ → ℕ → Bool
same_socket none ws = false
same_socket (some v) ws = v == ws

abbrev pub is_open : Option ℕ → (ℕ → Bool) → Bool
is_open none closed = false
is_open (some ws) closed = not (closed ws)

abbrev pub installed : ℕ → Snapshot → String → Broker → Broker
installed ws snapshot generation b = record b {
  websocket = some ws;
  snapshot = some (record snapshot { generation = generation });
}

-- `register` with a validated snapshot and a new generation; `sent` tells whether the acknowledgement
-- could be sent.
unfoldable pub register :
    (ℕ → Bool) → ℕ → Outcome BrokerFault Snapshot → String → Bool → BrokerMethod (Unit {0})
register closed ws (raised e) generation sent b = (raised e, b)
register closed ws (returned snapshot) generation sent b =
    if is_open b.websocket closed then (raised busy, b) else (
      (if sent then returned tt else raised connection_failed),
      (if is_some b.websocket
          then installed ws snapshot generation (record b {
            pending = [];
            retired = [];
            futures = fail_calls authority_changed b.pending b.futures;
          })
          else installed ws snapshot generation b),
    )

unfoldable pub unregister : ℕ → Broker → Broker
unregister ws b = if not (same_socket b.websocket ws) then b else record b {
  websocket = none;
  snapshot = none;
  pending = [];
  retired = [];
  futures = fail_calls authority_disconnected b.pending b.futures;
}

-- `_bounded_json`
abbrev pub bounded_json : Option ℕ → ℕ → Outcome BrokerFault (Unit {0})
bounded_json none maximum = raised not_json
bounded_json (some size) maximum = check (leb size maximum) too_large

abbrev pub value_or_null : Option Value → Value
value_or_null none = null
value_or_null (some v) = v

abbrev pub is_success : Option Value → Option Bool
is_success (some (bool b)) = some b
is_success _ = none

abbrev pub is_generation : Option Snapshot → Option Value → Bool
is_generation none v = false
is_generation (some s) v = equals_text s.generation v

abbrev pub same_text : Option String → Option Value → Bool
same_text none v = false
same_text (some s) v = equals_text s v

-- The end of `handle_message`: the pending call takes the result.
abbrev pub resolve :
    Option PendingCall → String → Option Value → ToolBrokerResult → BrokerMethod (Unit {0})
resolve none call_id generation result b =
    let b' = record b { retired = remove call_id b.retired } in
    if same_text (lookup call_id b.retired) generation
    then (returned tt, b')
    else (raised unknown_result, b')
resolve (some call) call_id generation result b =
    let b' = record b { pending = remove call_id b.pending } in
    if not (equals_text call.generation generation)
    then (raised unknown_result, b')
    else if not (is_waiting (b.futures call.future))
    then (raised duplicate_result, b')
    else (returned tt, record b' { futures = settle call.future (resolved result) b.futures })

-- a result whose call id is a text that is not empty, and whose success is a bool
abbrev pub take_result :
    (Value → Option ℕ) → Fields → Option String → Option Bool → BrokerMethod (Unit {0})
take_result dumped value (some call_id) (some success) b =
    if not (is_generation b.snapshot (get "generation" value)) || (text_length call_id == 0)
    then (raised invalid_correlation, b)
    else let result = value_or_null (get "result" value) in
      elim (bounded_json (dumped result) 65536) [
        | raised e ↦ (raised e, b)
        | returned _ ↦
            resolve (lookup call_id b.pending) call_id (get "generation" value)
              (record { success = success; result = result }) b
      ]
take_result dumped value (some call_id) none b = (raised invalid_correlation, b)
take_result dumped value none success b = (raised invalid_correlation, b)

unfoldable pub handle_message : (Value → Option ℕ) → ℕ → Fields → Bool → BrokerMethod (Unit {0})
handle_message dumped ws value sent b =
    if not (same_socket b.websocket ws)
    then (raised stale_authority, b)
    else if equals_text "ping" (get "type" value)
    then ((if sent then returned tt else raised connection_failed), b)
    else if not (equals_text "tool_result" (get "type" value))
    then (raised unsupported_message, b)
    else take_result dumped value (as_text (get "call_id" value)) (is_success (get "success" value))
        b
