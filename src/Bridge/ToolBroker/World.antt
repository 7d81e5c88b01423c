-- ===== src/Bridge/ToolBroker/World.antt =====
-- `call` of bridge/tool_broker.py, in its two halves: up to the await, and from where it wakes up to
-- the end of its `finally`; and the runs of the broker, in which the other methods come between.
use ha_codex_voice.Prelude.{
  ℕ, zero, suc, ◌+◌, String, Bool, true, false, not, ◌&&◌, ◌||◌, Option, none, some, List, [], ◌∷◌,
  ◌++◌, leb, ltb, ◌==◌, str_eq, if◌then◌else◌, length,
}
use ha_codex_voice.Prelude.Action.{Outcome, returned, raised}
use ha_codex_voice.Json.{Value, Fields, member}
use ha_codex_voice.Bridge.ToolBroker.Dict.{Entry, remove, insert}
use ha_codex_voice.Bridge.ToolBroker.Broker.{
  Broker, Snapshot, ToolBrokerResult, BrokerFault, authority_changed, undeclared_tool,
  too_many_pending, call_timed_out, call_cancelled, connection_failed, Future, waiting, resolved,
  failed, dropped, is_open, settle_waiting, bounded_json, register, unregister, handle_message,
}

-- What a suspended `call` holds.
pub record Ticket : Type 0 where
  pub call_id : String
  pub generation : String
  pub future : ℕ

abbrev pub same_generation : Option Snapshot → Snapshot → Bool
same_generation none s = false
same_generation (some current) s = str_eq current.generation s.generation

-- `create_future()`
abbrev pub create : ℕ → (ℕ → Future) → ℕ → Future
create n futures m = if m == n then waiting else futures m

abbrev pub enrolled : String → Snapshot → Broker → Broker
enrolled call_id snapshot b = record b {
  pending =
      insert call_id (record { generation = snapshot.generation; future = b.calls_started })
        b.pending;
  calls_started = b.calls_started + 1;
  futures = create b.calls_started b.futures;
}

-- `call` up to the await; `size` is that of the encoded arguments, `call_id` the new token.
unfoldable pub start_call :
    (ℕ → Bool)
    → Snapshot
    → String
    → Option ℕ
    → String
    → Broker
    → Outcome BrokerFault Ticket × Broker
start_call closed snapshot name size call_id b =
    if not (same_generation b.snapshot snapshot) || not (is_open b.websocket closed)
    then (raised authority_changed, b)
    else if not (member name snapshot.tool_names)
    then (raised undeclared_tool, b)
    else elim (bounded_json size 65536) [
      | raised e ↦ (raised e, b)
      | returned _ ↦
          (if leb 16 (length b.pending) then (raised too_many_pending, b) else (
            returned (record {
              call_id = call_id;
              generation = snapshot.generation;
              future = b.calls_started;
            }),
            enrolled call_id snapshot b,
          ))
    ]

-- What wakes a suspended call: its future is done, or the deadline, a cancellation, a failed send.
pub data Wakeup : Type 0 where
  answered deadline cancelled send_failed : Wakeup

unfoldable pub call_outcome : Wakeup → Future → Outcome BrokerFault ToolBrokerResult
call_outcome answered (resolved r) = returned r
call_outcome answered (failed e) = raised e
call_outcome answered waiting = raised call_cancelled
call_outcome answered dropped = raised call_cancelled
call_outcome deadline _ = raised call_timed_out
call_outcome cancelled _ = raised call_cancelled
call_outcome send_failed _ = raised connection_failed

abbrev pub is_timeout : BrokerFault → Bool
is_timeout call_timed_out = true
is_timeout _ = false

abbrev pub is_cancellation : BrokerFault → Bool
is_cancellation call_cancelled = true
is_cancellation _ = false

-- The counter that the outcome moves.
unfoldable pub count_outcome : Outcome BrokerFault ToolBrokerResult → Broker → Broker
count_outcome (returned r) b =
    if r.success
    then record b { calls_succeeded = b.calls_succeeded + 1 }
    else record b { calls_failed = b.calls_failed + 1 }
count_outcome (raised e) b =
    if is_timeout e
    then record b { calls_timed_out = b.calls_timed_out + 1 }
    else if is_cancellation e
    then record b { calls_cancelled = b.calls_cancelled + 1 }
    else record b { calls_transport_failed = b.calls_transport_failed + 1 }

-- `while len(self._retired) > MAX_RETIRED_TOOL_CALLS: self._retired.popitem(last=False)`
unfoldable pub trim : List (Entry String) → List (Entry String)
trim [] = []
trim (e ∷ d) = let rest = trim d in if ltb 128 (suc (length d)) then rest else e ∷ d

abbrev pub is_current : Option Snapshot → String → Bool
is_current none generation = false
is_current (some s) generation = str_eq s.generation generation

abbrev pub completed : Outcome BrokerFault ToolBrokerResult → Bool
completed (returned _) = true
completed (raised _) = false

-- The `finally` of `call`.
unfoldable pub settle_call : Ticket → Bool → ℕ → Broker → Broker
settle_call t is_completed elapsed_ms b = record b {
  last_call_duration_ms = some elapsed_ms;
  pending = remove t.call_id b.pending;
  retired =
      (if not is_completed && is_current b.snapshot t.generation
        then trim
            (remove t.call_id b.retired ++ (record { key = t.call_id; value = t.generation } ∷ []))
        else b.retired);
  futures = settle_waiting t.future dropped b.futures;
}

unfoldable pub finish_call :
    Ticket → Wakeup → ℕ → Broker → Outcome BrokerFault ToolBrokerResult × Broker
finish_call t wakeup elapsed_ms b =
    let outcome = call_outcome wakeup (b.futures t.future) in
    (outcome, settle_call t (completed outcome) elapsed_ms (count_outcome outcome b))

-- The broker, and the calls that are suspended.
pub record World : Type 0 where
  pub broker : Broker
  pub calls : List Ticket

-- A call wakes at its future only when that is done.
abbrev pub is_enabled : Wakeup → Future → Bool
is_enabled answered waiting = false
is_enabled answered (resolved _) = true
is_enabled answered (failed _) = true
is_enabled answered dropped = true
is_enabled deadline _ = true
is_enabled cancelled _ = true
is_enabled send_failed _ = true

-- One uninterrupted stretch of the event loop. `websocket.closed` is what the sockets answer in that
-- stretch: a socket may close between any two.
pub data Event : Type 0 where
  registers : (ℕ → Bool) → ℕ → Outcome BrokerFault Snapshot → String → Bool → Event
  unregisters : ℕ → Event
  receives : ℕ → Fields → Bool → Event
  calls_tool : (ℕ → Bool) → Snapshot → String → Option ℕ → String → Event
  wakes : ℕ → Wakeup → ℕ → Event

abbrev pub on_broker : Broker → World → World
on_broker b w = record w { broker = b }

abbrev pub started_call : Outcome BrokerFault Ticket × Broker → World → World
started_call (returned t, b) w = record { broker = b; calls = w.calls ++ (t ∷ []) }
started_call (raised e, b) w = record w { broker = b }

-- The calls before and after the one that wakes.
abbrev pub split_at : ℕ → List Ticket → Option (Ticket × List Ticket)
split_at n [] = none
split_at zero (t ∷ ts) = some (t, ts)
split_at (suc n) (t ∷ ts) = elim (split_at n ts) [ none ↦ none | some (u, us) ↦ some (u, t ∷ us) ]

abbrev pub woken : Option (Ticket × List Ticket) → Wakeup → ℕ → World → World
woken none wakeup elapsed_ms w = w
woken (some (t, rest)) wakeup elapsed_ms w =
    if is_enabled wakeup (w.broker.futures t.future)
    then record { broker = (finish_call t wakeup elapsed_ms w.broker).1; calls = rest }
    else w

module _ (dumped : Value → Option ℕ) where
  unfoldable pub step : Event → World → World
  step (registers closed ws snapshot generation sent) w =
      on_broker (register closed ws snapshot generation sent w.broker).1 w
  step (unregisters ws) w = on_broker (unregister ws w.broker) w
  step (receives ws value sent) w = on_broker (handle_message dumped ws value sent w.broker).1 w
  step (calls_tool closed snapshot name size call_id) w =
      started_call (start_call closed snapshot name size call_id w.broker) w
  step (wakes n wakeup elapsed_ms) w = woken (split_at n w.calls) wakeup elapsed_ms w

  unfoldable pub run : List Event → World → World
  run [] w = w
  run (e ∷ es) w = run es (step e w)
