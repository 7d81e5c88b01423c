-- ===== src/Bridge/ToolBroker/Invariant.antt =====
-- The well-formedness of the broker of bridge/tool_broker.py, with `register`, `unregister` and
-- `handle_message`.
use ha_codex_voice.Prelude.{
  if_elim, ℕ, ◌+◌, ◌≤◌, ◌≡◌, refl, String, Bool, true, false, not, ◌||◌, Option, none, some,
  is_some, List, [], ◌∷◌, ◌==◌, length, All, All-map, arith, sym, ◌∙◌,
}
use ha_codex_voice.Prelude.Action.{Outcome, returned, raised}
use ha_codex_voice.Json.{Value, Fields, get, as_text, equals_text, text_length}
use ha_codex_voice.Bridge.ToolBroker.Dict.{Entry, lookup, remove, length-remove, All-remove}
use ha_codex_voice.Bridge.ToolBroker.Broker.{
  Broker, Snapshot, ToolBrokerResult, BrokerFault, Future, resolved, PendingCall, Pending, is_open,
  is_waiting, settle, bounded_json, register, unregister, handle_message, fail_calls,
  authority_disconnected, authority_changed, installed, same_socket, same_text, is_generation,
  value_or_null, resolve, take_result, is_success,
}
use ha_codex_voice.Bridge.ToolBroker.World.{Ticket, World, Event, is_current, calls_tool}
use ha_codex_voice.Bridge.ToolBroker.Entries.{
  Ascending, Waits, Holds, Ascending-remove, removed-apart, settle-Waits,
}

pub record WellFormed (w : World) : Type 0 where
  pub few_pending : length w.broker.pending ≤ 16
  pub few_retired : length w.broker.retired ≤ 128
  pub ascending : Ascending 0 w.broker.pending w.broker.calls_started
  pub waits : All (Waits w.broker.futures) w.broker.pending
  pub current : All (λ e. is_current w.broker.snapshot e.value.generation ≡ true) w.broker.pending
  pub authority : is_some w.broker.websocket ≡ is_some w.broker.snapshot
  pub holds : All (Holds w.broker.calls_started w.broker.pending) w.calls
  pub accounted :
      w.broker.calls_started
      ≡ w.broker.calls_succeeded
        + w.broker.calls_failed
        + w.broker.calls_timed_out
        + w.broker.calls_transport_failed
        + w.broker.calls_cancelled
        + length w.calls

-- A new call's token is not the id of a pending one.
abbrev pub IsFresh : Event → World → Type 0
IsFresh (calls_tool closed snapshot name size call_id) w = lookup call_id w.broker.pending ≡ none
IsFresh _ w = Unit

-- Without a pending call, neither the futures nor the authority matter.
emptied-WellFormed :
    (w : World) (ws : Option ℕ) (snapshot : Option Snapshot) (retired : List (Entry String))
    (futures : ℕ → Future)
    → WellFormed w
    → is_some ws ≡ is_some snapshot
    → length retired ≤ 128
    → WellFormed (record w {
      broker = record w.broker {
        websocket = ws;
        snapshot = snapshot;
        pending = [];
        retired = retired;
        futures = futures;
      };
    })
emptied-WellFormed w ws snapshot retired futures h e r = record {
  few_pending = omega arith;
  few_retired = r;
  ascending = omega arith;
  waits = tt;
  current = tt;
  authority = e;
  holds = All-map _ _ w.calls (λ t k. (k.0, tt)) h.holds;
  accounted = h.accounted;
}

no_pending :
    (s : Option Snapshot) (d : Pending)
    → is_some s ≡ false
    → All (λ e. is_current s e.value.generation ≡ true) d
    → d ≡ []
no_pending s [] e h = refl
no_pending s (x ∷ d) e h = ground arith

abbrev pub Good : List Ticket → Broker → Type 0
Good calls b = WellFormed (record { broker = b; calls = calls })

-- the broker that a method leaves
abbrev Leaves : List Ticket → Outcome BrokerFault (Unit {0}) × Broker → Type 0
Leaves calls r = Good calls r.1

pub register-WellFormed :
    (closed : ℕ → Bool) (ws : ℕ) (snapshot : Outcome BrokerFault Snapshot) (generation : String)
    (sent : Bool) (w : World)
    → WellFormed w
    → Leaves w.calls (register closed ws snapshot generation sent w.broker)
unfolding register
register-WellFormed closed ws (raised e) generation sent w h = h
register-WellFormed closed ws (returned snapshot) generation sent w h =
    if_elim (Leaves w.calls) (is_open w.broker.websocket closed) _ _ (λ _. h)
      λ _.
        if_elim (Good w.calls) (is_some w.broker.websocket) _ _
          (λ _.
            emptied-WellFormed w (some ws) (some (record snapshot { generation = generation })) []
              (fail_calls authority_changed w.broker.pending w.broker.futures) h refl (omega arith))
          λ e. rest (no_pending w.broker.snapshot w.broker.pending (sym h.authority ∙ e) h.current)
  where
    rest : w.broker.pending ≡ [] → Good w.calls (installed ws snapshot generation w.broker)
    rest e = record {
      few_pending = h.few_pending;
      few_retired = h.few_retired;
      ascending = h.ascending;
      waits = h.waits;
      current = rw e tt;
      authority = refl;
      holds = h.holds;
      accounted = h.accounted;
    }

pub unregister-WellFormed :
    (ws : ℕ) (w : World) → WellFormed w → Good w.calls (unregister ws w.broker)
unfolding unregister
unregister-WellFormed ws w h =
    if_elim (Good w.calls) (not (same_socket w.broker.websocket ws)) _ _ (λ _. h)
      λ _.
        emptied-WellFormed w none none []
          (fail_calls authority_disconnected w.broker.pending w.broker.futures) h refl (omega arith)

-- fewer pending entries, whose futures are those of before
shrunk-WellFormed :
    (key : String) (retired : List (Entry String)) (futures : ℕ → Future) (w : World)
    → WellFormed w
    → length retired ≤ 128
    → All (Waits futures) (remove key w.broker.pending)
    → Good w.calls (record w.broker {
      pending = remove key w.broker.pending;
      retired = retired;
      futures = futures;
    })
shrunk-WellFormed key retired futures w h r v = record {
  few_pending = omega (arith, length-remove key w.broker.pending, h.few_pending);
  few_retired = r;
  ascending = Ascending-remove key 0 w.broker.calls_started w.broker.pending h.ascending;
  waits = v;
  current = All-remove _ key w.broker.pending h.current;
  authority = h.authority;
  holds = All-map _ _ w.calls (λ t k. (k.0, All-remove _ key w.broker.pending k.1)) h.holds;
  accounted = h.accounted;
}

module _ (call_id : String) (generation : Option Value) (result : ToolBrokerResult) where
  resolve-WellFormed :
      (w : World)
      → WellFormed w
      → (o : Option PendingCall) → lookup call_id w.broker.pending ≡ o
      → Leaves w.calls (resolve o call_id generation result w.broker)
  resolve-WellFormed w h none e =
      if_elim (Leaves w.calls) (same_text (lookup call_id w.broker.retired) generation) _ _
        (λ _. popped) λ _. popped
    where
      popped : Good w.calls (record w.broker { retired = remove call_id w.broker.retired })
      popped = record {
        few_pending = h.few_pending;
        few_retired = omega (arith, length-remove call_id w.broker.retired, h.few_retired);
        ascending = h.ascending;
        waits = h.waits;
        current = h.current;
        authority = h.authority;
        holds = h.holds;
        accounted = h.accounted;
      }
  resolve-WellFormed w h (some c) e =
      if_elim (Leaves w.calls) (not (equals_text c.generation generation)) _ _ (λ _. popped)
        λ _.
          if_elim (Leaves w.calls) (not (is_waiting (w.broker.futures c.future))) _ _ (λ _. popped)
            λ _. answered
    where
      remaining : All (Waits w.broker.futures) (remove call_id w.broker.pending)
      remaining = All-remove _ call_id w.broker.pending h.waits

      popped : Good w.calls (record w.broker { pending = remove call_id w.broker.pending })
      popped =
          shrunk-WellFormed call_id w.broker.retired w.broker.futures w h h.few_retired remaining

      answered : Good w.calls (record w.broker {
        pending = remove call_id w.broker.pending;
        futures = settle c.future (resolved result) w.broker.futures;
      })
      answered =
          shrunk-WellFormed call_id w.broker.retired
            (settle c.future (resolved result) w.broker.futures) w h h.few_retired
            (settle-Waits c.future (resolved result) w.broker.futures _
              (removed-apart call_id 0 w.broker.calls_started w.broker.pending c h.ascending e)
              remaining)

module _ (dumped : Value → Option ℕ) where
  take_result-WellFormed :
      (value : Fields) (w : World)
      → WellFormed w
      → (call_id : Option String) (success : Option Bool)
      → Leaves w.calls (take_result dumped value call_id success w.broker)
  take_result-WellFormed value w h none success = h
  take_result-WellFormed value w h (some call_id) none = h
  take_result-WellFormed value w h (some call_id) (some success) =
      if_elim (Leaves w.calls)
        (not (is_generation w.broker.snapshot (get "generation" value))
          || (text_length call_id == 0))
        _ _ (λ _. h) λ _. sized (bounded_json (dumped (value_or_null (get "result" value))) 65536)
    where
      sized :
          (r : Outcome BrokerFault (Unit {0}))
          → Leaves w.calls (elim r as (λ _. Outcome BrokerFault (Unit {0}) × Broker) [
            | raised e ↦ (raised e, w.broker)
            | returned _ ↦
                resolve
                  (lookup call_id w.broker.pending)
                  call_id
                  (get "generation" value)
                  (record { success = success; result = value_or_null (get "result" value) })
                  w.broker
          ])
      sized (raised e) = h
      sized (returned _) = resolve-WellFormed call_id _ _ w h (lookup call_id w.broker.pending) refl

  pub handle_message-WellFormed :
      (ws : ℕ) (value : Fields) (sent : Bool) (w : World)
      → WellFormed w
      → Leaves w.calls (handle_message dumped ws value sent w.broker)
  unfolding handle_message
  handle_message-WellFormed ws value sent w h =
      if_elim (Leaves w.calls) (not (same_socket w.broker.websocket ws)) _ _ (λ _. h)
        λ _.
          if_elim (Leaves w.calls) (equals_text "ping" (get "type" value)) _ _ (λ _. h)
            λ _.
              if_elim (Leaves w.calls) (not (equals_text "tool_result" (get "type" value))) _ _
                (λ _. h)
                λ _.
                  take_result-WellFormed value w h (as_text (get "call_id" value))
                    (is_success (get "success" value))
