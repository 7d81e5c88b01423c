-- ===== src/Bridge/ToolBroker/Calls.antt =====
-- About the two halves of `call` of bridge/tool_broker.py and the well-formedness of the broker.
use ha_codex_voice.Prelude.{
  if_elim, ℕ, suc, ◌+◌, ◌<◌, ◌≡◌, refl, String, Bool, true, false, not, ◌||◌, Option, none, some,
  List, [], ◌∷◌, ◌++◌, leb, if◌then◌else◌, length, All, All-map, All-append, length-append, arith,
}
use ha_codex_voice.Prelude.Action.{Outcome, returned, raised}
use ha_codex_voice.Json.{member}
use ha_codex_voice.Bridge.ToolBroker.Dict.{
  Entry, lookup, remove, length-remove, All-remove, insert_fresh, remove-Other,
}
use ha_codex_voice.Bridge.ToolBroker.Broker.{
  Broker, Snapshot, ToolBrokerResult, BrokerFault, Future, dropped, PendingCall, Pending, is_open,
  too_many_pending, bounded_json,
}
use ha_codex_voice.Bridge.ToolBroker.World.{
  Ticket, World, same_generation, create, is_timeout, is_cancellation, Wakeup, start_call, enrolled,
  finish_call, settle_call, count_outcome, call_outcome, completed, is_current,
}
use ha_codex_voice.Bridge.ToolBroker.Entries.{
  Waits, IsOwn, Holds, Ascending-remove, owned-apart, settle_waiting-Waits, length-trim,
  Ascending-snoc, Ascending-below,
}
use ha_codex_voice.Bridge.ToolBroker.Invariant.{WellFormed, Good}

abbrev pub Enters : List Ticket → Outcome BrokerFault Ticket × Broker → Type 0
Enters calls (returned t, b) = Good (calls ++ (t ∷ [])) b
Enters calls (raised e, b) = Good calls b

new_entry : (t : Ticket) (d : Pending) → All (λ e. e.value.future < t.future) d → All (IsOwn t) d
new_entry t [] h = tt
new_entry t (e ∷ d) h = ((λ p. ground (arith, h.0)), new_entry t d h.1)

create-Waits :
    (n : ℕ) (futures : ℕ → Future) (d : Pending)
    → All (λ e. e.value.future < n) d
    → All (Waits futures) d
    → All (Waits (create n futures)) d
create-Waits n futures [] l h = tt
create-Waits n futures (e ∷ d) l h = (ground arith, create-Waits n futures d l.1 h.1)

same_generation-current :
    (o : Option Snapshot) (s : Snapshot)
    → same_generation o s ≡ true
    → is_current o s.generation ≡ true
same_generation-current none s h = h
same_generation-current (some c) s h = h

enrolled-WellFormed :
    (snapshot : Snapshot) (call_id : String) (w : World)
    → WellFormed w
    → lookup call_id w.broker.pending ≡ none
    → same_generation w.broker.snapshot snapshot ≡ true
    → length w.broker.pending < 16
    → Good
        (w.calls
          ++ (record {
            call_id = call_id;
            generation = snapshot.generation;
            future = w.broker.calls_started;
          }
              ∷ []))
        (enrolled call_id snapshot w.broker)
enrolled-WellFormed snapshot call_id w h f g l =
    rw (insert_fresh call_id call w.broker.pending f) record {
      few_pending = omega (arith, length-append w.broker.pending (entry ∷ []), l);
      few_retired = h.few_retired;
      ascending = Ascending-snoc 0 w.broker.calls_started w.broker.pending entry h.ascending refl;
      waits =
          All-append _ w.broker.pending (entry ∷ [])
            (create-Waits w.broker.calls_started w.broker.futures w.broker.pending
              (Ascending-below 0 w.broker.calls_started w.broker.pending h.ascending) h.waits)
            (ground arith, tt);
      current =
          All-append _ w.broker.pending (entry ∷ []) h.current
            (same_generation-current w.broker.snapshot snapshot g, tt);
      authority = h.authority;
      holds =
          All-append _ w.calls _
            (All-map _ _ w.calls
              (λ t k. (
                omega (arith, k.0),
                All-append _ w.broker.pending (entry ∷ []) k.1 ((λ p. ground (arith, k.0)), tt),
              ))
              h.holds)
            (
              (
                omega arith,
                All-append _ w.broker.pending (entry ∷ [])
                    (new_entry ticket w.broker.pending
                      (Ascending-below 0 w.broker.calls_started w.broker.pending h.ascending))
                    ((λ p. refl), tt),
              ),
              tt,
            );
      accounted = omega (arith, length-append w.calls (ticket ∷ []), h.accounted);
    }
  where
    call : PendingCall
    call = record { generation = snapshot.generation; future = w.broker.calls_started }

    entry : Entry PendingCall
    entry = record { key = call_id; value = call }

    ticket : Ticket
    ticket = record {
      call_id = call_id;
      generation = snapshot.generation;
      future = w.broker.calls_started;
    }

pub start_call-WellFormed :
    (closed : ℕ → Bool) (snapshot : Snapshot) (name : String) (size : Option ℕ) (call_id : String)
    (w : World)
    → WellFormed w
    → lookup call_id w.broker.pending ≡ none
    → Enters w.calls (start_call closed snapshot name size call_id w.broker)
unfolding start_call
start_call-WellFormed closed snapshot name size call_id w h f =
    if_elim (Enters w.calls)
      (not (same_generation w.broker.snapshot snapshot) || not (is_open w.broker.websocket closed))
      _ _ (λ _. h)
      λ live.
        if_elim (Enters w.calls) (not (member name snapshot.tool_names)) _ _ (λ _. h)
          λ _. sized (ground (arith, live)) (bounded_json size 65536)
  where
    sized :
        same_generation w.broker.snapshot snapshot ≡ true
        → (r : Outcome BrokerFault (Unit {0}))
        → Enters w.calls (elim r as (λ _. Outcome BrokerFault Ticket × Broker) [
          | raised e ↦ (raised e, w.broker)
          | returned _ ↦
              (if leb 16 (length w.broker.pending) then (raised too_many_pending, w.broker) else (
                returned (record {
                  call_id = call_id;
                  generation = snapshot.generation;
                  future = w.broker.calls_started;
                }),
                enrolled call_id snapshot w.broker,
              ))
        ])
    sized g (raised e) = h
    sized g (returned _) =
        if_elim (Enters w.calls) (leb 16 (length w.broker.pending)) _ _ (λ _. h)
          λ l. enrolled-WellFormed snapshot call_id w h f g (ground (arith, l))

module _ (t : Ticket) (rest : List Ticket) (w : World) (h : WellFormed w)
    (own : All (IsOwn t) w.broker.pending)
    (others : All (Holds w.broker.calls_started w.broker.pending) rest)
    (fewer : length w.calls ≡ suc (length rest)) where
  settle_call-WellFormed :
      (is_completed : Bool) (elapsed_ms : ℕ) (s f d x c : ℕ)
      → s + f + d + x + c
        ≡ suc (
            w.broker.calls_succeeded + w.broker.calls_failed + w.broker.calls_timed_out
            + w.broker.calls_transport_failed + w.broker.calls_cancelled)
      → Good rest (
          settle_call t is_completed elapsed_ms (record w.broker {
            calls_succeeded = s;
            calls_failed = f;
            calls_timed_out = d;
            calls_transport_failed = x;
            calls_cancelled = c;
          }))
  unfolding settle_call
  settle_call-WellFormed is_completed elapsed_ms s f d x c total = record {
    few_pending = omega (arith, length-remove t.call_id w.broker.pending, h.few_pending);
    few_retired = ground (
      arith,
      length-trim (
          remove t.call_id w.broker.retired
          ++ (record { key = t.call_id; value = t.generation } ∷ [])),
      h.few_retired,
    );
    ascending = Ascending-remove t.call_id 0 w.broker.calls_started w.broker.pending h.ascending;
    waits =
        settle_waiting-Waits t.future dropped w.broker.futures _
          (owned-apart t _ (All-remove _ t.call_id w.broker.pending own)
            (remove-Other t.call_id w.broker.pending))
          (All-remove _ t.call_id w.broker.pending h.waits);
    current = All-remove _ t.call_id w.broker.pending h.current;
    authority = h.authority;
    holds = All-map _ _ rest (λ u k. (k.0, All-remove _ t.call_id w.broker.pending k.1)) others;
    accounted = omega (arith, h.accounted, total, fewer);
  }

  pub finish_call-WellFormed :
      (wakeup : Wakeup) (elapsed_ms : ℕ) → Good rest (finish_call t wakeup elapsed_ms w.broker).1
  unfolding finish_call count_outcome
  finish_call-WellFormed wakeup elapsed_ms =
      counted (call_outcome wakeup (w.broker.futures t.future))
    where
      counted :
          (o : Outcome BrokerFault ToolBrokerResult)
          → Good rest (settle_call t (completed o) elapsed_ms (count_outcome o w.broker))
      counted (returned r) =
          if_elim (λ b. Good rest (settle_call t true elapsed_ms b)) r.success _ _
            (λ _. settle_call-WellFormed true elapsed_ms _ _ _ _ _ (omega arith))
            λ _. settle_call-WellFormed true elapsed_ms _ _ _ _ _ (omega arith)
      counted (raised e) =
          if_elim (λ b. Good rest (settle_call t false elapsed_ms b)) (is_timeout e) _ _
            (λ _. settle_call-WellFormed false elapsed_ms _ _ _ _ _ (omega arith))
            λ _.
              if_elim (λ b. Good rest (settle_call t false elapsed_ms b)) (is_cancellation e) _ _
                (λ _. settle_call-WellFormed false elapsed_ms _ _ _ _ _ (omega arith))
                λ _. settle_call-WellFormed false elapsed_ms _ _ _ _ _ (omega arith)
