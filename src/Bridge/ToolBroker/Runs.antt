-- ===== src/Bridge/ToolBroker/Runs.antt =====
-- About the runs of the broker of bridge/tool_broker.py.
use ha_codex_voice.Prelude.{
  if_elim, ℕ, zero, suc, ◌≡◌, refl, Option, none, some, List, [], ◌∷◌, length, All, arith, ap,
}
use ha_codex_voice.Prelude.Action.{Outcome, returned, raised}
use ha_codex_voice.Json.{Value}
use ha_codex_voice.Bridge.ToolBroker.Broker.{Broker, broker, BrokerFault}
use ha_codex_voice.Bridge.ToolBroker.World.{
  Ticket, World, woken, is_enabled, started_call, Event, Wakeup, split_at, step, run, registers,
  unregisters, receives, calls_tool, wakes,
}
use ha_codex_voice.Bridge.ToolBroker.Entries.{Holds}
use ha_codex_voice.Bridge.ToolBroker.Invariant.{
  WellFormed, IsFresh, register-WellFormed, unregister-WellFormed, handle_message-WellFormed,
}
use ha_codex_voice.Bridge.ToolBroker.Calls.{Enters, start_call-WellFormed, finish_call-WellFormed}

module _ (P : Ticket → Type 0) where
  -- all of the list has P, and so have the one taken and the rest
  abbrev Splits : List Ticket → Option (Ticket × List Ticket) → Type 0
  Splits ts none = Unit
  Splits ts (some (t, rest)) = P t × All P rest × (length ts ≡ suc (length rest))

  split_at-Splits : (n : ℕ) (ts : List Ticket) → All P ts → Splits ts (split_at n ts)
  split_at-Splits n [] h = tt
  split_at-Splits zero (u ∷ us) h = (h.0, h.1, refl)
  split_at-Splits (suc n) (u ∷ us) h = go (split_at n us) (split_at-Splits n us h.1)
    where
      go :
          (o : Option (Ticket × List Ticket))
          → Splits us o
          → Splits (u ∷ us) (elim o as (λ _. Option (Ticket × List Ticket)) [
            | none ↦ none
            | some (v, vs) ↦ some (v, u ∷ vs)
          ])
      go none k = tt
      go (some (v, vs)) k = (k.0, (h.0, k.1), ap suc k.2)

woken-WellFormed :
    (wakeup : Wakeup) (elapsed_ms : ℕ) (w : World)
    → WellFormed w
    → (o : Option (Ticket × List Ticket))
    → Splits (Holds w.broker.calls_started w.broker.pending) w.calls o
    → WellFormed (woken o wakeup elapsed_ms w)
woken-WellFormed wakeup elapsed_ms w h none e = h
woken-WellFormed wakeup elapsed_ms w h (some (t, rest)) e =
    if_elim WellFormed (is_enabled wakeup (w.broker.futures t.future)) _ _
      (λ _. finish_call-WellFormed t rest w h e.0.1 e.1 e.2 wakeup elapsed_ms) λ _. h

started_call-WellFormed :
    (r : Outcome BrokerFault Ticket) (b : Broker) (w : World)
    → Enters w.calls (r, b)
    → WellFormed (started_call (r, b) w)
started_call-WellFormed (returned t) b w h = h
started_call-WellFormed (raised e) b w h = h

abbrev pub new_world : World
new_world = record { broker = broker; calls = [] }

module _ (dumped : Value → Option ℕ) where
  step-WellFormed :
      (e : Event) (w : World) → IsFresh e w → WellFormed w → WellFormed (step dumped e w)
  unfolding step
  step-WellFormed (registers closed ws snapshot generation sent) w f h =
      register-WellFormed closed ws snapshot generation sent w h
  step-WellFormed (unregisters ws) w f h = unregister-WellFormed ws w h
  step-WellFormed (receives ws value sent) w f h =
      handle_message-WellFormed dumped ws value sent w h
  step-WellFormed (calls_tool closed snapshot name size call_id) w f h =
      started_call-WellFormed _ _ w (start_call-WellFormed closed snapshot name size call_id w h f)
  step-WellFormed (wakes n wakeup elapsed_ms) w f h =
      woken-WellFormed wakeup elapsed_ms w h (split_at n w.calls)
        (split_at-Splits _ n w.calls h.holds)

  -- Each call of a run draws a new token.
  unfoldable pub AllFresh : List Event → World → Type 0
  AllFresh [] w = Unit
  AllFresh (e ∷ es) w = IsFresh e w × AllFresh es (step dumped e w)

  run-WellFormed :
      (es : List Event) (w : World) → AllFresh es w → WellFormed w → WellFormed (run dumped es w)
  unfolding run AllFresh
  run-WellFormed [] w f h = h
  run-WellFormed (e ∷ es) w f h = run-WellFormed es _ f.1 (step-WellFormed e w f.0 h)

  -- In every run of a new broker, with any interleaving of registrations, disconnections, messages,
  -- calls and wakeups whose tokens are new, and with sockets that close at any time: at most 16 calls are pending and 128 retired, each pending
  -- entry belongs to the present authority and has a future of its own that still waits, and the
  -- counters account for every call that started and is not suspended any more.
  pub run_new_broker-WellFormed :
      (es : List Event) → AllFresh es new_world → WellFormed (run dumped es new_world)
  run_new_broker-WellFormed es f = run-WellFormed es new_world f (record {
    few_pending = omega arith;
    few_retired = omega arith;
    ascending = omega arith;
    waits = tt;
    current = tt;
    authority = refl;
    holds = tt;
    accounted = refl;
  })
