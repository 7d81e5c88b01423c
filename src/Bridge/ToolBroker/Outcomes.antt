-- ===== src/Bridge/ToolBroker/Outcomes.antt =====
-- About the futures of the calls of bridge/tool_broker.py over the steps of a run.
use ha_codex_voice.Prelude.{
  if_elim, ℕ, ◌<◌, ◌≡◌, refl, String, Bool, false, Option, none, some, List, [], ◌∷◌, arith, ◌∙◌,
  ap,
}
use ha_codex_voice.Prelude.Action.{Outcome, returned, raised}
use ha_codex_voice.Json.{Value, Fields, get, as_text}
use ha_codex_voice.Bridge.ToolBroker.Dict.{lookup}
use ha_codex_voice.Bridge.ToolBroker.Broker.{
  Broker, Snapshot, ToolBrokerResult, BrokerFault, Future, failed, dropped, PendingCall, Pending,
  is_waiting, settle_waiting, register, unregister, handle_message, fail_calls,
  authority_disconnected, authority_changed, value_or_null, resolve, take_result, is_success,
}
use ha_codex_voice.Bridge.ToolBroker.World.{
  Ticket, World, create, woken, started_call, is_timeout, is_cancellation, Event, Wakeup,
  start_call, finish_call, settle_call, count_outcome, call_outcome, split_at, step, registers,
  unregisters, receives, calls_tool, wakes,
}

count_outcome-futures :
    (o : Outcome BrokerFault ToolBrokerResult) (b : Broker)
    → (count_outcome o b).futures ≡ b.futures
unfolding count_outcome
count_outcome-futures (returned r) b =
    if_elim (λ (c : Broker). c.futures ≡ b.futures) r.success _ _ (λ _. refl) λ _. refl
count_outcome-futures (raised e) b =
    if_elim (λ (c : Broker). c.futures ≡ b.futures) (is_timeout e) _ _ (λ _. refl)
      λ _.
        if_elim (λ (c : Broker). c.futures ≡ b.futures) (is_cancellation e) _ _ (λ _. refl)
          λ _. refl

module _ (n : ℕ) where
  -- The future keeps its value, if it is done.
  abbrev Keeps : (ℕ → Future) → (ℕ → Future) → Type 0
  Keeps old new = is_waiting (old n) ≡ false → new n ≡ old n

  settle_waiting-Keeps :
      (m : ℕ) (f : Future) (futures : ℕ → Future) → Keeps futures (settle_waiting m f futures)
  settle_waiting-Keeps m f futures h = ground arith

  pub fail_calls-Keeps :
      (e : BrokerFault) (d : Pending) (futures : ℕ → Future)
      → Keeps futures (fail_calls e d futures)
  unfolding fail_calls
  fail_calls-Keeps e [] futures h = refl
  fail_calls-Keeps e (c ∷ cs) futures h =
      let k = settle_waiting-Keeps c.value.future (failed e) futures h in
      fail_calls-Keeps e cs (settle_waiting c.value.future (failed e) futures) (ground arith) ∙ k

  create-Keeps : (m : ℕ) (futures : ℕ → Future) → n < m → Keeps futures (create m futures)
  create-Keeps m futures l h = ground arith

  resolve-Keeps :
      (o : Option PendingCall) (call_id : String) (generation : Option Value)
      (result : ToolBrokerResult) (b : Broker)
      → Keeps b.futures (resolve o call_id generation result b).1.futures
  resolve-Keeps none call_id generation result b h = ground arith
  resolve-Keeps (some c) call_id generation result b h = ground arith

  take_result-Keeps :
      (dumped : Value → Option ℕ) (value : Fields) (b : Broker)
      → is_waiting (b.futures n) ≡ false
      → (call_id : Option String) (success : Option Bool)
      → (take_result dumped value call_id success b).1.futures n ≡ b.futures n
  take_result-Keeps dumped value b h none success = refl
  take_result-Keeps dumped value b h (some call_id) none = refl
  take_result-Keeps dumped value b h (some call_id) (some success) = ground (
    arith,
    resolve-Keeps (lookup call_id b.pending) call_id (get "generation" value)
        (record { success = success; result = value_or_null (get "result" value) }) b h,
  )

  handle_message-Keeps :
      (dumped : Value → Option ℕ) (ws : ℕ) (value : Fields) (sent : Bool) (b : Broker)
      → Keeps b.futures (handle_message dumped ws value sent b).1.futures
  unfolding handle_message
  handle_message-Keeps dumped ws value sent b h = ground (
    arith,
    take_result-Keeps dumped value b h (as_text (get "call_id" value))
        (is_success (get "success" value)),
  )

  register-Keeps :
      (closed : ℕ → Bool) (ws : ℕ) (snapshot : Outcome BrokerFault Snapshot) (generation : String)
      (sent : Bool) (b : Broker)
      → Keeps b.futures (register closed ws snapshot generation sent b).1.futures
  unfolding register
  register-Keeps closed ws snapshot generation sent b h =
      ground (arith, fail_calls-Keeps authority_changed b.pending b.futures h)

  unregister-Keeps : (ws : ℕ) (b : Broker) → Keeps b.futures (unregister ws b).futures
  unfolding unregister
  unregister-Keeps ws b h =
      ground (arith, fail_calls-Keeps authority_disconnected b.pending b.futures h)

  start_call-Keeps :
      (closed : ℕ → Bool) (snapshot : Snapshot) (name : String) (size : Option ℕ) (call_id : String)
      (b : Broker)
      → n < b.calls_started
      → Keeps b.futures (start_call closed snapshot name size call_id b).1.futures
  unfolding start_call
  start_call-Keeps closed snapshot name size call_id b l h = ground arith

  finish_call-Keeps :
      (t : Ticket) (wakeup : Wakeup) (elapsed_ms : ℕ) (b : Broker)
      → Keeps b.futures (finish_call t wakeup elapsed_ms b).1.futures
  unfolding finish_call settle_call
  finish_call-Keeps t wakeup elapsed_ms b h =
      ap (λ futures. settle_waiting t.future dropped futures n)
        (count_outcome-futures (call_outcome wakeup (b.futures t.future)) b)
      ∙ settle_waiting-Keeps t.future dropped b.futures h

  woken-Keeps :
      (o : Option (Ticket × List Ticket)) (wakeup : Wakeup) (elapsed_ms : ℕ) (w : World)
      → Keeps w.broker.futures (woken o wakeup elapsed_ms w).broker.futures
  woken-Keeps none wakeup elapsed_ms w h = refl
  woken-Keeps (some (t, rest)) wakeup elapsed_ms w h =
      ground (arith, finish_call-Keeps t wakeup elapsed_ms w.broker h)

  started_call-Keeps :
      (r : Outcome BrokerFault Ticket) (b : Broker) (w : World)
      → Keeps w.broker.futures b.futures
      → Keeps w.broker.futures (started_call (r, b) w).broker.futures
  started_call-Keeps (returned t) b w k = k
  started_call-Keeps (raised e) b w k = k

  -- Once the future of a started call is done, nothing that happens changes it: no later result, no
  -- disconnection, no new authority, no new call, no wakeup.
  pub step-Keeps :
      (dumped : Value → Option ℕ) (e : Event) (w : World)
      → n < w.broker.calls_started
      → is_waiting (w.broker.futures n) ≡ false
      → (step dumped e w).broker.futures n ≡ w.broker.futures n
  unfolding step
  step-Keeps dumped (registers closed ws snapshot generation sent) w l =
      register-Keeps closed ws snapshot generation sent w.broker
  step-Keeps dumped (unregisters ws) w l = unregister-Keeps ws w.broker
  step-Keeps dumped (receives ws value sent) w l =
      handle_message-Keeps dumped ws value sent w.broker
  step-Keeps dumped (calls_tool closed snapshot name size call_id) w l =
      started_call-Keeps (start_call closed snapshot name size call_id w.broker).0
        (start_call closed snapshot name size call_id w.broker).1 w
        (start_call-Keeps closed snapshot name size call_id w.broker l)
  step-Keeps dumped (wakes m wakeup elapsed_ms) w l =
      woken-Keeps (split_at m w.calls) wakeup elapsed_ms w
