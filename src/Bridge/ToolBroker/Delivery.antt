-- ===== src/Bridge/ToolBroker/Delivery.antt =====
-- About the delivery of a result, a late result, and the loss of the authority, in
-- bridge/tool_broker.py.
use ha_codex_voice.Prelude.{
  ℕ, ◌≤◌, ◌≡◌, refl, String, Bool, true, false, Option, none, some, List, [], ◌∷◌, ◌++◌, ◌==◌,
  str_eq, str_eq_iff, arith, sym,
}
use ha_codex_voice.Prelude.Action.{returned, raised}
use ha_codex_voice.Json.{text, bool, field, end, Value, Fields, get, text_length}
use ha_codex_voice.Bridge.ToolBroker.Dict.{Entry, lookup, remove, lookup-remove}
use ha_codex_voice.Bridge.ToolBroker.Broker.{
  Broker, Snapshot, BrokerFault, Future, waiting, resolved, failed, PendingCall, Pending, settle,
  settle_waiting, unregister, handle_message, fail_calls, authority_disconnected, unknown_result,
  call_timed_out, same_socket, is_generation,
}
use ha_codex_voice.Bridge.ToolBroker.World.{
  Ticket, answered, deadline, finish_call, settle_call, count_outcome, call_outcome, trim,
  is_current,
}
use ha_codex_voice.Bridge.ToolBroker.Outcomes.{fail_calls-Keeps}

-- The message with which Home Assistant answers a call.
abbrev pub tool_result : String → String → Bool → Value → Fields
tool_result generation call_id success result = field "type" (text "tool_result") (
    field "generation" (text generation)
      (field "call_id" (text call_id) (field "success" (bool success) (field "result" result end))))

-- The call of the ticket still waits for its result, under the present authority.
pub record IsPending (t : Ticket) (b : Broker) : Type 0 where
  pub entry :
      lookup t.call_id b.pending ≡ some (record { generation = t.generation; future = t.future })
  pub authority : is_current b.snapshot t.generation ≡ true
  pub unsettled : b.futures t.future ≡ waiting
  pub named : (text_length t.call_id == 0) ≡ false

str_eq_refl : (s : String) → str_eq s s ≡ true
str_eq_refl s = (str_eq_iff s s).1 refl

is_current-is_generation :
    (o : Option Snapshot) (generation : String)
    → is_current o generation ≡ true
    → is_generation o (some (text generation)) ≡ true
is_current-is_generation none generation h = h
is_current-is_generation (some s) generation h =
    (str_eq_iff generation s.generation).1 (sym ((str_eq_iff s.generation generation).0 h))

module _ (dumped : Value → Option ℕ) (ws : ℕ) (sent : Bool) (t : Ticket) (success : Bool)
    (result : Value) (size : ℕ) (fits : dumped result ≡ some size) (small : size ≤ 65536) where
  abbrev answer : Fields
  answer = tool_result t.generation t.call_id success result

  abbrev delivered : Broker → Broker
  delivered b = record b {
    pending = remove t.call_id b.pending;
    futures = settle t.future (resolved (record { success = success; result = result })) b.futures;
  }

  accepted :
      (b : Broker)
      → same_socket b.websocket ws ≡ true
      → IsPending t b
      → handle_message dumped ws answer sent b ≡ (returned tt, delivered b)
  unfolding handle_message get
  accepted b s h = ground (
    arith,
    is_current-is_generation b.snapshot t.generation h.authority,
    str_eq_refl t.generation,
  )

  delivered-answered :
      (b : Broker) (elapsed_ms : ℕ)
      → IsPending t b
      → (finish_call t answered elapsed_ms (delivered b)).0
        ≡ returned (record { success = success; result = result })
  unfolding finish_call call_outcome
  delivered-answered b elapsed_ms h = ground (arith, h.unsettled)

  -- without an entry, an answer is an error unless the call was retired
  refused :
      (b : Broker)
      → same_socket b.websocket ws ≡ true
      → is_current b.snapshot t.generation ≡ true
      → (text_length t.call_id == 0) ≡ false
      → lookup t.call_id b.pending ≡ none
      → lookup t.call_id b.retired ≡ none
      → (handle_message dumped ws answer sent b).0 ≡ raised unknown_result
  unfolding handle_message get
  refused b s c n p r =
      ground (arith, is_current-is_generation b.snapshot t.generation c, str_eq_refl t.generation)

  -- A result that the connected authority sends for a call that waits, and whose encoding is within
  -- the bound, is accepted, is what the call returns when it wakes, and is accepted once: where no
  -- retired call has the id, the same message again is a protocol error.
  pub answer-delivered_once :
      (b : Broker) (elapsed_ms : ℕ)
      → same_socket b.websocket ws ≡ true
      → IsPending t b
      → lookup t.call_id b.retired ≡ none
      → let (r, b') = handle_message dumped ws answer sent b in
        (r ≡ returned tt)
        × ((finish_call t answered elapsed_ms b').0
            ≡ returned (record { success = success; result = result }))
        × ((handle_message dumped ws answer sent b').0 ≡ raised unknown_result)
  answer-delivered_once b elapsed_ms s h r = rw (accepted b s h) (
    refl,
    delivered-answered b elapsed_ms h,
    refused (delivered b) s h.authority h.named (lookup-remove t.call_id b.pending) r,
  )

lookup-snoc :
    (key : String) (d : List (Entry String)) (e : Entry String)
    → lookup key d ≡ none
    → str_eq e.key key ≡ true
    → lookup key (d ++ (e ∷ [])) ≡ some e.value
lookup-snoc key [] e n k = ground arith
lookup-snoc key (x ∷ d) e n k = ground (arith, lookup-snoc key d e)

-- trimming drops the oldest, never the last
lookup-trim :
    (key : String) (d : List (Entry String)) (e : Entry String)
    → lookup key d ≡ none
    → str_eq e.key key ≡ true
    → lookup key (trim (d ++ (e ∷ []))) ≡ some e.value
unfolding trim
lookup-trim key [] e n k = ground arith
lookup-trim key (x ∷ d) e n k = ground (arith, lookup-trim key d e, lookup-snoc key d e)

-- the loop fails every waiting future it meets
fail_calls_lem :
    (e : BrokerFault) (key : String) (d : Pending) (c : PendingCall) (futures : ℕ → Future)
    → lookup key d ≡ some c
    → futures c.future ≡ waiting
    → fail_calls e d futures c.future ≡ failed e
unfolding fail_calls
fail_calls_lem e key [] c futures h k = ground arith
fail_calls_lem e key (x ∷ d) c futures h k =
    let later = settle_waiting x.value.future (failed e) futures in
    ground (arith, fail_calls_lem e key d c later, fail_calls-Keeps c.future e d later)

-- When the connected authority disconnects, a call that waits under it fails, when it wakes, with
-- the error of a disconnection.
pub unregister-fails_pending :
    (ws : ℕ) (b : Broker) (t : Ticket) (elapsed_ms : ℕ)
    → same_socket b.websocket ws ≡ true
    → IsPending t b
    → (finish_call t answered elapsed_ms (unregister ws b)).0 ≡ raised authority_disconnected
unfolding unregister finish_call call_outcome
unregister-fails_pending ws b t elapsed_ms s h = ground (
  arith,
  fail_calls_lem authority_disconnected t.call_id b.pending
      (record { generation = t.generation; future = t.future }) b.futures h.entry h.unsettled,
)

module _ (dumped : Value → Option ℕ) (ws : ℕ) (sent : Bool) (t : Ticket) (success : Bool)
    (result : Value) (size : ℕ) (fits : dumped result ≡ some size) (small : size ≤ 65536) where
  -- the answer to a retired call
  dropped_answer :
      (b : Broker)
      → same_socket b.websocket ws ≡ true
      → is_current b.snapshot t.generation ≡ true
      → (text_length t.call_id == 0) ≡ false
      → lookup t.call_id b.pending ≡ none
      → lookup t.call_id b.retired ≡ some t.generation
      → handle_message dumped ws (tool_result t.generation t.call_id success result) sent b
        ≡ (returned tt, record b { retired = remove t.call_id b.retired })
  unfolding handle_message get
  dropped_answer b s c n p r =
      ground (arith, is_current-is_generation b.snapshot t.generation c, str_eq_refl t.generation)

  settled :
      (b : Broker) (elapsed_ms : ℕ)
      → same_socket b.websocket ws ≡ true
      → IsPending t b
      → let b' = settle_call t false elapsed_ms (count_outcome (raised call_timed_out) b) in
        (same_socket b'.websocket ws ≡ true)
        × (is_current b'.snapshot t.generation ≡ true)
        × (lookup t.call_id b'.pending ≡ none)
        × (lookup t.call_id b'.retired ≡ some t.generation)
  unfolding settle_call count_outcome
  settled b elapsed_ms s h = (
    s,
    h.authority,
    lookup-remove t.call_id b.pending,
    ground (
      arith,
      h.authority,
      lookup-trim t.call_id (remove t.call_id b.retired)
          (record { key = t.call_id; value = t.generation }) (lookup-remove t.call_id b.retired)
          (str_eq_refl t.call_id),
    ),
  )

  -- A call that waits under the present authority and runs into its deadline is retired: the answer
  -- that comes too late, within the size bound, is taken without an error and settles nothing, and a
  -- second one is a protocol error.
  pub late_answer-dropped :
      (b : Broker) (elapsed_ms : ℕ)
      → same_socket b.websocket ws ≡ true
      → IsPending t b
      → let (r, b') = finish_call t deadline elapsed_ms b in
        let (r', b'') =
          handle_message dumped ws (tool_result t.generation t.call_id success result) sent b' in
        (r ≡ raised call_timed_out)
        × (r' ≡ returned tt)
        × (b''.futures ≡ b'.futures)
        × ((handle_message dumped ws (tool_result t.generation t.call_id success result) sent b'').0
            ≡ raised unknown_result)
  unfolding finish_call call_outcome
  late_answer-dropped b elapsed_ms s h =
      let b' = settle_call t false elapsed_ms (count_outcome (raised call_timed_out) b) in
      let b'' = record b' { retired = remove t.call_id b'.retired } in
      let (s', c, p, r) = settled b elapsed_ms s h in
      rw (dropped_answer b' s' c h.named p r) (
        refl,
        refl,
        refl,
        refused dumped ws sent t success result size fits small b'' s' c h.named p
            (lookup-remove t.call_id b'.retired),
      )
