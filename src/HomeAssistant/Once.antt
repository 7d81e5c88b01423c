-- ===== src/HomeAssistant/Once.antt =====
-- About the runs of one connection of custom_components/codex_voice/realtime_tools.py: what a call id
-- can lead to, and how much is pending.
use ha_codex_voice.Prelude.{
  if_elim, ℕ, ◌≡◌, refl, String, true, not, Option, none, some, List, [], ◌∷◌, leb, ltb, length,
  arith,
}
use ha_codex_voice.Prelude.Ints.{pos}
use ha_codex_voice.Prelude.Action.{Outcome, returned, raised}
use ha_codex_voice.Json.{Value, Fields, get, equals_int, equals_text, as_object, member}
use ha_codex_voice.HomeAssistant.ToolClient.{
  ServeFault, not_an_object, ToolResult, Task, calling, sending, ToolClient, new_client, Message,
  failed, closing, other, text_of, ToolEnd, bounded_string, end_connection, find_task, discard,
  Event, receives, tool_ends, sends, closes, max_realtime_tool_message_bytes,
}
use ha_codex_voice.HomeAssistant.Connection.{
  on_tool_call, on_registered, on_event, receive, end_tool, step, run,
}
use ha_codex_voice.HomeAssistant.Ledger.{
  IsOnce, shut-IsOnce, end-IsOnce, discard-IsOwed, send-IsOnce,
}
use ha_codex_voice.HomeAssistant.Calls.{answer-IsOnce, handle-IsOnce}

module _ (serialized_size : Value → Option ℕ) (message_size : ToolResult → ℕ) where
  end_tool-IsOnce :
      (id : String) (g : Option String) (found : Option Task) (e : ToolEnd) (c : ToolClient)
      → find_task id c.pending_calls ≡ found
      → IsOnce c
      → IsOnce (end_tool serialized_size message_size id g found e c)
  unfolding end_tool
  end_tool-IsOnce id none found e c f h = h
  end_tool-IsOnce id (some g) none e c f h = h
  end_tool-IsOnce id (some g) (some (sending r)) e c f h = h
  end_tool-IsOnce id (some g) (some (calling i)) e c f h =
      let owed = discard-IsOwed id (calling i) c f h in
      if_elim IsOnce c.closed _ _ (λ _. owed.once)
        λ _. answer-IsOnce serialized_size message_size _ (discard id c) owed

  on_tool_call-IsOnce :
      (g : Option String) (event : Fields) (c : ToolClient)
      → IsOnce c
      → IsOnce (on_tool_call serialized_size message_size g event c)
  on_tool_call-IsOnce none event c h = end-IsOnce _ c h
  on_tool_call-IsOnce (some g) event c h =
      if_elim IsOnce (leb 16 (length c.pending_calls)) _ _ (λ _. end-IsOnce _ c h)
        λ room.
          if_elim IsOnce (leb 1024 (length c.seen_call_ids)) _ _ (λ _. end-IsOnce _ c h)
            λ few.
              handle-IsOnce serialized_size message_size g event c h (ground (arith, room))
                (ground (arith, few))

  on_registered-IsOnce :
      (g : Option String) (event : Fields) (c : ToolClient)
      → IsOnce c
      → IsOnce (on_registered serialized_size message_size g event c)
  on_registered-IsOnce (some g) event c h = end-IsOnce _ c h
  on_registered-IsOnce none event c h =
      if_elim IsOnce (not (equals_int (pos 1) (get "protocol_version" event))) _ _
        (λ _. end-IsOnce _ c h) λ _. registered (bounded_string (get "generation" event) 256)
    where
      registered :
          (r : Outcome ServeFault String)
          → IsOnce (elim r [
            | raised e ↦ end_connection (some e) c
            | returned g ↦ record c { generation = some g; connected = true }
          ])
      registered (raised e) = end-IsOnce _ c h
      registered (returned g) = record {
        executed_once = h.executed_once;
        answered_once = h.answered_once;
        pending = h.pending;
        seen = h.seen;
        known = h.known;
      }

  on_event-IsOnce :
      (event : Fields) (c : ToolClient)
      → IsOnce c
      → IsOnce (on_event serialized_size message_size event c)
  unfolding on_event
  on_event-IsOnce event c h =
      if_elim IsOnce (equals_text "ping" (get "type" event)) _ _
        (λ _.
          if_elim IsOnce c.closed _ _ (λ _. end-IsOnce _ c h)
            λ _. record {
              executed_once = h.executed_once;
              answered_once = h.answered_once;
              pending = h.pending;
              seen = h.seen;
              known = h.known;
            })
        λ _.
          if_elim IsOnce (equals_text "pong" (get "type" event)) _ _ (λ _. h)
            λ _.
              if_elim IsOnce (equals_text "registered" (get "type" event)) _ _
                (λ _. on_registered-IsOnce c.generation event c h)
                λ _.
                  if_elim IsOnce (equals_text "tool_call" (get "type" event)) _ _
                    (λ _. on_tool_call-IsOnce c.generation event c h)
                    λ _.
                      if_elim IsOnce (equals_text "error" (get "type" event)) _ _
                        (λ _. end-IsOnce _ c h) λ _. end-IsOnce _ c h

  receive-IsOnce :
      (m : Message) (c : ToolClient) → IsOnce c → IsOnce (receive serialized_size message_size m c)
  unfolding receive
  receive-IsOnce failed c h = end-IsOnce _ c h
  receive-IsOnce closing c h = end-IsOnce _ c h
  receive-IsOnce other c h = end-IsOnce _ c h
  receive-IsOnce (text_of size decoded) c h =
      if_elim IsOnce (ltb max_realtime_tool_message_bytes size) _ _ (λ _. end-IsOnce _ c h)
        λ _. read (as_object decoded)
    where
      read :
          (o : Option Fields)
          → IsOnce (elim o [
            | none ↦ end_connection (some not_an_object) c
            | some event ↦ on_event serialized_size message_size event c
          ])
      read none = end-IsOnce _ c h
      read (some event) = on_event-IsOnce event c h

  step-IsOnce :
      (e : Event) (c : ToolClient) → IsOnce c → IsOnce (step serialized_size message_size e c)
  unfolding step
  step-IsOnce (receives m) c h = if_elim IsOnce c.ended _ _ (λ _. h) λ _. receive-IsOnce m c h
  step-IsOnce (tool_ends id e) c h =
      end_tool-IsOnce id c.generation (find_task id c.pending_calls) e c refl h
  step-IsOnce (sends id ok) c h = send-IsOnce id (find_task id c.pending_calls) ok c refl h
  step-IsOnce closes c h = shut-IsOnce c h

  keep-IsOnce :
      (es : List Event) (c : ToolClient) → IsOnce c → IsOnce (run serialized_size message_size es c)
  unfolding run
  keep-IsOnce [] c h = h
  keep-IsOnce (e ∷ es) c h =
      keep-IsOnce es (step serialized_size message_size e c) (step-IsOnce e c h)

  -- In every run of a connection, whatever the bridge sends, the tools give and the socket does, a call
  -- id is executed at most once and leads to at most one result, each only after it was seen; what is
  -- executed is a tool of the snapshot; at most 16 tasks are pending and at most 1024 ids are seen.
  pub run-new_client-IsOnce :
      (es : List Event) (tool_names : List String)
      → IsOnce (run serialized_size message_size es (new_client tool_names))
  unfolding new_client member
  run-new_client-IsOnce es tool_names = keep-IsOnce es (new_client tool_names) record {
    executed_once = λ q. omega arith;
    answered_once = λ q. omega arith;
    pending = omega arith;
    seen = omega arith;
    known = tt;
  }
