-- ===== src/HomeAssistant/Connection.antt =====
-- The handlers of one connection of custom_components/codex_voice/realtime_tools.py, up to their
-- awaits, and its runs. `serialized_size` is the size of a JSON encoding, `none` where it raises;
-- `message_size` is the size of an event with a result.
use ha_codex_voice.Prelude.{
  ℕ, ◌+◌, String, str_eq, Bool, true, false, not, ◌||◌, Option, none, some, List, [], ◌∷◌, leb, ltb,
  length, if◌then◌else◌,
}
use ha_codex_voice.Prelude.Ints.{pos}
use ha_codex_voice.Prelude.Action.{returned, raised}
use ha_codex_voice.Json.{Value, object, Fields, get, equals_int, equals_text, as_object, member}
use ha_codex_voice.HomeAssistant.ToolClient.{
  max_pending_tool_calls, max_calls_per_generation, max_realtime_tool_message_bytes,
  max_realtime_tool_json_bytes, ToolResult, Task, ToolClient, Message, ToolEnd, bounded_string,
  bounded_tool_name, tool_error, tool_timeout, tool_failed, end_connection, fail, shut, add_task,
  find_task, discard, send_result, Event, socket_failed, only_text, event_too_large, not_an_object,
  registered_twice, unsupported_protocol, before_registration, too_many_pending, too_many_calls,
  registration_rejected, unknown_event, disconnected, calling, sending, failed, closing, other,
  text_of, gives, raises, times_out, receives, tool_ends, sends, closes,
}

module _ (serialized_size : Value → Option ℕ) (message_size : ToolResult → ℕ) where
  -- `_async_send_tool_result` up to its lock
  unfoldable pub answer : ToolResult → ToolClient → ToolClient
  answer r c =
      if ltb max_realtime_tool_message_bytes (message_size r)
      then shut c
      else add_task (sending r) c

  abbrev pub refuse : String → String → Fields → ToolClient → ToolClient
  refuse generation id e =
      answer (record { generation = generation; call_id = id; success = false; result = e })

  abbrev pub execute : String → String → Fields → ToolClient → ToolClient
  execute id name args c = add_task (calling id) (record c {
    executions = (record { call_id = id; tool_name = name; tool_args = args }) ∷ c.executions;
  })

  abbrev pub execute_if_small :
      String → String → String → Fields → Option ℕ → ToolClient → ToolClient
  execute_if_small generation id name args none c = shut c
  execute_if_small generation id name args (some size) c =
      if ltb max_realtime_tool_json_bytes size
      then refuse generation id
          (tool_error "invalid_arguments" "Tool arguments exceed the size limit") c
      else if not (member name c.tool_names) || c.closed
      then refuse generation id (tool_error "tool_not_available" "Tool is not available") c
      else execute id name args c

  abbrev pub with_arguments : String → String → String → Option Fields → ToolClient → ToolClient
  with_arguments generation id name none c =
      refuse generation id (tool_error "invalid_arguments" "Tool arguments must be an object") c
  with_arguments generation id name (some args) c =
      execute_if_small generation id name args (serialized_size (object args)) c

  unfoldable pub new_call : String → String → Fields → ToolClient → ToolClient
  new_call generation id event c = elim (bounded_tool_name (get "name" event)) [
    | raised _ ↦ shut c
    | returned name ↦ with_arguments generation id name (as_object (get "arguments" event)) c
  ]

  abbrev pub identified_call : String → Fields → String → ToolClient → ToolClient
  identified_call generation event id c =
      if member id c.seen_call_ids
      then c
      else new_call generation id event (record c { seen_call_ids = id ∷ c.seen_call_ids })

  -- `_async_handle_tool_call` up to its first await
  unfoldable pub handle_tool_call : String → Fields → ToolClient → ToolClient
  handle_tool_call generation event c = elim (bounded_string (get "generation" event) 256) [
    | raised _ ↦ shut c
    | returned g ↦
        if not (str_eq g generation) then c else elim (bounded_string (get "call_id" event) 256) [
          | raised _ ↦ shut c
          | returned id ↦ identified_call generation event id c
        ]
  ]

  abbrev pub on_tool_call : Option String → Fields → ToolClient → ToolClient
  on_tool_call none event c = fail before_registration c
  on_tool_call (some generation) event c =
      if leb max_pending_tool_calls (length c.pending_calls)
      then fail too_many_pending c
      else if leb max_calls_per_generation (length c.seen_call_ids)
      then fail too_many_calls c
      else handle_tool_call generation event c

  abbrev pub on_registered : Option String → Fields → ToolClient → ToolClient
  on_registered (some _) event c = fail registered_twice c
  on_registered none event c =
      if not (equals_int (pos 1) (get "protocol_version" event))
      then fail unsupported_protocol c
      else elim (bounded_string (get "generation" event) 256) [
        | raised e ↦ fail e c
        | returned g ↦ record c { generation = some g; connected = true }
      ]

  unfoldable pub on_event : Fields → ToolClient → ToolClient
  on_event event c =
      let event_type = get "type" event in
      if equals_text "ping" event_type
      then (if c.closed then fail disconnected c else record c { pongs = c.pongs + 1 })
      else if equals_text "pong" event_type
      then c
      else if equals_text "registered" event_type
      then on_registered c.generation event c
      else if equals_text "tool_call" event_type
      then on_tool_call c.generation event c
      else if equals_text "error" event_type
      then fail registration_rejected c
      else fail unknown_event c

  -- A turn of `_async_serve_connection`
  unfoldable pub receive : Message → ToolClient → ToolClient
  receive failed c = fail socket_failed c
  receive closing c = end_connection none c
  receive other c = fail only_text c
  receive (text_of size decoded) c =
      if ltb max_realtime_tool_message_bytes size
      then fail event_too_large c
      else elim (as_object decoded) [ none ↦ fail not_an_object c | some event ↦ on_event event c ]

  abbrev pub fits : Option ℕ → Bool
  fits none = false
  fits (some size) = leb size max_realtime_tool_json_bytes

  -- `_validate_tool_result`; all of its exceptions end alike.
  abbrev pub validated_result : Option Fields → Bool × Fields
  validated_result none = (false, tool_failed)
  validated_result (some result) =
      if fits (serialized_size (object result)) then (true, result) else (false, tool_failed)

  unfoldable pub tool_outcome : ToolEnd → Bool × Fields
  tool_outcome (gives v) = validated_result (as_object (some v))
  tool_outcome raises = (false, tool_failed)
  tool_outcome times_out = (false, tool_timeout)

  abbrev pub answer_open : String → String → Bool × Fields → ToolClient → ToolClient
  answer_open generation id (success, result) c =
      if c.closed
      then c
      else answer
          (record { generation = generation; call_id = id; success = success; result = result }) c

  -- The tool of a task ends; a task exists only with a generation.
  unfoldable pub end_tool : String → Option String → Option Task → ToolEnd → ToolClient → ToolClient
  end_tool id (some generation) (some (calling i)) e c =
      answer_open generation i (tool_outcome e) (discard id c)
  end_tool id _ _ e c = c

  unfoldable pub step : Event → ToolClient → ToolClient
  step (receives m) c = if c.ended then c else receive m c
  step (tool_ends id e) c = end_tool id c.generation (find_task id c.pending_calls) e c
  step (sends id ok) c = send_result id (find_task id c.pending_calls) ok c
  step closes c = shut c

  unfoldable pub run : List Event → ToolClient → ToolClient
  run [] c = c
  run (e ∷ es) c = run es (step e c)
