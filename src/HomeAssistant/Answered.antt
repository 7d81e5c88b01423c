-- ===== src/HomeAssistant/Answered.antt =====
-- About one tool call on a connection of custom_components/codex_voice/realtime_tools.py.
use ha_codex_voice.Prelude.{
  ℕ, ◌≤◌, ◌<◌, ◌≡◌, refl, Bool, none, String, str_eq_iff, true, false, Option, some, List, [], ◌∷◌,
  length, le→ltb, le→leb, lt→leb, arith,
}
use ha_codex_voice.Prelude.Action.{returned}
use ha_codex_voice.Json.{Value, Fields, bool, field, end, object, text, get, as_object, member}
use ha_codex_voice.HomeAssistant.ToolClient.{
  ToolResult, calling, sending, ToolClient, text_of, ToolEnd, gives, raises, times_out,
  bounded_string, bounded_tool_name, without, find_task, send_result, receives, tool_ends, sends,
}
use ha_codex_voice.HomeAssistant.Connection.{
  answer, new_call, handle_tool_call, on_event, receive, tool_outcome, end_tool, step, run,
}

-- A call of a registered tool that is new, within the bounds, on an open connection with room.
pub record IsServable (serialized_size : Value → Option ℕ) (c : ToolClient) (event : Fields)
    (generation id name : String) (args : Fields) (size : ℕ) : Type 0 where
  pub live : c.ended ≡ false
  pub connected : c.closed ≡ false
  pub registered : c.generation ≡ some generation
  pub is_call : get "type" event ≡ some (text "tool_call")
  pub its_generation : bounded_string (get "generation" event) 256 ≡ returned generation
  pub its_id : bounded_string (get "call_id" event) 256 ≡ returned id
  pub its_name : bounded_tool_name (get "name" event) ≡ returned name
  pub its_arguments : as_object (get "arguments" event) ≡ some args
  pub its_size : serialized_size (object args) ≡ some size
  pub small : size ≤ 65536
  pub known : member name c.tool_names ≡ true
  pub new : member id c.seen_call_ids ≡ false
  pub room : length c.pending_calls < 16
  pub few : length c.seen_call_ids < 1023

abbrev pub failed_text : Fields
failed_text =
    field "error" (text "tool_failed")
      (field "error_text" (text "Home Assistant tool call failed") end)

abbrev pub timeout_text : Fields
timeout_text = field "error" (text "tool_timeout") (
    field "error_text" (text "Home Assistant tool call timed out; outcome is unknown; do not retry")
      (field "do_not_retry" (bool true) end))

-- What is sent of how a tool ended: an object that it gave, within 64 KiB, with success; and without
-- success that it timed out, or that it failed, raised, or gave no object, none that is JSON, or one that
-- is too large.
pub data Reports (serialized_size : Value → Option ℕ) : ToolEnd → Bool → Fields → Type 0 where
  gave :
      (v : Fields) (size : ℕ)
      → serialized_size (object v) ≡ some size
      → size ≤ 65536
      → Reports serialized_size (gives (object v)) true v
  late : Reports serialized_size times_out false timeout_text
  broke : Reports serialized_size raises false failed_text
  no_object :
      (v : Value) → as_object (some v) ≡ none → Reports serialized_size (gives v) false failed_text
  no_json :
      (v : Fields)
      → serialized_size (object v) ≡ none
      → Reports serialized_size (gives (object v)) false failed_text
  too_large :
      (v : Fields) (size : ℕ)
      → serialized_size (object v) ≡ some size
      → 65536 < size
      → Reports serialized_size (gives (object v)) false failed_text

tool_outcome-Reports :
    (serialized_size : Value → Option ℕ) (message_size : ToolResult → ℕ) (e : ToolEnd)
    (success : Bool) (result : Fields)
    → Reports serialized_size e success result
    → tool_outcome serialized_size message_size e ≡ (success, result)
unfolding tool_outcome
tool_outcome-Reports s m _ _ _ (gave v size h l) = rw (h, le→leb size 65536 l) refl
tool_outcome-Reports s m _ _ _ late = refl
tool_outcome-Reports s m _ _ _ broke = refl
tool_outcome-Reports s m _ _ _ (no_object v h) = rw h refl
tool_outcome-Reports s m _ _ _ (no_json v h) = rw h refl
tool_outcome-Reports s m _ _ _ (too_large v size h l) = rw (h, lt→leb size 65536 l) refl

member_head : (id : String) (ids : List String) → member id (id ∷ ids) ≡ true
unfolding member
member_head id ids = rw ((str_eq_iff id id).1 refl) refl

module _ (serialized_size : Value → Option ℕ) (message_size : ToolResult → ℕ) (c : ToolClient)
    (event : Fields) (generation id name : String) (args : Fields) (size : ℕ)
    (h : IsServable serialized_size c event generation id name args size) where
  abbrev begun : ToolClient
  begun = record c {
    seen_call_ids = id ∷ c.seen_call_ids;
    executions = (record { call_id = id; tool_name = name; tool_args = args }) ∷ c.executions;
    pending_calls = calling id ∷ c.pending_calls;
  }

  called :
      new_call serialized_size message_size generation id event
        (record c { seen_call_ids = id ∷ c.seen_call_ids })
      ≡ begun
  unfolding new_call
  called =
      rw
        (
          new_call,
          h.its_name,
          h.its_arguments,
          h.its_size,
          le→ltb 65536 size h.small,
          h.known,
          h.connected,
        )
        refl

  handled : handle_tool_call serialized_size message_size generation event c ≡ begun
  unfolding handle_tool_call
  handled =
      rw
        (
          handle_tool_call,
          h.its_generation,
          (str_eq_iff generation generation).1 refl,
          h.its_id,
          h.new,
        )
        called

  -- The event reaches the handler of tool calls.
  reaches :
      (d d' : ToolClient) (n : ℕ)
      → d.ended ≡ false
      → d.generation ≡ some generation
      → length d.pending_calls < 16
      → length d.seen_call_ids < 1024
      → n ≤ 262144
      → handle_tool_call serialized_size message_size generation event d ≡ d'
      → step serialized_size message_size (receives (text_of n (some (object event)))) d ≡ d'
  unfolding step receive on_event
  reaches d d' n live g room few l handles = simp (
    live,
    le→ltb 262144 n l,
    h.is_call,
    g,
    lt→leb 16 (length d.pending_calls) room,
    lt→leb 1024 (length d.seen_call_ids) few,
    handles,
  )

  module _ (success : Bool) (result : Fields) where
    abbrev pub answer_of : ToolResult
    answer_of = record { generation = generation; call_id = id; success = success; result = result }

    -- The connection after a call that is answered.
    abbrev pub served : ToolClient
    served = record c {
      seen_call_ids = id ∷ c.seen_call_ids;
      executions = (record { call_id = id; tool_name = name; tool_args = args }) ∷ c.executions;
      results = answer_of ∷ c.results;
    }

    ended :
        (e : ToolEnd)
        → tool_outcome serialized_size message_size e ≡ (success, result)
        → message_size answer_of ≤ 262144
        → step serialized_size message_size (tool_ends id e) begun
          ≡ record begun { pending_calls = sending answer_of ∷ c.pending_calls }
    unfolding step end_tool find_task without answer
    ended e o l = simp ((str_eq_iff id id).1 refl, h.registered, h.connected, o, le→ltb 262144 _ l)

    delivered :
        step serialized_size message_size
          (sends id true)
          (record begun { pending_calls = sending answer_of ∷ c.pending_calls })
        ≡ served
    unfolding step send_result find_task without
    delivered = simp ((str_eq_iff id id).1 refl, h.connected)

    repeated : handle_tool_call serialized_size message_size generation event served ≡ served
    unfolding handle_tool_call
    repeated =
        rw
          (
            handle_tool_call,
            h.its_generation,
            (str_eq_iff generation generation).1 refl,
            h.its_id,
            member_head id c.seen_call_ids,
          )
          refl

    -- A servable call whose tool ends and whose result can be sent executes the tool once, with its
    -- arguments, and sends one result: with success the object that the tool gave, if that is JSON of at
    -- most 64 KiB, and otherwise without success the text that it timed out or that it failed. The call
    -- leaves no task behind, and the same call again changes nothing.
    pub serve-call :
        (e : ToolEnd) (n : ℕ)
        → Reports serialized_size e success result
        → n ≤ 262144
        → message_size answer_of ≤ 262144
        → let call = receives (text_of n (some (object event))) in
          (run serialized_size message_size (call ∷ tool_ends id e ∷ sends id true ∷ []) c ≡ served)
          × (run serialized_size message_size (call ∷ []) served ≡ served)
    unfolding run
    serve-call e n reports l fits = (
      rw (reaches c begun n h.live h.registered h.room (omega (arith, h.few)) l handled) (
          rw
            (ended e (tool_outcome-Reports serialized_size message_size e success result reports)
              fits)
            delivered),
      reaches served served n h.live h.registered h.room (omega (arith, h.few)) l repeated,
    )
