-- ===== src/HomeAssistant/Calls.antt =====
-- About the start of a tool call in custom_components/codex_voice/realtime_tools.py.
use ha_codex_voice.Prelude.{
  if_elim, ℕ, ◌≤◌, ◌<◌, ◌≡◌, refl, String, str_eq, str_eq_iff, Bool, true, false, not, ◌||◌, Option,
  none, some, ◌∷◌, ltb, length, if◌then◌else◌, arith, sym, subst,
}
use ha_codex_voice.Prelude.Action.{Outcome, returned, raised}
use ha_codex_voice.Json.{Value, Fields, object, get, as_object, member}
use ha_codex_voice.HomeAssistant.ToolClient.{
  ServeFault, ToolResult, calling, sending, ToolClient, bounded_string, bounded_tool_name, shut,
  max_realtime_tool_message_bytes, max_realtime_tool_json_bytes,
}
use ha_codex_voice.HomeAssistant.Connection.{
  answer, execute, execute_if_small, with_arguments, new_call, identified_call, handle_tool_call,
}
use ha_codex_voice.HomeAssistant.Ledger.{
  one_if, answers, executed, IsOnce, IsOwed, shut-IsOnce, one_more, add-IsOnce,
}

module _ (serialized_size : Value → Option ℕ) (message_size : ToolResult → ℕ) where
  pub answer-IsOnce :
      (r : ToolResult) (c : ToolClient)
      → IsOwed r.call_id c
      → IsOnce (answer serialized_size message_size r c)
  unfolding answer
  answer-IsOnce r c h =
      if_elim IsOnce (ltb max_realtime_tool_message_bytes (message_size r)) _ _
        (λ _. shut-IsOnce c h.once) λ _. add-IsOnce (sending r) c h

  pub execute-IsOnce :
      (id name : String) (args : Fields) (c : ToolClient)
      → IsOwed id c
      → executed id c ≡ 0
      → member name c.tool_names ≡ true
      → IsOnce (execute serialized_size message_size id name args c)
  execute-IsOnce id name args c h fresh registered =
      let added = add-IsOnce (calling id) c h in
      record {
        executed_once = λ q.
            one_more q id (executed q c) c.seen_call_ids h.noted
              (λ p. subst (λ i. executed i c ≡ 0) (sym p) fresh) (h.once.executed_once q);
        answered_once = added.answered_once;
        pending = added.pending;
        seen = added.seen;
        known = (registered, h.once.known);
      }

  pub with_arguments-IsOnce :
      (g id name : String) (args : Option Fields) (c : ToolClient)
      → IsOwed id c
      → executed id c ≡ 0
      → IsOnce (with_arguments serialized_size message_size g id name args c)
  with_arguments-IsOnce g id name none c h fresh = answer-IsOnce _ c h
  with_arguments-IsOnce g id name (some args) c h fresh = sized (serialized_size (object args))
    where
      registered : (m closed : Bool) → not m || closed ≡ false → m ≡ true
      registered m closed p = ground (arith, p)

      sized :
          (size : Option ℕ)
          → IsOnce (execute_if_small serialized_size message_size g id name args size c)
      sized none = shut-IsOnce c h.once
      sized (some size) =
          if_elim IsOnce (ltb max_realtime_tool_json_bytes size) _ _ (λ _. answer-IsOnce _ c h)
            λ _.
              if_elim IsOnce (not (member name c.tool_names) || c.closed) _ _
                (λ _. answer-IsOnce _ c h)
                λ p.
                  execute-IsOnce id name args c h fresh
                    (registered (member name c.tool_names) c.closed p)

  pub new_call-IsOnce :
      (g id : String) (event : Fields) (c : ToolClient)
      → IsOwed id c
      → executed id c ≡ 0
      → IsOnce (new_call serialized_size message_size g id event c)
  unfolding new_call
  new_call-IsOnce g id event c h fresh = named (bounded_tool_name (get "name" event))
    where
      named :
          (r : Outcome ServeFault String)
          → IsOnce (elim r [
            | raised _ ↦ shut c
            | returned name ↦
                with_arguments serialized_size message_size g id name
                  (as_object (get "arguments" event))
                  c
          ])
      named (raised e) = shut-IsOnce c h.once
      named (returned name) =
          with_arguments-IsOnce g id name (as_object (get "arguments" event)) c h fresh

  -- A call id that is new, in a connection with room for it.
  pub noted-IsOwed :
      (id : String) (c : ToolClient)
      → IsOnce c
      → length c.pending_calls < 16
      → length c.seen_call_ids < 1024
      → member id c.seen_call_ids ≡ false
      → IsOwed id (record c { seen_call_ids = id ∷ c.seen_call_ids }) × (executed id c ≡ 0)
  unfolding member
  noted-IsOwed id c h room few new = (
    record {
      once = record {
        executed_once = λ q. more q (executed q c) (h.executed_once q);
        answered_once = λ q. more q (answers q c) (h.answered_once q);
        pending = h.pending;
        seen = few;
        known = h.known;
      };
      noted = rw ((str_eq_iff id id).1 refl) refl;
      unanswered = nought (answers id c) (h.answered_once id);
      room = room;
    },
    nought (executed id c) (h.executed_once id),
  )
    where
      nought : (n : ℕ) → n ≤ one_if (member id c.seen_call_ids) → n ≡ 0
      nought n p = omega (arith, (rw new at p))

      more :
          (q : String) (n : ℕ)
          → n ≤ one_if (member q c.seen_call_ids)
          → n ≤ one_if (member q (id ∷ c.seen_call_ids))
      more q n p = ground (arith, p)

  pub handle-IsOnce :
      (g : String) (event : Fields) (c : ToolClient)
      → IsOnce c
      → length c.pending_calls < 16
      → length c.seen_call_ids < 1024
      → IsOnce (handle_tool_call serialized_size message_size g event c)
  unfolding handle_tool_call
  handle-IsOnce g event c h room few = generated (bounded_string (get "generation" event) 256)
    where
      identified :
          (r : Outcome ServeFault String)
          → IsOnce (elim r [
            | raised _ ↦ shut c
            | returned id ↦ identified_call serialized_size message_size g event id c
          ])
      identified (raised e) = shut-IsOnce c h
      identified (returned id) =
          if_elim IsOnce (member id c.seen_call_ids) _ _ (λ _. h)
            λ new.
              let owed = noted-IsOwed id c h room few new in
              new_call-IsOnce g id event _ owed.0 owed.1

      generated :
          (r : Outcome ServeFault String)
          → IsOnce (elim r [
            | raised _ ↦ shut c
            | returned g' ↦
                if not (str_eq g' g) then c else elim (bounded_string (get "call_id" event) 256) [
                  | raised _ ↦ shut c
                  | returned id ↦ identified_call serialized_size message_size g event id c
                ]
          ])
      generated (raised e) = shut-IsOnce c h
      generated (returned g') =
          if_elim IsOnce (not (str_eq g' g)) _ _ (λ _. h)
            λ _. identified (bounded_string (get "call_id" event) 256)
