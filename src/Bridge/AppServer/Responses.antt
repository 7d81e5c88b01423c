-- ===== src/Bridge/AppServer/Responses.antt =====
-- The answers to requests of the app-server, `_respond`, `_handle_server_request` and the timeout
-- of bridge/app_server.py, cut at their awaits: a response enters, gets the lock of its state, and
-- its write ends.
use Prim.Native.String.{◌++◌ as concat}
use ha_codex_voice.Prelude.{
  ℕ, suc, ◌+◌, String, Bool, true, false, not, ◌&&◌, ◌||◌, Option, none, some, is_some, List, [],
  ◌∷◌, ◌++◌, ltb, ◌==◌, str_eq, if◌then◌else◌, length,
}
use ha_codex_voice.Prelude.Action.{Outcome, returned, raised}
use ha_codex_voice.Prelude.Ints.{ℤ, negsuc}
use ha_codex_voice.Json.{
  Value, null, bool, int, text, array, object, nil, cons, Fields, end, field, get, as_text, member,
}
use ha_codex_voice.Bridge.AppServer.Table.{Key, key_of, Item, lookup, remove, insert}
use ha_codex_voice.Bridge.AppServer.Client.{
  AppServer, Fault, exited, unhashable, new_cell, Timer, no_timer, sleeping, ended, Line, update,
  pending_id, on_response, broadcast, delivered,
}

-- A suspended `_respond`. `cell`: the state it goes through, if any; `fallback`: it is the timeout's.
pub record Responder : Type 0 where
  pub key : Key
  pub message : Fields
  pub cell : Option ℕ
  pub fallback : Bool
  pub writing : Bool

-- `_respond` up to its first await: `none`, if it returns at once.
unfoldable pub respond :
    Key → Fields → Option ℕ → Bool → AppServer → Outcome Fault (Option Responder)
respond key message (some c) fallback s = returned (
    some (record {
      key = key;
      message = message;
      cell = some c;
      fallback = fallback;
      writing = false;
    }))
respond key message none fallback s =
    if is_some (lookup key s.retired)
    then returned none
    else if not s.alive
    then raised exited
    else returned (
        some (record {
          key = key;
          message = message;
          cell = none;
          fallback = fallback;
          writing = true;
        }))

-- `state or self._server_response_states.get(request_id)`, for `respond_result` and `respond_error`
unfoldable pub respond_result : Key → Fields → AppServer → Outcome Fault (Option Responder)
respond_result key message s = respond key message (lookup key s.states) false s

abbrev pub is_cell : Option ℕ → ℕ → Bool
is_cell none c = false
is_cell (some d) c = d == c

-- From the lock of the state to the await of `_write`.
unfoldable pub acquire : ℕ → Responder → AppServer → Outcome Fault (Option Responder) × AppServer
acquire c r s =
    if (s.cells c).written || not (is_cell (lookup r.key s.states) c)
    then (returned none, s)
    else if not s.alive
    then (raised exited, s)
    else (
      returned (some (record r { writing = true })),
      record s { cells = update c (record (s.cells c) { locked = true }) s.cells },
    )

-- How a write ends: completed, or with an exception, with or without bytes in stdin's buffer.
pub data Written : Type 0 where
  drained : Written
  broken : Bool → Written

-- `_retire_server_response_id`
unfoldable pub trim : List (Item (Unit {0})) → List (Item (Unit {0}))
trim [] = []
trim (e ∷ d) = if ltb 1024 (suc (length d)) then d else e ∷ d

unfoldable pub retire : Key → List (Item (Unit {0})) → List (Item (Unit {0}))
retire key d = trim (remove key d ++ (record { key = key; value = tt } ∷ []))

abbrev pub line : Responder → Bool → Line
line r whole = record { cell = r.cell; message = r.message; drained = whole }

-- After a completed write through a state, up to the release of its lock.
unfoldable pub commit : ℕ → Responder → AppServer → AppServer
commit c r s =
    let s' = record s {
      lines = s.lines ++ (line r true ∷ []);
      cells = update c (record (s.cells c) { written = true; locked = false }) s.cells;
    } in
    if is_cell (lookup r.key s.states) c
    then record s' { states = remove r.key s.states; retired = retire r.key s.retired }
    else s'

-- `_cancel_server_request_timeout`; a timer does not cancel itself.
abbrev pub cancel_by : Timer → Key → ℕ → Bool → AppServer → AppServer
cancel_by no_timer key c fallback s = s
cancel_by _ key c fallback s = if not (is_cell (lookup key s.timers) c) then s else record s {
  timers = remove key s.timers;
  cells = (if fallback then s.cells else update c (record (s.cells c) { timer = ended }) s.cells);
}

unfoldable pub cancel_timeout : Key → ℕ → Bool → AppServer → AppServer
cancel_timeout key c fallback s = cancel_by (s.cells c).timer key c fallback s

-- The end of the write of a response: what it leaves, and whether it raises is up to `Written`.
unfoldable pub finish_response : Option ℕ → Responder → Written → AppServer → AppServer
finish_response none r drained s = record s { lines = s.lines ++ (line r true ∷ []) }
finish_response none r (broken reached) s =
    if reached then record s { lines = s.lines ++ (line r false ∷ []) } else s
finish_response (some c) r drained s = cancel_timeout r.key c r.fallback (commit c r s)
finish_response (some c) r (broken reached) s = record s {
  lines = (if reached then s.lines ++ (line r false ∷ []) else s.lines);
  cells = update c (record (s.cells c) { locked = false }) s.cells;
}

-- The `finally` of `_expire_server_request`
unfoldable pub leave : Option ℕ → Responder → AppServer → AppServer
leave none r s = s
leave (some c) r s =
    if r.fallback && is_cell (lookup r.key s.timers) c
    then record s { timers = remove r.key s.timers }
    else s

-- The texts that it answers with

abbrev pub modern_approval_methods : List String
modern_approval_methods =
    "item/commandExecution/requestApproval" ∷ "item/fileChange/requestApproval" ∷ []

abbrev pub legacy_approval_methods : List String
legacy_approval_methods = "applyPatchApproval" ∷ "execCommandApproval" ∷ []

abbrev pub other_closed_methods : List String
other_closed_methods =
    "item/permissions/requestApproval" ∷ "item/tool/requestUserInput"
    ∷ "mcpServer/elicitation/request" ∷ "account/chatgptAuthTokens/refresh" ∷ "attestation/generate"
    ∷ []

unfoldable pub result_message : Value → Fields → Fields
result_message id body = field "id" id (field "result" (object body) end)

unfoldable pub error_message : Value → ℤ → String → Fields
error_message id code message =
    field "id" id
      (field "error" (object (field "code" (int code) (field "message" (text message) end))) end)

-- The result of a tool call that failed.
abbrev pub tool_failure : String → Fields
tool_failure message =
    field "contentItems"
      (array
        (cons (object (field "type" (text "inputText") (field "text" (text message) end))) nil))
      (field "success" (bool false) end)

abbrev pub no_voice_client : Fields
no_voice_client = tool_failure "No voice client is available for this tool call"

abbrev pub outcome_unknown : Fields
outcome_unknown =
    tool_failure "{\"error\":\"home_assistant_tool_outcome_unknown\",\"do_not_retry\":true}"

unfoldable pub denial : String → Value → Fields
denial method id =
    if member method modern_approval_methods
    then result_message id (field "decision" (text "decline") end)
    else if member method legacy_approval_methods
    then result_message id (
        field "decision"
          (object (
            field "denied"
              (object (field "rejection" (text "Voice bridge denies interactive approvals") end))
              end))
          end)
    else if member method other_closed_methods
    then error_message id (negsuc 31999) "Interactive request denied by voice bridge"
    else error_message id (negsuc 32600) (concat "Unsupported server request: " method)

-- A tool call, once it has been broadcast.
abbrev pub delivered_call : Key → Value → ℕ → AppServer → AppServer
delivered_call key id c s = record s {
  timers = insert key c s.timers;
  cells = update c (record (s.cells c) { timer = sleeping id key }) s.cells;
}

abbrev pub new_state : Key → Fields → AppServer → AppServer
new_state key message s = record s {
  states = insert key s.next_cell s.states;
  cells = update s.next_cell new_cell s.cells;
  next_cell = s.next_cell + 1;
  subscriptions = broadcast message s.subscriptions;
}

unfoldable pub tool_call :
    Key → Value → Fields → AppServer → Outcome Fault (Option Responder) × AppServer
tool_call key id message s =
    let s' = new_state key message s in
    if delivered s.subscriptions == 0
    then (respond_result key (result_message id no_voice_client) s', s')
    else (returned none, delivered_call key id s.next_cell s')

unfoldable pub handle_server_request :
    String → Value → Fields → AppServer → Outcome Fault (Option Responder) × AppServer
handle_server_request method id message s = elim (key_of id) [
  | none ↦ (raised unhashable, s)
  | some key ↦
      let s' = record s { retired = remove key s.retired } in
      if str_eq method "item/tool/call"
      then tool_call key id message s'
      else (respond_result key (denial method id) s', s')
]

-- `is not None`
abbrev pub not_null : Option Value → Option Value
not_null none = none
not_null (some null) = none
not_null (some v) = some v

abbrev pub dispatch :
    Option Value → Option String → Fields → AppServer → Outcome Fault (Option Responder) × AppServer
dispatch (some id) (some method) message s = handle_server_request method id message s
dispatch (some id) none message s = elim (key_of id) [
  | none ↦ (raised unhashable, s)
  | some key ↦ (returned none, on_response (pending_id key s.pending) message s)
]
dispatch none (some method) message s =
    (returned none, record s { subscriptions = broadcast message s.subscriptions })
dispatch none none message s = (returned none, s)

unfoldable pub route_message : Fields → AppServer → Outcome Fault (Option Responder) × AppServer
route_message message s =
    dispatch (not_null (get "id" message)) (as_text (get "method" message)) message s
