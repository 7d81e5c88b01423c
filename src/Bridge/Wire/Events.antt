-- ===== src/Bridge/Wire/Events.antt =====
-- What the bridge reads of a provider data event, of bridge/realtime_wire.py. `json.loads` enters as
-- the decoded value, `none` where it raises.
use ha_codex_voice.Prelude.{
  ℕ, ◌+◌, String, Bool, true, false, not, ◌&&◌, ◌||◌, Option, none, some, List, [], ◌∷◌, ◌++◌, map,
  leb, ◌==◌, str_eq, if◌then◌else◌,
}
use ha_codex_voice.Json.{
  Value, null, text, Fields, end, field, get, codes, as_text, as_object, text_length, member,
  text_or_none,
}

abbrev pub data_control_event_types : List String
data_control_event_types =
    "input_audio_buffer.committed" ∷ "input_audio_buffer.speech_started"
    ∷ "input_audio_buffer.speech_stopped" ∷ "output_audio_buffer.started"
    ∷ "output_audio_buffer.stopped" ∷ "response.cancelled" ∷ "response.created" ∷ "response.done"
    ∷ "session.context.appended" ∷ "session.started" ∷ "session.updated" ∷ "turn.created"
    ∷ "turn.done" ∷ []

pub data Role : Type 0 where
  assistant user : Role

pub record RealtimeDataControl : Type 0 where
  pub event_type : String
  pub role : Option Role
  pub response_cancelled : Bool
  pub response_id : Option String
  pub turn_id : Option String
  pub transcript : Option String

-- `str.lower` of a code point, as far as a comparison with an ASCII word can tell: beyond ASCII only
-- the Kelvin sign goes to an ASCII letter.
abbrev pub lower_code : ℕ → ℕ
lower_code c = if leb 65 c && leb c 90 then c + 32 else if c == 8490 then 107 else c

abbrev pub same_codes : List ℕ → List ℕ → Bool
same_codes [] [] = true
same_codes [] (_ ∷ _) = false
same_codes (_ ∷ _) [] = false
same_codes (x ∷ xs) (y ∷ ys) = (x == y) && same_codes xs ys

-- `s.lower() == word`
unfoldable pub lowers_to : String → String → Bool
lowers_to s word = same_codes (map lower_code (codes s)) (codes word)

abbrev pub normalize : String → Option Role
normalize s =
    if lowers_to s "assistant" || lowers_to s "output"
    then some assistant
    else if lowers_to s "user" || lowers_to s "input"
    then some user
    else none

abbrev pub role_of : Option Value → List (Option String)
role_of none = []
role_of (some v) = text_or_none v ∷ []

abbrev pub nested_role : String → Fields → List (Option String)
nested_role key value = elim (as_object (get key value)) [
  | none ↦ []
  | some d ↦ role_of (get "role" d)
]

-- The candidates of `_event_role`, `none` for one that is no text.
abbrev pub role_candidates : Fields → List (Option String)
role_candidates value =
    role_of (get "role" value)
    ++ (nested_role "turn" value ++ (nested_role "response" value ++ nested_role "item" value))

-- The set `roles`: which of the two names are in it.
pub record Roles : Type 0 where
  pub has_assistant : Bool
  pub has_user : Bool

abbrev pub add_role : Role → Roles → Roles
add_role assistant roles = record roles { has_assistant = true }
add_role user roles = record roles { has_user = true }

-- The loop over the candidates: `none` where it returns early.
unfoldable pub collect_roles : List (Option String) → Roles → Option Roles
collect_roles [] roles = some roles
collect_roles (none ∷ cs) roles = none
collect_roles (some s ∷ cs) roles = elim (normalize s) [
  | none ↦ none
  | some r ↦ collect_roles cs (add_role r roles)
]

-- `roles.pop() if len(roles) == 1 else None`
abbrev pub only_role : Option Roles → Option Role
only_role none = none
only_role (some roles) =
    if roles.has_assistant && not roles.has_user
    then some assistant
    else if roles.has_user && not roles.has_assistant
    then some user
    else none

unfoldable pub event_role : Fields → Option Role
event_role value =
    only_role
      (collect_roles (role_candidates value) (record { has_assistant = false; has_user = false }))

-- The value of a key of a nested object, None where there is none.
abbrev pub nested : String → String → Fields → Value
nested outer inner value = elim (as_object (get outer value)) [
  | none ↦ null
  | some d ↦ elim (get inner d) [ none ↦ null | some v ↦ v ]
]

-- `status` of the response, or else of the event
abbrev pub first_status : Value → Option Value → Option String
first_status null outer = as_text outer
first_status v outer = text_or_none v

abbrev pub is_cancelled_status : Option String → Bool
is_cancelled_status none = false
is_cancelled_status (some s) = lowers_to s "cancelled" || lowers_to s "canceled"

unfoldable pub confirms_response_cancelled : Fields → String → Bool
confirms_response_cancelled value event_type =
    if str_eq event_type "response.cancelled"
    then true
    else if not (str_eq event_type "response.done")
    then false
    else is_cancelled_status (first_status (nested "response" "status" value) (get "status" value))

-- `s or None`
abbrev pub or_none : String → Option String
or_none s = if text_length s == 0 then none else some s

abbrev pub nonempty : Option String → Option String
nonempty none = none
nonempty (some s) = or_none s

abbrev pub first_of : Option String → Option String → Option String
first_of (some s) o = some s
first_of none o = o

-- `_event_response_id` and `_event_turn_id`: the nested id, or else the first of two keys.
abbrev pub correlation_id : String → String → String → Fields → Option String
correlation_id outer key other value = elim (text_or_none (nested outer "id" value)) [
  | some s ↦ or_none s
  | none ↦ first_of (nonempty (as_text (get key value))) (nonempty (as_text (get other value)))
]

unfoldable pub event_response_id : Fields → Option String
event_response_id = correlation_id "response" "response_id" "responseId"

unfoldable pub event_turn_id : Fields → Option String
event_turn_id = correlation_id "turn" "turn_id" "turnId"

unfoldable pub event_transcript : Fields → Option String
event_transcript value =
    first_of (text_or_none (nested "turn" "transcript" value)) (as_text (get "transcript" value))

abbrev pub control_of : Fields → Option String → Option RealtimeDataControl
control_of decoded none = none
control_of decoded (some event_type) =
    if not (member event_type data_control_event_types)
    then none
    else some (record {
      event_type = event_type;
      role = event_role decoded;
      response_cancelled = confirms_response_cancelled decoded event_type;
      response_id = event_response_id decoded;
      turn_id = event_turn_id decoded;
      transcript = event_transcript decoded;
    })

abbrev pub control_of_object : Option Fields → Option RealtimeDataControl
control_of_object none = none
control_of_object (some decoded) = control_of decoded (as_text (get "type" decoded))

unfoldable pub parse_data_control_event : Option Value → Option RealtimeDataControl
parse_data_control_event decoded = control_of_object (as_object decoded)

unfoldable pub wire_value : RealtimeDataControl → Fields
wire_value c = field "type" (text "control") (field "event_type" (text c.event_type) end)

abbrev pub wire_of : Option RealtimeDataControl → Option Fields
wire_of none = none
wire_of (some c) = some (wire_value c)

unfoldable pub sanitized_data_control_event : Option Value → Option Fields
sanitized_data_control_event value = wire_of (parse_data_control_event value)
