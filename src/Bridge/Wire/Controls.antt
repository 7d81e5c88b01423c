-- ===== src/Bridge/Wire/Controls.antt =====
-- About the provider events of bridge/realtime_wire.py, as the device and the bridge see them.
use ha_codex_voice.Prelude.{
  ℕ, ◌≤◌, ◌≡◌, ◌≢◌, refl, ◌⊎◌, inl, inr, ◌↔◌, String, Bool, true, false, Option, none, some, List,
  [], ◌∷◌, All, length, arith, str_eq, str_eq_iff, Bool-cases, ◌||◌,
}
use ha_codex_voice.Prelude.Action.{Outcome, returned, raised}
use ha_codex_voice.Json.{Value, Fields, object, text, field, end, get, as_text, member}
use ha_codex_voice.Device.Session.Messages.{Desk, Reply, SessionFault, Speaker, speech_started}
use ha_codex_voice.Device.Session.Dispatch.{on_json, on_control}
use ha_codex_voice.Bridge.Wire.Events.{
  RealtimeDataControl, Role, assistant, user, Roles, add_role, collect_roles, only_role,
  role_candidates, normalize, event_role, data_control_event_types, parse_data_control_event,
  wire_value, sanitized_data_control_event, control_of, wire_of,
}

member_All :
    (P : String → Type 0) (s : String) (names : List String)
    → All P names
    → member s names ≡ true
    → P s
unfolding member
member_All P s [] h m = ground arith
member_All P s (t ∷ ts) h m = elim (Bool-cases (str_eq s t)) [
  | inl e ↦ rw ((str_eq_iff s t).0 e) h.0
  | inr e ↦ member_All P s ts h.1 (ground arith)
]

event_type-member :
    (value : Option Value) (c : RealtimeDataControl)
    → parse_data_control_event value ≡ some c
    → member c.event_type data_control_event_types ≡ true
unfolding parse_data_control_event
event_type-member value c h = ground arith

-- A reply that ends nothing.
abbrev pub Continues : Outcome SessionFault Reply → Type 0
Continues (returned r) = r.action ≡ none
Continues (raised e) = ⊥

module _ (speaker : Speaker) (output_epoch : Option ℕ) (last : ℕ) (d : Desk) where
  Accepts : String → Type 0
  Accepts event_type =
      (event_type ≢ "session.context.appended")
      → Continues
          (on_json speaker output_epoch last
            (field "type" (text "control") (field "event_type" (text event_type) end)) d).0

  speech_started-continues : (speech_started output_epoch last d).0.action ≡ none
  unfolding speech_started
  speech_started-continues = ground arith

  data_control_event_types-Accepts : All Accepts data_control_event_types
  unfolding Accepts on_json on_control get member
  data_control_event_types-Accepts = (
    λ _. refl,
    (
      λ _. speech_started-continues,
      (
        λ _. refl,
        (
          λ _. refl,
          (
            λ _. refl,
            (
              λ _. refl,
              (
                λ _. refl,
                (λ _. refl, (λ n. n refl, (λ _. refl, (λ _. refl, (λ _. refl, (λ _. refl, tt)))))),
              ),
            ),
          ),
        ),
      ),
    ),
  )

  -- Every control event that the bridge forwards, that is, every one it parses but
  -- "session.context.appended", is one the device accepts, in whatever state it is: the message neither
  -- raises nor ends the session.
  pub forwarded_control-accepted :
      (value : Option Value) (c : RealtimeDataControl)
      → parse_data_control_event value ≡ some c
      → c.event_type ≢ "session.context.appended"
      → Continues (on_json speaker output_epoch last (wire_value c) d).0
  unfolding wire_value Accepts
  forwarded_control-accepted value c h =
      member_All Accepts c.event_type data_control_event_types data_control_event_types-Accepts
        (event_type-member value c h)

-- What the bridge forwards of an event is none of its content: it is a function of the event's type
-- alone.
pub sanitized_data_control_event-content_free :
    (decoded other : Fields)
    → get "type" decoded ≡ get "type" other
    → sanitized_data_control_event (some (object decoded))
      ≡ sanitized_data_control_event (some (object other))
unfolding sanitized_data_control_event parse_data_control_event wire_value
sanitized_data_control_event-content_free decoded other h =
    go (get "type" decoded) (get "type" other) h
  where
    go :
        (t u : Option Value)
        → t ≡ u
        → wire_of (control_of decoded (as_text t)) ≡ wire_of (control_of other (as_text u))
    go t u e = ground arith

-- The role that one candidate names.
abbrev pub named_role : Option String → Option Role
named_role none = none
named_role (some s) = normalize s

abbrev pub Names : Role → List (Option String) → Type 0
Names r = All (λ c. named_role c ≡ some r)

abbrev Found : Role → Roles → Type 0
Found assistant roles = (roles.has_user ≡ false)
Found user roles = (roles.has_assistant ≡ false)

abbrev nothing_found : Roles
nothing_found = record { has_assistant = false; has_user = false }

abbrev any_found : Roles → Bool
any_found roles = roles.has_assistant || roles.has_user

collect_sound :
    (r : Role) (cs : List (Option String)) (roles : Roles)
    → only_role (collect_roles cs roles) ≡ some r
    → Names r cs × Found r roles × ((1 ≤ length cs) ⊎ (any_found roles ≡ true))
unfolding collect_roles
collect_sound r [] roles h = ground arith
collect_sound r (none ∷ cs) roles h = ground arith
collect_sound r (some s ∷ cs) roles h =
    ground (
      arith,
      collect_sound r cs (add_role assistant roles),
      collect_sound r cs (add_role user roles),
    )

collect_complete :
    (r : Role) (cs : List (Option String)) (roles : Roles)
    → Names r cs
    → Found r roles
    → ((1 ≤ length cs) ⊎ (any_found roles ≡ true))
    → only_role (collect_roles cs roles) ≡ some r
unfolding collect_roles
collect_complete r [] roles n f k = ground arith
collect_complete r (none ∷ cs) roles n f k = ground arith
collect_complete r (some s ∷ cs) roles n f k = ground (
  arith,
  collect_complete r cs (add_role assistant roles),
  collect_complete r cs (add_role user roles),
)

-- A role is read exactly when the event names one at all and every place that names one names it:
-- a place that holds no text or an unknown name, or two places that disagree, leave it unset.
pub event_role-candidates :
    (value : Fields) (r : Role)
    → (event_role value ≡ some r)
      ↔ ((1 ≤ length (role_candidates value)) × Names r (role_candidates value))
unfolding event_role
event_role-candidates value r = (sound, complete)
  where
    cs : List (Option String)
    cs = role_candidates value

    nothing-Found : (r : Role) → Found r nothing_found
    nothing-Found assistant = refl
    nothing-Found user = refl

    sound : only_role (collect_roles cs nothing_found) ≡ some r → (1 ≤ length cs) × Names r cs
    sound h = ground (arith, collect_sound r cs nothing_found h)

    complete : (1 ≤ length cs) × Names r cs → only_role (collect_roles cs nothing_found) ≡ some r
    complete h = collect_complete r cs nothing_found h.1 (nothing-Found r) (inl h.0)
