-- ===== src/Bridge/ToolBroker/Registration.antt =====
-- `_validated_registration` and `_bounded_text` of bridge/tool_broker.py. `dumped` is the size of the
-- JSON encoding of a value, `none` where `json.dumps` raises.
use ha_codex_voice.Prelude.{
  ℕ, suc, ap, ◌≤◌, ◌≡◌, refl, String, Bool, true, false, not, ◌&&◌, ◌||◌, Option, none, some, List,
  [], ◌∷◌, leb, ltb, ◌==◌, if◌then◌else◌, all, any, length, arith, if_elim,
}
use ha_codex_voice.Prelude.Ints.{pos}
use ha_codex_voice.Prelude.Action.{Outcome, returned, raised, and_then}
use ha_codex_voice.Json.{
  Value, null, bool, int, float, text, array, object, Items, nil, cons, Fields, get, equals_int,
  equals_text, as_text, as_object, codes, text_length, member, or_default, text_or_none,
}
use ha_codex_voice.Prelude.Hoare.{Ensures, Ensures-at, Ensures-equal, Ensures-then}
use ha_codex_voice.Texts.{is_alpha, is_alnum}
use ha_codex_voice.Bridge.ToolBroker.Broker.{
  Tool, Snapshot, BrokerFault, not_register, bad_protocol, bad_text, bad_tools, bounded_json,
  value_or_null,
}
use ha_codex_voice.Bridge.ToolBroker.Language.{canonical_language, canonical_language-length}

abbrev pub is_control : ℕ → Bool
is_control c = ltb c 32 && not ((c == 10) || (c == 9))

abbrev pub bounded : ℕ → Bool → Option String → Outcome BrokerFault String
bounded maximum allow_empty none = raised bad_text
bounded maximum allow_empty (some s) =
    if (not allow_empty && (text_length s == 0))
      || (ltb maximum (text_length s) || any is_control (codes s))
    then raised bad_text
    else returned s

-- `_bounded_text`
unfoldable pub bounded_text : Value → ℕ → Bool → Outcome BrokerFault String
bounded_text value maximum allow_empty = bounded maximum allow_empty (text_or_none value)

-- `[A-Za-z_][A-Za-z0-9_.-]{0,255}\Z`, matched in full.
abbrev pub is_tool_name : List ℕ → Bool
is_tool_name [] = false
is_tool_name (c ∷ cs) =
    (is_alpha c || (c == 95))
    && (all (λ d. is_alnum d || ((d == 95) || ((d == 46) || (d == 45)))) cs && leb (length cs) 255)

abbrev pub is_new_name : List String → String → Bool
is_new_name names s = leb (text_length s) 256 && (is_tool_name (codes s) && not (member s names))

-- `raw_tool.get("parameters", raw_tool.get("inputSchema"))`
abbrev pub schema_of : Fields → Value
schema_of d = or_default (get "parameters" d) (value_or_null (get "inputSchema" d))

module _ (dumped : Value → Option ℕ) where
  -- one tool, from its texts and its schema
  abbrev pub validated_tool :
      List String → Option String → Option String → Option Fields → Outcome BrokerFault Tool
  validated_tool names none description parameters = raised bad_tools
  validated_tool names (some name) description parameters =
      if not (is_new_name names name) then raised bad_tools else elim description [
        | none ↦ raised bad_tools
        | some d ↦
            (if ltb 8192 (text_length d) then raised bad_tools else elim parameters [
              | none ↦ raised bad_tools
              | some p ↦
                  and_then (bounded_json (dumped (object p)) 65536)
                    λ _. returned (record { name = name; description = d; parameters = p })
            ])
      ]

  abbrev pub read_tool : List String → Option Fields → Outcome BrokerFault Tool
  read_tool names none = raised bad_tools
  read_tool names (some d) =
      validated_tool names (as_text (get "name" d))
        (text_or_none (or_default (get "description" d) (text ""))) (as_object (some (schema_of d)))

  -- The loop over the tools, with the names seen so far.
  unfoldable pub validated_tools : List String → Items → Outcome BrokerFault (List Tool)
  validated_tools names nil = returned []
  validated_tools names (cons v vs) = elim (read_tool names (as_object (some v))) [
    | raised e ↦ raised e
    | returned t ↦ elim (validated_tools (t.name ∷ names) vs) [
      | raised e ↦ raised e
      | returned ts ↦ returned (t ∷ ts)
    ]
  ]

  abbrev items_length : Items → ℕ
  items_length nil = 0
  items_length (cons v vs) = suc (items_length vs)

  abbrev pub bounded_tools : Option Value → Outcome BrokerFault (List Tool)
  bounded_tools (some (array items)) =
      if ltb 128 (items_length items) then raised bad_tools else validated_tools [] items
  bounded_tools _ = raised bad_tools

  abbrev pub tool_names_of : List Tool → List String
  tool_names_of [] = []
  tool_names_of (t ∷ ts) = t.name ∷ tool_names_of ts

  unfoldable pub validated_registration : Fields → Outcome BrokerFault Snapshot
  validated_registration value =
      if not (equals_text "register" (get "type" value))
      then raised not_register
      else if not (equals_int (pos 1) (get "protocol_version" value))
      then raised bad_protocol
      else and_then (bounded_text (value_or_null (get "authority_id" value)) 256 false)
          λ authority_id.
            and_then (bounded_text (value_or_null (get "language" value)) 35 false) λ tag.
              and_then (canonical_language tag) λ language.
                and_then (bounded_text (or_default (get "instructions" value) (text "")) 65536 true)
                  λ instructions. and_then (bounded_tools (get "tools" value)) λ tools.
                    returned (record {
                      generation = "";
                      authority_id = authority_id;
                      language = language;
                      instructions = instructions;
                      tools = tools;
                      tool_names = tool_names_of tools;
                    })

  -- The checks of one tool.
  pub record IsTool (names : List String) (t : Tool) : Type 0 where
    pub new_name : is_new_name names t.name ≡ true
    pub described : text_length t.description ≤ 8192
    pub size : ℕ
    pub encoded : dumped (object t.parameters) ≡ some size
    pub small : size ≤ 65536

  abbrev pub AllNew : List String → List Tool → Type 0
  AllNew names [] = Unit
  AllNew names (t ∷ ts) = IsTool names t × AllNew (t.name ∷ names) ts

  pub record IsChecked (s : Snapshot) : Type 0 where
    pub few : length s.tools ≤ 128
    pub distinct : AllNew [] s.tools
    pub named : s.tool_names ≡ tool_names_of s.tools
    pub authority_named : 1 ≤ text_length s.authority_id
    pub authority_short : text_length s.authority_id ≤ 256
    pub language_short : text_length s.language ≤ 35
    pub instructions_short : text_length s.instructions ≤ 65536
    pub authority_plain : any is_control (codes s.authority_id) ≡ false
    pub instructions_plain : any is_control (codes s.instructions) ≡ false

  sized_tool :
      (size : Option ℕ) (name d : String) (p : Fields) (t : Tool)
      → and_then
          (bounded_json size 65536)
          (λ _. returned (record { name = name; description = d; parameters = p }))
        ≡ returned t
      → (t ≡ record { name = name; description = d; parameters = p })
        × ((n : ℕ) × ((size ≡ some n) × (n ≤ 65536)))
  sized_tool none name d p t h = ground arith
  sized_tool (some n) name d p t h = (ground (arith, h), (n, (refl, ground (arith, h))))

  validated_tool_lem :
      (names : List String) (name description : Option String) (parameters : Option Fields)
      (t : Tool)
      → validated_tool names name description parameters ≡ returned t
      → IsTool names t
  validated_tool_lem names none description parameters t h = ground arith
  validated_tool_lem names (some name) none parameters t h = ground arith
  validated_tool_lem names (some name) (some d) none t h = ground arith
  validated_tool_lem names (some name) (some d) (some p) t h =
      if_elim (λ (r : Outcome BrokerFault Tool). r ≡ returned t → IsTool names t)
        (not (is_new_name names name)) _ _ (λ _ k. ground (arith, k))
        (λ new.
          if_elim (λ (r : Outcome BrokerFault Tool). r ≡ returned t → IsTool names t)
            (ltb 8192 (text_length d)) _ _ (λ _ k. ground (arith, k))
            λ l k. made new l (sized_tool (dumped (object p)) name d p t k))
        h
    where
      made :
          not (is_new_name names name) ≡ false
          → ltb 8192 (text_length d) ≡ false
          → (t ≡ record { name = name; description = d; parameters = p })
            × ((n : ℕ) × ((dumped (object p) ≡ some n) × (n ≤ 65536)))
          → IsTool names t
      made new l (e, (n, (sized, small))) = rw e record {
        new_name = ground (arith, new);
        described = ground (arith, l);
        size = n;
        encoded = sized;
        small = small;
      }

  read_tool_lem :
      (names : List String) (o : Option Fields) (t : Tool)
      → read_tool names o ≡ returned t
      → IsTool names t
  read_tool_lem names none t h = ground arith
  read_tool_lem names (some d) t h = validated_tool_lem names _ _ _ t h

  abbrev Reads : List String → Items → List Tool → Type 0
  Reads names vs ts = AllNew names ts × (length ts ≡ items_length vs)

  validated_tools-Reads :
      (names : List String) (vs : Items) → Ensures (Reads names vs) (validated_tools names vs)
  unfolding validated_tools
  validated_tools-Reads names nil = (tt, refl)
  validated_tools-Reads names (cons v vs) =
      first (read_tool names (as_object (some v))) (Ensures-equal _)
        (λ t. validated_tools-Reads (t.name ∷ names) vs)
    where
      rest :
          (t : Tool)
          → IsTool names t
          → (r : Outcome BrokerFault (List Tool)) → Ensures (Reads (t.name ∷ names) vs) r
          → Ensures (Reads names (cons v vs)) (elim r as (λ _. Outcome BrokerFault (List Tool)) [
            | raised e ↦ raised e
            | returned ts ↦ returned (t ∷ ts)
          ])
      rest t n (raised e) h = tt
      rest t n (returned ts) h = ((n, h.0), ap suc h.1)

      first :
          (r : Outcome BrokerFault Tool)
          → Ensures (λ t. read_tool names (as_object (some v)) ≡ returned t) r
          → ((t : Tool) → Ensures (Reads (t.name ∷ names) vs) (validated_tools (t.name ∷ names) vs))
          → Ensures (Reads names (cons v vs)) (elim r as (λ _. Outcome BrokerFault (List Tool)) [
            | raised e ↦ raised e
            | returned t ↦
                elim (validated_tools (t.name ∷ names) vs)
                  as (λ _. Outcome BrokerFault (List Tool)) [
                    | raised e ↦ raised e
                    | returned ts ↦ returned (t ∷ ts)
                  ]
          ])
      first (raised e) h k = tt
      first (returned t) h k =
          rest t (read_tool_lem names (as_object (some v)) t h)
            (validated_tools (t.name ∷ names) vs) (k t)

  abbrev IsShort : ℕ → Bool → String → Type 0
  IsShort maximum allow_empty s =
      (text_length s ≤ maximum)
      × (allow_empty ≡ false → 1 ≤ text_length s)
      × (any is_control (codes s) ≡ false)

  bounded-Ensures :
      (maximum : ℕ) (allow_empty : Bool) (o : Option String)
      → Ensures (IsShort maximum allow_empty) (bounded maximum allow_empty o)
  bounded-Ensures maximum allow_empty none = tt
  bounded-Ensures maximum allow_empty (some t) = ground arith

  abbrev Few : List Tool → Type 0
  Few ts = AllNew [] ts × (length ts ≤ 128)

  bounded_tools-Few : (o : Option Value) → Ensures Few (bounded_tools o)
  bounded_tools-Few none = tt
  bounded_tools-Few (some (array items)) =
      if_elim (Ensures Few) (ltb 128 (items_length items)) _ _ (λ _. tt)
        λ l. few (validated_tools [] items) (validated_tools-Reads [] items) (ground (arith, l))
    where
      few :
          (r : Outcome BrokerFault (List Tool))
          → Ensures (Reads [] items) r
          → items_length items ≤ 128
          → Ensures Few r
      few (raised e) h l = tt
      few (returned ts) h l = (h.0, omega (arith, h.1))
  bounded_tools-Few (some null) = tt
  bounded_tools-Few (some (bool _)) = tt
  bounded_tools-Few (some (int _)) = tt
  bounded_tools-Few (some (float _)) = tt
  bounded_tools-Few (some (text _)) = tt
  bounded_tools-Few (some (object _)) = tt

  registration-Ensures : (value : Fields) → Ensures IsChecked (validated_registration value)
  unfolding validated_registration bounded_text
  registration-Ensures value =
      if_elim (Ensures IsChecked) (not (equals_text "register" (get "type" value))) _ _ (λ _. tt)
        λ _.
          if_elim (Ensures IsChecked) (not (equals_int (pos 1) (get "protocol_version" value))) _ _
            (λ _. tt)
            λ _.
              Ensures-then IsChecked (IsShort 256 false)
                (bounded_text (value_or_null (get "authority_id" value)) 256 false) _
                (bounded-Ensures 256 false _)
                λ a ha.
                  Ensures-then IsChecked (IsShort 35 false)
                    (bounded_text (value_or_null (get "language" value)) 35 false) _
                    (bounded-Ensures 35 false _)
                    λ tag ht.
                      Ensures-then IsChecked (λ l. canonical_language tag ≡ returned l)
                        (canonical_language tag) _ (Ensures-equal (canonical_language tag))
                        λ l hl.
                          Ensures-then IsChecked (IsShort 65536 true)
                            (bounded_text (or_default (get "instructions" value) (text "")) 65536
                              true)
                            _ (bounded-Ensures 65536 true _)
                            λ i hi.
                              Ensures-then IsChecked Few (bounded_tools (get "tools" value)) _
                                (bounded_tools-Few (get "tools" value))
                                λ ts hts. record {
                                  few = hts.1;
                                  distinct = hts.0;
                                  named = refl;
                                  authority_named = ha.1 refl;
                                  authority_short = ha.0;
                                  language_short =
                                      omega (arith, canonical_language-length tag l hl, ht.0);
                                  instructions_short = hi.0;
                                  authority_plain = ha.2;
                                  instructions_plain = hi.2;
                                }

  pub validated_registration-IsChecked :
      (value : Fields) (s : Snapshot) → validated_registration value ≡ returned s → IsChecked s
  validated_registration-IsChecked value s h =
      Ensures-at IsChecked _ s h (registration-Ensures value)
