-- ===== src/Bridge/AppServer/Layers.antt =====
-- `assert_no_configured_mcp_servers` of bridge/app_server.py: no layer of the configuration may bring
-- in an MCP server.
use ha_codex_voice.Prelude.{
  if_elim, subst, ◌≡◌, ◌↔◌, ◌⊎◌, refl, String, Bool, true, false, not, ◌&&◌, ◌||◌, Option, none,
  some, [], ◌∷◌, ◌==◌, if◌then◌else◌, is_empty, arith, inl, inr,
}
use ha_codex_voice.Prelude.Ints.{pos, negsuc}
use ha_codex_voice.Prelude.Action.{Outcome, returned, raised}
use ha_codex_voice.Json.{
  Value, null, bool, int, float, text, array, object, Items, nil, cons, Fields, end, field, dyadic,
  get, member, codes,
}

-- `bool(value)`
unfoldable pub truthy : Value → Bool
truthy null = false
truthy (bool b) = b
truthy (int (pos n)) = not (n == 0)
truthy (int (negsuc n)) = true
truthy (float (dyadic (pos n) e)) = not (n == 0)
truthy (float _) = true
truthy (text s) = not (is_empty (codes s))
truthy (array nil) = false
truthy (array _) = true
truthy (object end) = false
truthy (object _) = true

abbrev pub is_mcp_key : String → Bool
is_mcp_key key = member key ("mcp_servers" ∷ "mcpServers" ∷ [])

unfoldable mutual
  -- `_contains_configured_mcp`
  pub contains_configured_mcp : Value → Bool
  contains_configured_mcp (object d) = contains_entry d
  contains_configured_mcp _ = false

  pub contains_entry : Fields → Bool
  contains_entry end = false
  contains_entry (field key nested rest) =
      (is_mcp_key key && truthy nested) || (contains_configured_mcp nested || contains_entry rest)

pub data LayerFault : Type 0 where
  invalid_layers mcp_configured : LayerFault

-- `response.get("layers") if isinstance(response, dict) else None`, and the like for `config`
abbrev pub get_of : String → Value → Option Value
get_of key (object d) = get key d
get_of key _ = none

abbrev pub or_null : Option Value → Value
or_null none = null
or_null (some v) = v

unfoldable pub check_layers : Items → Outcome LayerFault (Unit {0})
check_layers nil = returned tt
check_layers (cons layer rest) =
    let later = check_layers rest in
    if contains_configured_mcp (or_null (get_of "config" layer))
    then raised mcp_configured
    else later

abbrev pub as_layers : Option Value → Option Items
as_layers (some (array layers)) = some layers
as_layers _ = none

unfoldable pub assert_no_configured_mcp_servers : Value → Outcome LayerFault (Unit {0})
assert_no_configured_mcp_servers response = elim (as_layers (get_of "layers" response)) [
  | none ↦ raised invalid_layers
  | some layers ↦ check_layers layers
]

-- At some depth of nested dicts, a key that names MCP servers has a value that counts as true.
mutual
  pub data Configures : Value → Type 0 where
    inside : {d : Fields} → HasEntry d → Configures (object d)

  pub data HasEntry : Fields → Type 0 where
    here :
        {key : String} {nested : Value} {rest : Fields}
        → is_mcp_key key ≡ true
        → truthy nested ≡ true
        → HasEntry (field key nested rest)
    within :
        {key : String} {nested : Value} {rest : Fields}
        → Configures nested
        → HasEntry (field key nested rest)
    later :
        {key : String} {nested : Value} {rest : Fields}
        → HasEntry rest
        → HasEntry (field key nested rest)

second : (a c d : Bool) → (c ≡ true) ⊎ (d ≡ true) → (a || (c || d)) ≡ true
second true c d h = refl
second false true d h = refl
second false false d (inl e) = cc
second false false d (inr e) = e

choose :
    {P : Type 0} (a b c d : Bool)
    → ((a && b) || (c || d)) ≡ true
    → (a ≡ true → b ≡ true → P)
    → (c ≡ true → P)
    → (d ≡ true → P)
    → P
choose true true c d h f g k = f refl refl
choose true false true d h f g k = g refl
choose true false false d h f g k = k h
choose false b true d h f g k = g refl
choose false b false d h f g k = k h

mutual
  unfolding contains_configured_mcp contains_entry

  found : (v : Value) → contains_configured_mcp v ≡ true → Configures v
  found (object d) h = inside (found_entry d h)
  found null h = cc
  found (bool b) h = cc
  found (int z) h = cc
  found (float f) h = cc
  found (text s) h = cc
  found (array l) h = cc

  found_entry : (d : Fields) → contains_entry d ≡ true → HasEntry d
  found_entry end h = cc
  found_entry (field key nested rest) h =
      choose (is_mcp_key key) (truthy nested) (contains_configured_mcp nested) (contains_entry rest)
        h (λ a b. here a b) (λ a. within (found nested a)) λ a. later (found_entry rest a)

mutual
  unfolding contains_configured_mcp contains_entry

  contained : (v : Value) → Configures v → contains_configured_mcp v ≡ true
  contained (object d) (inside e) = contained_entry d e
  contained null h = elim h [ ]
  contained (bool b) h = elim h [ ]
  contained (int z) h = elim h [ ]
  contained (float f) h = elim h [ ]
  contained (text s) h = elim h [ ]
  contained (array l) h = elim h [ ]

  contained_entry : (d : Fields) → HasEntry d → contains_entry d ≡ true
  contained_entry end h = elim h [ ]
  contained_entry (field key nested rest) (here a b) = rw (a, b) refl
  contained_entry (field key nested rest) (within c) =
      second (is_mcp_key key && truthy nested) _ _ (inl (contained nested c))
  contained_entry (field key nested rest) (later e) =
      second (is_mcp_key key && truthy nested) _ _ (inr (contained_entry rest e))

-- No layer brings in a server.
abbrev pub AllClear : Items → Type 0
AllClear nil = Unit
AllClear (cons layer rest) = ¬ Configures (or_null (get_of "config" layer)) × AllClear rest

check_layers_iff : (layers : Items) → (check_layers layers ≡ returned tt) ↔ AllClear layers
unfolding check_layers
check_layers_iff nil = (λ _. tt, λ _. refl)
check_layers_iff (cons layer rest) = (
  λ h. (
    λ c. ground (arith, contained (or_null (get_of "config" layer)) c),
    (check_layers_iff rest).0 (ground arith),
  ),
  λ k.
      if_elim (λ (o : Outcome LayerFault (Unit {0})). o ≡ returned tt)
        (contains_configured_mcp (or_null (get_of "config" layer))) _ _
        (λ c. absurd (k.0 (found (or_null (get_of "config" layer)) c)))
        λ _. (check_layers_iff rest).1 k.1,
)

-- The check passes exactly when the response has a list of layers and no layer's configuration has,
-- at any depth of nested dicts, a key `mcp_servers` or `mcpServers` with a value that counts as true.
pub assert_no_configured_mcp_servers_iff :
    (response : Value)
    → (assert_no_configured_mcp_servers response ≡ returned tt)
      ↔ ((layers : Items) × (as_layers (get_of "layers" response) ≡ some layers) × AllClear layers)
unfolding assert_no_configured_mcp_servers
assert_no_configured_mcp_servers_iff response = go (as_layers (get_of "layers" response))
  where
    go :
        (o : Option Items)
        → ((elim o as (λ _. Outcome LayerFault (Unit {0})) [
          | none ↦ raised invalid_layers
          | some layers ↦ check_layers layers
        ])
            ≡ returned tt)
          ↔ ((layers : Items) × (o ≡ some layers) × AllClear layers)
    go none = (λ h. cc, λ k. cc)
    go (some l) = (
      λ h. (l, refl, (check_layers_iff l).0 h),
      λ k. (check_layers_iff l).1 (subst AllClear (ground (arith, k.1)) k.2),
    )
