-- ===== src/Bridge/ToolBroker/Dict.antt =====
-- A Python dict with text keys: its entries in insertion order, with distinct keys.
use ha_codex_voice.Prelude.{
  ◌≤◌, ◌≡◌, refl, String, false, Option, none, some, List, [], ◌∷◌, ◌++◌, str_eq, if◌then◌else◌,
  length, All, arith,
}

pub record Entry (A : Type 0) : Type 0 where
  pub key : String
  pub value : A

module _ {A : Type 0} where
  -- `d.get(key)`
  abbrev pub lookup : String → List (Entry A) → Option A
  lookup key [] = none
  lookup key (e ∷ d) = if str_eq e.key key then some e.value else lookup key d

  -- what `d.pop(key, None)` leaves
  abbrev pub remove : String → List (Entry A) → List (Entry A)
  remove key [] = []
  remove key (e ∷ d) = let rest = remove key d in if str_eq e.key key then rest else e ∷ rest

  -- `d[key] = value`: in place, or at the end
  abbrev pub insert : String → A → List (Entry A) → List (Entry A)
  insert key value [] = record { key = key; value = value } ∷ []
  insert key value (e ∷ d) =
      let rest = insert key value d in
      if str_eq e.key key then record { key = key; value = value } ∷ d else e ∷ rest

  pub length-remove : (key : String) (d : List (Entry A)) → length (remove key d) ≤ length d
  length-remove key [] = omega arith
  length-remove key (e ∷ d) = ground (arith, length-remove key d)

  pub All-remove :
      (P : Entry A → Type 0) (key : String) (d : List (Entry A)) → All P d → All P (remove key d)
  All-remove P key [] h = tt
  All-remove P key (e ∷ d) h = ground (arith, All-remove P key d h.1)

  pub lookup-remove : (key : String) (d : List (Entry A)) → lookup key (remove key d) ≡ none
  lookup-remove key [] = refl
  lookup-remove key (e ∷ d) = ground (arith, lookup-remove key d)

  -- a new key goes to the end
  pub insert_fresh :
      (key : String) (value : A) (d : List (Entry A))
      → lookup key d ≡ none
      → insert key value d ≡ d ++ (record { key = key; value = value } ∷ [])
  insert_fresh key value [] h = refl
  insert_fresh key value (e ∷ d) h = ground (arith, insert_fresh key value d)

  -- what is left holds other keys
  pub remove-Other :
      (key : String) (d : List (Entry A)) → All (λ e. str_eq e.key key ≡ false) (remove key d)
  remove-Other key [] = tt
  remove-Other key (e ∷ d) = ground (arith, remove-Other key d)
