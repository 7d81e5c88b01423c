-- ===== src/Bridge/AppServer/Table.antt =====
-- The ids of JSON-RPC messages as keys of a Python dict, and the dicts that bridge/app_server.py
-- keeps under them, in insertion order. Numbers that `==` equates are one key.
use ha_codex_voice.Prelude.{
  if_elim, ℕ, ◌+◌, ◌-◌, ◌%◌, ◌/◌, ◌^◌, ◌≤◌, ◌≡◌, ◌↔◌, refl, String, Bool, true, false, ◌&&◌, Option,
  none, some, List, [], ◌∷◌, ◌==◌, str_eq, str_eq_iff, if◌then◌else◌, length, arith,
}
use ha_codex_voice.Prelude.Ints.{ℤ, pos, negsuc, eqb_ℤ}
use ha_codex_voice.Json.{Value, null, bool, int, float, text, array, object, dyadic, infinite, nan}

-- A float that is no integer is a key of its own; `json.loads` yields one NaN object.
pub data Key : Type 0 where
  number : ℤ → Key
  word : String → Key
  fraction : ℤ → ℕ → Key
  infinity : Bool → Key
  not_a_number : Key

-- m / 2^e as an integer, where it is one
abbrev pub whole : ℤ → ℕ → Key
whole (pos n) e = if n % 2 ^ e == 0 then number (pos (n / 2 ^ e)) else fraction (pos n) e
whole (negsuc n) e =
    if (n + 1) % 2 ^ e == 0 then number (negsuc ((n + 1) / 2 ^ e - 1)) else fraction (negsuc n) e

-- `none`: a list or a dict has no hash. A null id counts as none before it is a key.
unfoldable pub key_of : Value → Option Key
key_of null = none
key_of (bool true) = some (number (pos 1))
key_of (bool false) = some (number (pos 0))
key_of (int z) = some (number z)
key_of (float (dyadic m e)) = some (whole m e)
key_of (float (infinite s)) = some (infinity s)
key_of (float nan) = some not_a_number
key_of (text s) = some (word s)
key_of (array _) = none
key_of (object _) = none

same_sign : Bool → Bool → Bool
same_sign true b = b
same_sign false true = false
same_sign false false = true

unfoldable pub same_key : Key → Key → Bool
unfolding same_sign
same_key (number a) (number b) = eqb_ℤ a b
same_key (word s) (word t) = str_eq s t
same_key (fraction m e) (fraction n f) = eqb_ℤ m n && (e == f)
same_key (infinity a) (infinity b) = same_sign a b
same_key not_a_number not_a_number = true
same_key _ _ = false

pub same_key_iff : (k l : Key) → (same_key k l ≡ true) ↔ (k ≡ l)
unfolding same_key
same_key_iff (word s) (word t) = ground (arith, str_eq_iff s t)
same_key_iff (infinity true) (infinity b) = ground arith
same_key_iff (infinity false) (infinity true) = ground arith
same_key_iff (infinity false) (infinity false) = ground arith
same_key_iff k l = ground arith

pub record Item (A : Type 0) : Type 0 where
  pub key : Key
  pub value : A

module _ {A : Type 0} where
  -- `d.get(key)`
  abbrev pub lookup : Key → List (Item A) → Option A
  lookup key [] = none
  lookup key (e ∷ d) = if same_key e.key key then some e.value else lookup key d

  -- what `d.pop(key, None)` leaves
  abbrev pub remove : Key → List (Item A) → List (Item A)
  remove key [] = []
  remove key (e ∷ d) = let rest = remove key d in if same_key e.key key then rest else e ∷ rest

  -- `d[key] = value`: in place, or at the end
  abbrev pub insert : Key → A → List (Item A) → List (Item A)
  insert key value [] = record { key = key; value = value } ∷ []
  insert key value (e ∷ d) =
      let rest = insert key value d in
      if same_key e.key key then record { key = key; value = value } ∷ d else e ∷ rest

  pub length-remove : (key : Key) (d : List (Item A)) → length (remove key d) ≤ length d
  length-remove key [] = omega arith
  length-remove key (e ∷ d) = ground (arith, length-remove key d)

  pub lookup-remove : (key : Key) (d : List (Item A)) → lookup key (remove key d) ≡ none
  lookup-remove key [] = refl
  lookup-remove key (e ∷ d) = ground (arith, lookup-remove key d)

  pub lookup-remove_other :
      (k l : Key) (d : List (Item A)) → same_key l k ≡ false → lookup k (remove l d) ≡ lookup k d
  lookup-remove_other k l [] h = refl
  lookup-remove_other k l (e ∷ d) h =
      ground (arith, lookup-remove_other k l d, same_key_iff e.key l, same_key_iff e.key k)

  pub lookup-insert :
      (k l : Key) (v : A) (d : List (Item A))
      → lookup k (insert l v d) ≡ (if same_key l k then some v else lookup k d)
  lookup-insert k l v [] = refl
  lookup-insert k l v (e ∷ d) =
      if_elim (λ d'. lookup k d' ≡ (if same_key l k then some v else lookup k (e ∷ d)))
        (same_key e.key l) (record { key = l; value = v } ∷ d) (e ∷ insert l v d)
        (λ s. ground (arith, same_key_iff e.key l))
        λ s. ground (
          arith,
          lookup-insert k l v d,
          same_key_iff e.key k,
          same_key_iff l k,
          same_key_iff e.key l,
        )
