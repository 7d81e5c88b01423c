-- ===== src/Json.antt =====
-- Decoded JSON as the Python code sees it (`json.loads`): the values, `dict.get`, `isinstance` tests
-- and equality with constants. A bool is an int for `==` and for `isinstance(v, int)`, a float equals
-- the int of the same value. A dict is a list of its entries with distinct keys.
use Prim.Native.Char.{code}
use ha_codex_voice.Prelude.{
  ℕ, ◌+◌, ◌-◌, ◌*◌, ◌^◌, String, Bool, true, false, Option, none, some, List, [], ◌∷◌, leb, ltb,
  str_eq, if◌then◌else◌, ◌&&◌, length,
}
use ha_codex_voice.Prelude.Ints.{ℤ, pos, negsuc, eqb_ℤ}

-- A finite float is m / 2^e.
pub data Float : Type 0 where
  dyadic : ℤ → ℕ → Float
  infinite : Bool → Float
  nan : Float

mutual
  pub data Value : Type 0 where
    null : Value
    bool : Bool → Value
    int : ℤ → Value
    float : Float → Value
    text : String → Value
    array : Items → Value
    object : Fields → Value

  pub data Items : Type 0 where
    nil : Items
    cons : Value → Items → Items

  pub data Fields : Type 0 where
    end : Fields
    field : String → Value → Fields → Fields

-- `d.get(key)`, where a missing key is `none`
unfoldable pub get : String → Fields → Option Value
get key end = none
get key (field k v rest) = if str_eq k key then some v else get key rest

-- `key in d`
abbrev pub has : String → Fields → Bool
has key d = elim (get key d) [ none ↦ false | some _ ↦ true ]

unfoldable pub keys : Fields → List String
keys end = []
keys (field k v rest) = k ∷ keys rest

-- z * 2^e
abbrev pub scale : ℤ → ℕ → ℤ
scale (pos n) e = pos (n * 2 ^ e)
scale (negsuc n) e = negsuc ((n + 1) * 2 ^ e - 1)

-- `v == n` for an int n
abbrev pub equals_int : ℤ → Option Value → Bool
equals_int n (some (int z)) = eqb_ℤ z n
equals_int n (some (bool true)) = eqb_ℤ (pos 1) n
equals_int n (some (bool false)) = eqb_ℤ (pos 0) n
equals_int n (some (float (dyadic m e))) = eqb_ℤ m (scale n e)
equals_int n _ = false

-- `v == "..."`
abbrev pub equals_text : String → Option Value → Bool
equals_text s (some (text t)) = str_eq t s
equals_text s _ = false

-- `v is True` and `v is False`
abbrev pub is_bool : Bool → Option Value → Bool
is_bool true (some (bool true)) = true
is_bool false (some (bool false)) = true
is_bool _ _ = false

-- `isinstance(v, int) and not isinstance(v, bool)`
abbrev pub plain_int : Option Value → Option ℤ
plain_int (some (int z)) = some z
plain_int _ = none

-- `isinstance(v, str)`
abbrev pub as_text : Option Value → Option String
as_text (some (text s)) = some s
as_text _ = none

-- `isinstance(v, dict)`, and `isinstance(v, Mapping)` of decoded JSON
abbrev pub as_object : Option Value → Option Fields
as_object (some (object d)) = some d
as_object _ = none

-- The code points of a text, and `len(s)`.
abbrev pub codes : String → List ℕ
codes String.[] = []
codes (String.◌∷◌ c s) = code c ∷ codes s

unfoldable pub text_length : String → ℕ
text_length s = length (codes s)

-- `s in {...}`
unfoldable pub member : String → List String → Bool
member s [] = false
member s (t ∷ ts) = if str_eq s t then true else member s ts

-- `d.get(key, default)`
abbrev pub or_default : Option Value → Value → Value
or_default none v = v
or_default (some w) v = w

-- `isinstance(v, str)` and the text
abbrev pub text_or_none : Value → Option String
text_or_none (text s) = some s
text_or_none _ = none

-- A text that is not empty, of at most `maximum` characters.
abbrev pub is_bounded : ℕ → Option String → Bool
is_bounded maximum none = false
is_bounded maximum (some s) = ltb 0 (text_length s) && leb (text_length s) maximum
