-- ===== src/Texts.antt =====
-- What the program uses of Python's `str` methods on ASCII texts, which it tests for first.
use Prim.Native.Char.{Char, code, nul}
use ha_codex_voice.Prelude.{
  ℕ, zero, suc, ◌-◌, ◌≡◌, refl, ap, String, Bool, ◌&&◌, ◌||◌, leb, if◌then◌else◌,
}
use ha_codex_voice.Json.{text_length}

abbrev pub is_upper : ℕ → Bool
is_upper c = leb 65 c && leb c 90

abbrev pub is_lower : ℕ → Bool
is_lower c = leb 97 c && leb c 122

abbrev pub is_alpha : ℕ → Bool
is_alpha c = is_upper c || is_lower c

abbrev pub is_alnum : ℕ → Bool
is_alnum c = is_alpha c || leb 48 c && leb c 57

abbrev letter : ℕ → String → Char
letter n String.[] = nul
letter zero (String.◌∷◌ c s) = c
letter (suc n) (String.◌∷◌ c s) = letter n s

abbrev pub lower_char : Char → Char
lower_char c = if is_upper (code c) then letter (code c - 65) "abcdefghijklmnopqrstuvwxyz" else c

abbrev pub upper_char : Char → Char
upper_char c = if is_lower (code c) then letter (code c - 97) "ABCDEFGHIJKLMNOPQRSTUVWXYZ" else c

abbrev pub map_text : (Char → Char) → String → String
map_text f String.[] = String.[]
map_text f (String.◌∷◌ c s) = String.◌∷◌ (f c) (map_text f s)

-- `s.lower()`, `s.upper()` and `s.title()` of an ASCII text; `title` of one word.
unfoldable pub lower : String → String
lower s = map_text lower_char s

unfoldable pub upper : String → String
upper s = map_text upper_char s

unfoldable pub title : String → String
title String.[] = String.[]
title (String.◌∷◌ c s) = String.◌∷◌ (upper_char c) (map_text lower_char s)

text_length-map_text : (f : Char → Char) (s : String) → text_length (map_text f s) ≡ text_length s
unfolding text_length
text_length-map_text f String.[] = refl
text_length-map_text f (String.◌∷◌ c s) = ap suc (text_length-map_text f s)

pub text_length-lower : (s : String) → text_length (lower s) ≡ text_length s
unfolding lower
text_length-lower s = text_length-map_text lower_char s

pub text_length-upper : (s : String) → text_length (upper s) ≡ text_length s
unfolding upper
text_length-upper s = text_length-map_text upper_char s

pub text_length-title : (s : String) → text_length (title s) ≡ text_length s
unfolding title text_length
text_length-title String.[] = refl
text_length-title (String.◌∷◌ c s) = ap suc (text_length-map_text lower_char s)
