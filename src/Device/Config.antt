-- ===== src/Device/Config.antt =====
-- The session preferences and the start message of the device, realtime_client/config.py. The
-- Unicode tables behind `str.strip` and `str.isprintable` are arguments.
use ha_codex_voice.Prelude.{
  ℕ, ◌≤◌, ◌≡◌, String, Bool, true, false, not, ◌&&◌, ◌||◌, Option, none, some, List, [], ◌∷◌, leb,
  ltb, ◌==◌, if◌then◌else◌, all, any, length, arith,
}
use ha_codex_voice.Prelude.Ints.{pos}
use ha_codex_voice.Prelude.Action.{Outcome, returned, raised}
use ha_codex_voice.Json.{int, text, Fields, end, field, get, has, as_text, codes, text_length}
use ha_codex_voice.Texts.{is_alpha, is_alnum, lower, text_length-lower}

pub data ConfigError : Type 0 where
  bad_voice bad_prompt unprintable_prompt : ConfigError

-- `[A-Za-z][A-Za-z0-9_-]{0,63}\Z`, matched in full.
unfoldable pub is_voice_name : List ℕ → Bool
is_voice_name [] = false
is_voice_name (c ∷ cs) =
    is_alpha c && (all (λ d. is_alnum d || (d == 95 || d == 45)) cs && leb (length cs) 63)

abbrev lowered_voice : Option String → Outcome ConfigError (Option String)
lowered_voice none = raised bad_voice
lowered_voice (some candidate) =
    if is_voice_name (codes candidate) then returned (some (lower candidate)) else raised bad_voice

unfoldable pub optional_voice : Fields → Outcome ConfigError (Option String)
optional_voice value =
    if not (has "voice" value) then returned none else lowered_voice (as_text (get "voice" value))

module _ (is_space is_printable : ℕ → Bool) where
  abbrev checked_prompt : Option String → Outcome ConfigError (Option String)
  checked_prompt none = raised bad_prompt
  checked_prompt (some candidate) =
      if all is_space (codes candidate) || ltb 1024 (text_length candidate)
      then raised bad_prompt
      else if any (λ c. not (is_printable c)) (codes candidate)
      then raised unprintable_prompt
      else returned (some candidate)

  unfoldable pub optional_prompt : Fields → Outcome ConfigError (Option String)
  optional_prompt value =
      if not (has "prompt" value)
      then returned none
      else checked_prompt (as_text (get "prompt" value))

-- A text, if there is one, has 1 to `maximum` characters.
abbrev pub IsBounded : ℕ → Option String → Type 0
IsBounded maximum none = Unit
IsBounded maximum (some s) = (1 ≤ text_length s) × (text_length s ≤ maximum)

is_voice_name-length : (cs : List ℕ) → is_voice_name cs ≡ true → (1 ≤ length cs) × (length cs ≤ 64)
unfolding is_voice_name
is_voice_name-length [] h = ground arith
is_voice_name-length (c ∷ cs) h = ground arith

lowered_voice_lem : (o v : Option String) → lowered_voice o ≡ returned v → IsBounded 64 v
unfolding text_length
lowered_voice_lem none v h = ground arith
lowered_voice_lem (some c) v h = ground (arith, is_voice_name-length (codes c), text_length-lower c)

pub optional_voice_lem :
    (value : Fields) (v : Option String) → optional_voice value ≡ returned v → IsBounded 64 v
unfolding optional_voice
optional_voice_lem value v h = ground (arith, lowered_voice_lem (as_text (get "voice" value)) v)

not_all : (f : ℕ → Bool) (cs : List ℕ) → all f cs ≡ false → 1 ≤ length cs
not_all f [] h = ground arith
not_all f (c ∷ cs) h = omega arith

checked_prompt_lem :
    (is_space is_printable : ℕ → Bool) (o p : Option String)
    → checked_prompt is_space is_printable o ≡ returned p
    → IsBounded 1024 p
unfolding text_length
checked_prompt_lem is_space is_printable none p h = ground arith
checked_prompt_lem is_space is_printable (some c) p h = ground (arith, not_all is_space (codes c))

pub optional_prompt_lem :
    (is_space is_printable : ℕ → Bool) (value : Fields) (p : Option String)
    → optional_prompt is_space is_printable value ≡ returned p
    → IsBounded 1024 p
unfolding optional_prompt
optional_prompt_lem is_space is_printable value p h =
    ground (arith, checked_prompt_lem is_space is_printable (as_text (get "prompt" value)) p)

-- `value[key] = candidate`, unless it is None
abbrev pub preference : String → Option String → Fields → Fields
preference key none rest = rest
preference key (some s) rest = field key (text s) rest

unfoldable pub realtime_start_message : Option String → Option String → Fields
realtime_start_message voice prompt = field "type" (text "start") (
    field "protocol_version" (int (pos 2)) (
      field "conversation_mode" (text "native") (
        field "audio_transport" (text "binary") (
          field "input_sample_rate" (int (pos 16000)) (
            field "input_channels" (int (pos 1))
              (preference "voice" voice (preference "prompt" prompt end)))))))
