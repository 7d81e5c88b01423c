-- ===== src/Bridge/Wire/Negotiate.antt =====
-- About `negotiate` of bridge/realtime_wire.py, against the two documented kinds of start.
use Prim.Native.String.{String}
use ha_codex_voice.Prelude.{
  ℕ, ◌≤◌, ◌≡◌, ◌↔◌, sym, ap, ◌∙◌, ◌⊎◌, inl, inr, refl, Bool, true, false, not, ◌&&◌, Option, none,
  some, str_eq_iff, if◌then◌else◌, all, arith,
}
use ha_codex_voice.Prelude.Ints.{ℤ, pos, pos_part, eqb_ℤ}
use ha_codex_voice.Prelude.Action.{Outcome, returned, raised, check, and_then}
use ha_codex_voice.Json.{
  Value, null, bool, int, float, text, array, object, Fields, get, has, keys, member, equals_text,
  plain_int, as_text, text_length,
}
use ha_codex_voice.Bridge.Wire.Start.{
  RealtimeWireProtocol, negotiate, negotiate_legacy, negotiate_binary, validate_v2_start,
  optional_bounded_text, legacy_protocol, binary_protocol, v2_start_fields, in_range,
  check_json_transport, required_integer,
}

-- A key that is missing, or a text of 1 to `maximum` characters.
abbrev pub IsPreference : Fields → String → ℕ → Type 0
IsPreference start key maximum =
    (get key start ≡ none)
    ⊎ ((s : String) × (get key start ≡ some (text s))
        × (1 ≤ text_length s)
        × (text_length s ≤ maximum))

pub record IsLegacyStart (start : Fields) : Type 0 where
  pub version :
      (get "protocol_version" start ≡ none) ⊎ (get "protocol_version" start ≡ some (int (pos 1)))
  pub no_mode : get "conversation_mode" start ≡ none
  pub transport :
      (get "audio_transport" start ≡ none)
      ⊎ (get "audio_transport" start ≡ some null)
      ⊎ (get "audio_transport" start ≡ some (text "json_base64"))

pub record IsBinaryStart (rate : ℕ) (native : Bool) (start : Fields) : Type 0 where
  pub version : get "protocol_version" start ≡ some (int (pos 2))
  pub transport : get "audio_transport" start ≡ some (text "binary")
  pub input_rate : get "input_sample_rate" start ≡ some (int (pos rate))
  pub at_least : 8000 ≤ rate
  pub at_most : rate ≤ 192000
  pub channels : get "input_channels" start ≡ some (int (pos 1))
  pub no_tools : get "tools" start ≡ none
  pub known : all (λ k. member k v2_start_fields) (keys start) ≡ true
  pub mode : get "conversation_mode" start ≡ (if native then some (text "native") else none)
  pub conversation_id : IsPreference start "conversation_id" 128
  pub voice : IsPreference start "voice" 64
  pub prompt : IsPreference start "prompt" 4096

equals_text_lem : (s : String) (v : Option Value) → equals_text s v ≡ true → v ≡ some (text s)
equals_text_lem s (some (text t)) h = rw ((str_eq_iff t s).0 h) refl
equals_text_lem s none h = ground arith
equals_text_lem s (some null) h = ground arith
equals_text_lem s (some (bool _)) h = ground arith
equals_text_lem s (some (int _)) h = ground arith
equals_text_lem s (some (float _)) h = ground arith
equals_text_lem s (some (array _)) h = ground arith
equals_text_lem s (some (object _)) h = ground arith

equals_text_refl : (s : String) → equals_text s (some (text s)) ≡ true
equals_text_refl s = (str_eq_iff s s).1 refl

as_text_lem : (v : Option Value) (s : String) → as_text v ≡ some s → v ≡ some (text s)
as_text_lem v s h = ground arith

plain_int_lem : (v : Option Value) (z : ℤ) → plain_int v ≡ some z → v ≡ some (int z)
plain_int_lem v z h = ground arith

required_integer_lem :
    (start : Fields) (key : String) (z : ℤ)
    → required_integer start key ≡ returned z
    → get key start ≡ some (int z)
required_integer_lem start key z h = ground arith

eqb_ℤ_lem : (z : ℤ) (n : ℕ) → eqb_ℤ z (pos n) ≡ true → z ≡ pos n
eqb_ℤ_lem z n h = ground arith

in_range_lem : (z : ℤ) → in_range z ≡ true → (n : ℕ) × (z ≡ pos n) × (8000 ≤ n) × (n ≤ 192000)
in_range_lem z h = ground arith

module _ {E A B : Type 0} where
  and_then_lem :
      (r : Outcome E A) (f : A → Outcome E B) (b : B)
      → and_then r f ≡ returned b
      → (a : A) × (r ≡ returned a) × (f a ≡ returned b)
  and_then_lem (returned a) f b h = (a, refl, h)
  and_then_lem (raised e) f b h = ground arith

check_lem : {E : Type 0} (b : Bool) (e : E) (u : Unit {0}) → check b e ≡ returned u → b ≡ true
check_lem true e u h = refl
check_lem false e u h = ground arith

optional_bounded_text_lem :
    (start : Fields) (key : String) (maximum : ℕ) (u : Unit {0})
    → optional_bounded_text start key maximum ≡ returned u
    → IsPreference start key maximum
unfolding optional_bounded_text
optional_bounded_text_lem start key maximum u h = ground arith

optional_bounded_text_complete :
    (start : Fields) (key : String) (maximum : ℕ)
    → IsPreference start key maximum
    → optional_bounded_text start key maximum ≡ returned tt
unfolding optional_bounded_text
optional_bounded_text_complete start key maximum h = ground arith

mode_lem :
    (start : Fields)
    → (has "conversation_mode" start && not (equals_text "native" (get "conversation_mode" start)))
      ≡ false
    → get "conversation_mode" start ≡ (
        if equals_text "native" (get "conversation_mode" start) then some (text "native") else none)
mode_lem start h = ground (arith, equals_text_lem "native" (get "conversation_mode" start))

record Checked (start : Fields) : Type 0 where
  no_tools : get "tools" start ≡ none
  known : all (λ k. member k v2_start_fields) (keys start) ≡ true
  mode : get "conversation_mode" start ≡ (
      if equals_text "native" (get "conversation_mode" start) then some (text "native") else none)
  conversation_id : IsPreference start "conversation_id" 128
  voice : IsPreference start "voice" 64
  prompt : IsPreference start "prompt" 4096

validate_v2_start_lem :
    (start : Fields) (u : Unit {0}) → validate_v2_start start ≡ returned u → Checked start
unfolding validate_v2_start
validate_v2_start_lem start u h = ground (
  arith,
  mode_lem start,
  optional_bounded_text_lem start "conversation_id" 128 tt,
  optional_bounded_text_lem start "voice" 64 tt,
  optional_bounded_text_lem start "prompt" 4096 tt,
)

abbrev pub IsBinary : Fields → RealtimeWireProtocol → Type 0
IsBinary start p =
    IsBinaryStart (pos_part p.input_sample_rate) p.native_mode start
    × (p ≡ binary_protocol (pos (pos_part p.input_sample_rate)) (pos 1) p.native_mode)

negotiate_binary_lem :
    (start : Fields) (p : RealtimeWireProtocol)
    → negotiate_binary start ≡ returned p
    → get "protocol_version" start ≡ some (int (pos 2))
    → IsBinary start p
unfolding negotiate_binary
negotiate_binary_lem start p h v =
    ground (
      arith,
      equals_text_lem "binary" (get "audio_transport" start),
      validate_v2_start_lem start tt,
    )

json_transport_lem :
    (v : Option Value)
    → check_json_transport v ≡ returned tt
    → (v ≡ none) ⊎ (v ≡ some null) ⊎ (v ≡ some (text "json_base64"))
json_transport_lem none h = inl refl
json_transport_lem (some null) h = inr (inl refl)
json_transport_lem (some (text s)) h =
    inr (inr (rw ((str_eq_iff s "json_base64").0 (check_lem _ _ _ h)) refl))
json_transport_lem (some (bool _)) h = ground arith
json_transport_lem (some (int _)) h = ground arith
json_transport_lem (some (float _)) h = ground arith
json_transport_lem (some (array _)) h = ground arith
json_transport_lem (some (object _)) h = ground arith

negotiate_legacy_lem :
    (start : Fields) (p : RealtimeWireProtocol)
    → negotiate_legacy start ≡ returned p
    → (get "protocol_version" start ≡ none) ⊎ (get "protocol_version" start ≡ some (int (pos 1)))
    → IsLegacyStart start × (p ≡ legacy_protocol)
unfolding negotiate_legacy
negotiate_legacy_lem start p h v = ground (arith, json_transport_lem (get "audio_transport" start))

negotiate_sound :
    (start : Fields) (p : RealtimeWireProtocol)
    → negotiate start ≡ returned p
    → (IsLegacyStart start × (p ≡ legacy_protocol)) ⊎ IsBinary start p
unfolding negotiate
negotiate_sound start p h =
    ground (arith, negotiate_binary_lem start p, negotiate_legacy_lem start p)

validate_v2_start_complete :
    (rate : ℕ) (native : Bool) (start : Fields)
    → IsBinaryStart rate native start
    → validate_v2_start start ≡ returned tt
unfolding validate_v2_start
validate_v2_start_complete rate native start h = ground (
  arith,
  equals_text_refl "native",
  optional_bounded_text_complete start "conversation_id" 128 h.conversation_id,
  optional_bounded_text_complete start "voice" 64 h.voice,
  optional_bounded_text_complete start "prompt" 4096 h.prompt,
)

pub negotiate_complete :
    (rate : ℕ) (native : Bool) (start : Fields)
    → IsBinaryStart rate native start
    → negotiate start ≡ returned (binary_protocol (pos rate) (pos 1) native)
unfolding negotiate negotiate_binary
negotiate_complete rate native start h = ground (
  arith,
  equals_text_refl "native",
  equals_text_refl "binary",
  validate_v2_start_complete rate native start h,
)

negotiate_legacy_complete :
    (start : Fields) → IsLegacyStart start → negotiate start ≡ returned legacy_protocol
unfolding negotiate negotiate_legacy
negotiate_legacy_complete start h = ground (arith, equals_text_refl "json_base64")

-- The bridge accepts exactly two kinds of start: a legacy one, or a binary one with a rate from 8000
-- to 192000 Hz, one channel, no unknown field and bounded preferences; and the protocol it answers
-- with says what the start says.
pub negotiate_iff :
    (start : Fields) (p : RealtimeWireProtocol)
    → (negotiate start ≡ returned p)
      ↔ ((IsLegacyStart start × (p ≡ legacy_protocol)) ⊎ IsBinary start p)
negotiate_iff start p = (negotiate_sound start p, accepted)
  where
    accepted :
        (IsLegacyStart start × (p ≡ legacy_protocol)) ⊎ IsBinary start p
        → negotiate start ≡ returned p
    accepted (inl (h, e)) = rw e (negotiate_legacy_complete start h)
    accepted (inr (h, e)) = negotiate_complete _ _ start h ∙ ap returned (sym e)
