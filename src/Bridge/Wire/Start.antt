-- ===== src/Bridge/Wire/Start.antt =====
-- The negotiation of the framing: `RealtimeWireProtocol`, `_validate_v2_start` and what the bridge
-- adds to its start acknowledgement, of bridge/realtime_wire.py.
use ha_codex_voice.Prelude.{
  ℕ, String, Bool, true, false, not, ◌&&◌, Option, none, some, List, [], ◌∷◌, str_eq, if◌then◌else◌,
  all,
}
use ha_codex_voice.Prelude.Ints.{ℤ, pos, eqb_ℤ, leb_ℤ}
use ha_codex_voice.Prelude.Action.{Outcome, returned, raised, check, and_then}
use ha_codex_voice.Json.{
  Value, null, bool, int, text, array, object, Fields, end, field, get, has, keys, member,
  equals_text, plain_int, as_text, or_default, is_bounded,
}

-- The messages of `ProtocolError`; `unhashable` is the `TypeError` of looking a list or a dict up in
-- a set.
pub data WireFault : Type 0 where
  bad_version mode_needs_v2 json_audio_only binary_required not_an_integer : WireFault
  rate_out_of_range one_channel device_tools unsupported_fields bad_mode bad_text : WireFault
  unhashable : WireFault

-- `conversation_mode` is "native" or None.
pub record RealtimeWireProtocol : Type 0 where
  pub version : ℤ
  pub audio_transport : String
  pub input_sample_rate : ℤ
  pub input_channels : ℤ
  pub native_mode : Bool

abbrev pub v2_start_fields : List String
v2_start_fields =
    "audio_transport" ∷ "conversation_mode" ∷ "conversation_id" ∷ "input_channels"
    ∷ "input_sample_rate" ∷ "prompt" ∷ "protocol_version" ∷ "type" ∷ "voice" ∷ []

unfoldable pub uses_binary_audio : RealtimeWireProtocol → Bool
uses_binary_audio p = eqb_ℤ p.version (pos 2)

-- `_required_integer`
abbrev pub required_integer : Fields → String → Outcome WireFault ℤ
required_integer value key = elim (plain_int (get key value)) [
  | none ↦ raised not_an_integer
  | some z ↦ returned z
]

unfoldable pub optional_bounded_text : Fields → String → ℕ → Outcome WireFault (Unit {0})
optional_bounded_text value key maximum =
    if not (has key value)
    then returned tt
    else check (is_bounded maximum (as_text (get key value))) bad_text

unfoldable pub validate_v2_start : Fields → Outcome WireFault (Unit {0})
validate_v2_start start =
    if has "tools" start
    then raised device_tools
    else if not (all (λ k. member k v2_start_fields) (keys start))
    then raised unsupported_fields
    else if has "conversation_mode" start
        && not (equals_text "native" (get "conversation_mode" start))
    then raised bad_mode
    else and_then (optional_bounded_text start "conversation_id" 128) λ _.
      and_then (optional_bounded_text start "voice" 64)
        λ _. optional_bounded_text start "prompt" 4096

-- `start.get("audio_transport") not in {None, "json_base64"}`
abbrev pub check_json_transport : Option Value → Outcome WireFault (Unit {0})
check_json_transport none = returned tt
check_json_transport (some null) = returned tt
check_json_transport (some (text s)) = check (str_eq s "json_base64") json_audio_only
check_json_transport (some (array _)) = raised unhashable
check_json_transport (some (object _)) = raised unhashable
check_json_transport _ = raised json_audio_only

abbrev pub legacy_protocol : RealtimeWireProtocol
legacy_protocol = record {
  version = pos 1;
  audio_transport = "json_base64";
  input_sample_rate = pos 24000;
  input_channels = pos 1;
  native_mode = false;
}

unfoldable pub negotiate_legacy : Fields → Outcome WireFault RealtimeWireProtocol
negotiate_legacy start =
    if has "conversation_mode" start
    then raised mode_needs_v2
    else and_then (check_json_transport (get "audio_transport" start)) λ _. returned legacy_protocol

abbrev pub binary_protocol : ℤ → ℤ → Bool → RealtimeWireProtocol
binary_protocol sample_rate channels native = record {
  version = pos 2;
  audio_transport = "binary";
  input_sample_rate = sample_rate;
  input_channels = channels;
  native_mode = native;
}

abbrev pub in_range : ℤ → Bool
in_range rate = leb_ℤ (pos 8000) rate && leb_ℤ rate (pos 192000)

unfoldable pub negotiate_binary : Fields → Outcome WireFault RealtimeWireProtocol
negotiate_binary start =
    if not (equals_text "binary" (get "audio_transport" start))
    then raised binary_required
    else and_then (required_integer start "input_sample_rate") λ sample_rate.
      and_then (check (in_range sample_rate) rate_out_of_range) λ _.
        and_then (required_integer start "input_channels") λ channels.
          and_then (check (eqb_ℤ channels (pos 1)) one_channel) λ _.
            and_then (validate_v2_start start) λ _. returned (
              binary_protocol sample_rate channels
                (equals_text "native" (get "conversation_mode" start)))

unfoldable pub negotiate : Fields → Outcome WireFault RealtimeWireProtocol
negotiate start =
    elim (plain_int (some (or_default (get "protocol_version" start) (int (pos 1))))) [
      | none ↦ raised bad_version
      | some v ↦
          (if eqb_ℤ v (pos 1)
            then negotiate_legacy start
            else if eqb_ℤ v (pos 2)
            then negotiate_binary start
            else raised bad_version)
    ]

abbrev pub started_capabilities : Fields
started_capabilities = field "binary_pcm16" (bool true) (
    field "local_flush" (bool true)
      (field "remote_cancel" (bool false) (field "same_session_interrupt_ack" (bool true) end)))

-- `started_fields`: what the bridge adds to the acknowledgement.
unfoldable pub started_fields : RealtimeWireProtocol → Fields
started_fields p =
    if not (uses_binary_audio p)
    then end
    else field "protocol_version" (int p.version) (
        field "audio_transport" (text p.audio_transport) (
          field "input_sample_rate" (int p.input_sample_rate) (
            field "input_channels" (int p.input_channels) (
              field "output_sample_rate" (int (pos 24000)) (
                field "output_channels" (int (pos 1)) (
                  field "capabilities" (object started_capabilities) (
                    if p.native_mode
                    then field "conversation_mode" (text "native") end
                    else end)))))))
