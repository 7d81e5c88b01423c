-- ===== src/Bridge/Wire/Handshake.antt =====
-- The start handshake of the two ends: the device's start message, the bridge's negotiation and
-- acknowledgement (the `started` object of bridge/service.py), the device's check of it.
use ha_codex_voice.Prelude.{ℕ, ◌≡◌, refl, String, Bool, true, Option, none, some, arith}
use ha_codex_voice.Prelude.Ints.{pos}
use ha_codex_voice.Prelude.Action.{returned}
use ha_codex_voice.Json.{Value, int, text, Fields, field, get, keys, member}
use ha_codex_voice.Device.Config.{
  optional_voice, optional_prompt, optional_voice_lem, optional_prompt_lem, IsBounded,
  realtime_start_message,
}
use ha_codex_voice.Device.Session.Protocol.{validate_started, is_expected, check_capabilities}
use ha_codex_voice.Bridge.Wire.Start.{
  RealtimeWireProtocol, negotiate, binary_protocol, started_fields, uses_binary_audio,
}
use ha_codex_voice.Bridge.Wire.Negotiate.{IsBinaryStart, negotiate_complete}

-- `websocket.send_json({"type": "started", ..., **wire_protocol.started_fields()})`
unfoldable pub started_message : Value → Value → Value → Value → RealtimeWireProtocol → Fields
started_message conversation_id thread_id realtime_session_id version p =
    field "type" (text "started") (
      field "conversation_id" conversation_id (
        field "thread_id" thread_id (
          field "realtime_session_id" realtime_session_id (
            field "version" version (
              field "sample_rate" (int (pos 24000))
                (field "channels" (int (pos 1)) (started_fields p)))))))

start_message-IsBinaryStart :
    (voice prompt : Option String)
    → IsBounded 64 voice
    → IsBounded 1024 prompt
    → IsBinaryStart 16000 true (realtime_start_message voice prompt)
unfolding realtime_start_message get keys member
start_message-IsBinaryStart none none hv hp = ground arith
start_message-IsBinaryStart none (some p) hv hp = ground arith
start_message-IsBinaryStart (some v) none hv hp = ground arith
start_message-IsBinaryStart (some v) (some p) hv hp = ground arith

acknowledged :
    (conversation_id thread_id realtime_session_id version : Value)
    → let p = binary_protocol (pos 16000) (pos 1) true in
      validate_started (started_message conversation_id thread_id realtime_session_id version p)
      ≡ returned tt
unfolding validate_started is_expected check_capabilities started_message started_fields
    uses_binary_audio get
acknowledged conversation_id thread_id realtime_session_id version = refl

-- With any device configuration whose voice and prompt the device accepts, the two ends agree: the
-- bridge accepts the device's start message as binary native audio at 16000 Hz with one channel, and
-- the device accepts the acknowledgement that the bridge then sends.
pub handshake_agrees :
    (is_space is_printable : ℕ → Bool) (value : Fields) (voice prompt : Option String)
    → optional_voice value ≡ returned voice
    → optional_prompt is_space is_printable value ≡ returned prompt
    → (conversation_id thread_id realtime_session_id version : Value)
    → let p = binary_protocol (pos 16000) (pos 1) true in
      (negotiate (realtime_start_message voice prompt) ≡ returned p)
      × (uses_binary_audio p ≡ true)
      × (validate_started (started_message conversation_id thread_id realtime_session_id version p)
          ≡ returned tt)
unfolding uses_binary_audio
handshake_agrees is_space is_printable value voice prompt hv hp conversation_id thread_id
      realtime_session_id version =
    (
      negotiate_complete 16000 true _ (
          start_message-IsBinaryStart voice prompt (optional_voice_lem value voice hv)
            (optional_prompt_lem is_space is_printable value prompt hp)),
      refl,
      acknowledged conversation_id thread_id realtime_session_id version,
    )
