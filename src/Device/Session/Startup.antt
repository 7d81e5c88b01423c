-- ===== src/Device/Session/Startup.antt =====
-- `_wait_for_started` of session.py: the network thread waits for the bridge's acknowledgement. A turn
-- of its loop is what the other threads, the clock and the connection give in it.
use ha_codex_voice.Prelude.{
  ℕ, Bool, true, false, not, Option, none, some, List, [], ◌∷◌, leb, if◌then◌else◌,
}
use ha_codex_voice.Prelude.Action.{Outcome, returned, raised, and_then}
use ha_codex_voice.Json.{Value, Fields, get, equals_text}
use ha_codex_voice.Device.WebSocket.Frame.{Fault}
use ha_codex_voice.Device.WebSocket.Connection.{Message, text, binary, pong}
use ha_codex_voice.Device.Session.Protocol.{
  json_object, validate_started, start_not_text, start_rejected,
}
use ha_codex_voice.Device.Session.Messages.{
  SessionFault, session_error, socket_error, startup_cancelled, timed_out, fail_session,
}

pub record Turn : Type 0 where
  -- a stop or an interruption is requested
  pub is_cancelled : Bool
  pub now : ℕ
  pub readable : Bool
  pub received : Outcome Fault (Option Message)

module _ (loads : List ℕ → Option Value) where
  -- What was received: true is the acknowledgement, false what is passed over.
  abbrev pub acknowledges : Fields → Outcome SessionFault Bool
  acknowledges value =
      if equals_text "error" (get "type" value)
      then raised (session_error start_rejected)
      else and_then (fail_session (validate_started value)) λ _. returned true

  abbrev pub on_received : Option Message → Outcome SessionFault Bool
  on_received none = returned false
  on_received (some (pong _)) = returned false
  on_received (some (binary _)) = raised (session_error start_not_text)
  on_received (some (text bytes)) = and_then (fail_session (json_object (loads bytes))) acknowledges

  abbrev pub receive_start : Outcome Fault (Option Message) → Outcome SessionFault Bool
  receive_start (raised e) = raised (socket_error e)
  receive_start (returned m) = on_received m

  unfoldable pub wait_turn : ℕ → Turn → Outcome SessionFault Bool
  wait_turn deadline t =
      if t.is_cancelled
      then raised startup_cancelled
      else if leb deadline t.now
      then raised timed_out
      else if not t.readable
      then returned false
      else receive_start t.received

  -- The loop over the turns; false while none has ended it.
  unfoldable pub wait_for_started : ℕ → List Turn → Outcome SessionFault Bool
  wait_for_started deadline [] = returned false
  wait_for_started deadline (t ∷ ts) =
      let rest = wait_for_started deadline ts in
      and_then (wait_turn deadline t) λ is_started. if is_started then returned true else rest
