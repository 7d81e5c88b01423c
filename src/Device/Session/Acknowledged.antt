-- ===== src/Device/Session/Acknowledged.antt =====
-- About `_wait_for_started` of session.py.
use ha_codex_voice.Prelude.{
  ℕ, ◌<◌, ◌≡◌, ◌≢◌, ◌⊎◌, inl, inr, refl, Bool, true, false, ◌||◌, Option, none, some, List, [], ◌∷◌,
  leb, any, if◌then◌else◌, arith,
}
use ha_codex_voice.Prelude.Action.{Outcome, returned, raised, and_then}
use ha_codex_voice.Json.{Value, null, bool, int, float, array, object, Fields, get, equals_text}
use ha_codex_voice.Device.WebSocket.Frame.{Fault}
use ha_codex_voice.Device.WebSocket.Connection.{Message, text, binary, pong}
use ha_codex_voice.Device.Session.Protocol.{json_object, validate_started}
use ha_codex_voice.Device.Session.Messages.{SessionFault, fail_session}
use ha_codex_voice.Device.Session.Startup.{
  Turn, acknowledges, receive_start, wait_turn, wait_for_started,
}

module _ (loads : List ℕ → Option Value) (deadline : ℕ) where
  -- The turn brought an object that the device's check accepts.
  abbrev pub Brings : Outcome Fault (Option Message) → Type 0
  Brings received =
      (bytes : List ℕ) × (value : Fields) × (received ≡ returned (some (text bytes)))
      × (loads bytes ≡ some (object value))
      × (validate_started value ≡ returned tt)

  abbrev pub IsTimely : Turn → Type 0
  IsTimely t = (t.is_cancelled ≡ false) × (t.now < deadline)

  -- One of the turns brought it, and that one and those before were in time and not cancelled.
  abbrev pub IsAcknowledged : List Turn → Type 0
  IsAcknowledged [] = ⊥
  IsAcknowledged (t ∷ ts) = IsTimely t × (Brings t.received ⊎ IsAcknowledged ts)

  on_text_lem :
      (bytes : List ℕ) (v : Option Value)
      → loads bytes ≡ v
      → and_then (fail_session (json_object v)) (acknowledges loads) ≡ returned true
      → Brings (returned (some (text bytes)))
  unfolding json_object
  on_text_lem bytes none e h = ground arith
  on_text_lem bytes (some (object value)) e h = (bytes, value, refl, e, ground arith)
  on_text_lem bytes (some null) e h = ground arith
  on_text_lem bytes (some (bool _)) e h = ground arith
  on_text_lem bytes (some (int _)) e h = ground arith
  on_text_lem bytes (some (float _)) e h = ground arith
  on_text_lem bytes (some (ha_codex_voice.Json.text _)) e h = ground arith
  on_text_lem bytes (some (array _)) e h = ground arith

  receive_start_lem :
      (r : Outcome Fault (Option Message)) → receive_start loads r ≡ returned true → Brings r
  receive_start_lem (raised e) h = ground arith
  receive_start_lem (returned none) h = ground arith
  receive_start_lem (returned (some (pong _))) h = ground arith
  receive_start_lem (returned (some (binary _))) h = ground arith
  receive_start_lem (returned (some (text bytes))) h = on_text_lem bytes (loads bytes) refl h

  wait_turn_lem :
      (t : Turn) (b : Bool)
      → wait_turn loads deadline t ≡ returned b
      → IsTimely t × (b ≡ true → receive_start loads t.received ≡ returned true)
  unfolding wait_turn
  wait_turn_lem t b h = ground arith

  -- The wait succeeds only when a turn brings a text that decodes to an acknowledgement the device's
  -- check accepts, and neither that turn nor one before it was cancelled or past the deadline.
  pub wait_for_started-IsAcknowledged :
      (ts : List Turn) → wait_for_started loads deadline ts ≡ returned true → IsAcknowledged ts
  unfolding wait_for_started
  wait_for_started-IsAcknowledged [] h = ground arith
  wait_for_started-IsAcknowledged (t ∷ ts) h =
      go (wait_turn loads deadline t) refl h (wait_for_started-IsAcknowledged ts)
    where
      go :
          (r : Outcome SessionFault Bool)
          → wait_turn loads deadline t ≡ r
          → and_then r (λ b. if b then returned true else wait_for_started loads deadline ts)
            ≡ returned true
          → (wait_for_started loads deadline ts ≡ returned true → IsAcknowledged ts)
          → IsAcknowledged (t ∷ ts)
      go (raised e) w h k = ground arith
      go (returned true) w h k =
          let (timely, received) = wait_turn_lem t true w in
          (timely, inl (receive_start_lem t.received (received refl)))
      go (returned false) w h k = ((wait_turn_lem t false w).0, inr (k h))

  -- a turn that must end the wait
  abbrev pub is_final : Turn → Bool
  is_final t = t.is_cancelled || leb deadline t.now

  wait_turn-is_final :
      (t : Turn) (b : Bool) → is_final t ≡ true → wait_turn loads deadline t ≢ returned b
  unfolding wait_turn
  wait_turn-is_final t b f h = ground arith

  -- The wait does not outlast a turn that is cancelled or past the deadline.
  pub wait_for_started-ends :
      (ts : List Turn)
      → any is_final ts ≡ true
      → wait_for_started loads deadline ts ≢ returned false
  unfolding wait_for_started
  wait_for_started-ends [] f h = ground arith
  wait_for_started-ends (t ∷ ts) f h =
      ground
        (arith, wait_turn-is_final t false, wait_turn-is_final t true, wait_for_started-ends ts)
