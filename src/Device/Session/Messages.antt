-- ===== src/Device/Session/Messages.antt =====
-- `_handle_message` and `_flush_local_barge_in` of session.py: what the network thread does to the
-- session and the player.
use ha_codex_voice.Prelude.{
  ℕ, zero, suc, Bool, true, false, not, ◌&&◌, ◌||◌, Option, none, some, is_some, List, leb, ltb,
  ◌==◌, if◌then◌else◌,
}
use ha_codex_voice.Prelude.Action.{
  Outcome, returned, raised, Action, pure, lift, modify, ◌>>=◌, ◌>>◌,
}
use ha_codex_voice.Json.{Fields, get, equals_text, is_bool}
use ha_codex_voice.Device.WebSocket.Frame.{Fault}
use ha_codex_voice.Device.Session.Player.{
  Player, Paplay, PlayerError, PlayerMethod, active, abort, enqueue, begin, finish,
}
use ha_codex_voice.Device.Session.State.{Session, set_local_output_epoch}
use ha_codex_voice.Device.Session.Protocol.{
  SessionError, overlapping_epochs, future_stop, stop_mismatch, binary_outside_epoch,
  incompatible_interrupt,
}

-- What ends an iteration of `_run` by an exception.
pub data SessionFault : Type 0 where
  session_error : SessionError → SessionFault
  player_error : PlayerError → SessionFault
  socket_error : Fault → SessionFault
  -- the volume guard refused, or the startup was cancelled, or timed out
  guard_refused startup_cancelled timed_out : SessionFault

-- What the network thread owns or shares, but for the socket.
pub record Desk : Type 0 where
  pub session : Session
  pub player : Player

abbrev pub DeskMethod : Type 0 → Type 0
DeskMethod = Action Desk SessionFault

abbrev pub on_session : (Session → Session) → Desk → Desk
on_session f d = record d { session = f d.session }

abbrev pub fail_player : Outcome PlayerError (Unit {0}) → Outcome SessionFault (Unit {0})
fail_player (returned u) = returned u
fail_player (raised e) = raised (player_error e)

-- a player's method on the desk
abbrev pub on_player : PlayerMethod (Unit {0}) → DeskMethod (Unit {0})
on_player m d = let (r, p) = m d.player in (fail_player r, record d { player = p })

abbrev pub fail_session {ℓ} : {A : Type ℓ} → Outcome SessionError A → Outcome SessionFault A
fail_session (returned a) = returned a
fail_session (raised e) = raised (session_error e)

pub data Ending : Type 0 where
  ends_stop ends_interrupted ends_resumed : Ending

-- The tuple that `_handle_message` returns.
pub record Reply : Type 0 where
  pub action : Option Ending
  pub output_epoch : Option ℕ
  pub last_output_epoch : ℕ
  pub semantic : Bool

abbrev pub reply : Option Ending → Option ℕ → ℕ → Bool → Reply
reply a o l s = record { action = a; output_epoch = o; last_output_epoch = l; semantic = s }

abbrev pub suppress : Option ℕ → Desk → Desk
suppress e d = record d { session = record d.session { suppressed_output_epoch = e } }

-- `output_epoch or last_output_epoch`
abbrev pub or_last : Option ℕ → ℕ → ℕ
or_last none last = last
or_last (some zero) last = last
or_last (some (suc e)) last = suc e

-- The local flush: no epoch is published, and the player is aborted.
abbrev pub silence : Desk → Desk
silence d = record d { session = set_local_output_epoch none d.session; player = abort d.player }

-- What the process outside gives: the paplay child, and whether the volume guard lets the next
-- response start.
pub record Speaker : Type 0 where
  pub child : Paplay
  pub volume_ok : ℕ → Bool

unfoldable pub handle_binary : Option ℕ → ℕ → List ℕ → DeskMethod Reply
handle_binary none last bytes d =
    if is_some d.session.suppressed_output_epoch
    then (returned (reply none none last false), d)
    else (raised (session_error binary_outside_epoch), d)
handle_binary (some epoch) last bytes d =
    (on_player (enqueue bytes) >> pure (reply none (some epoch) last true)) d

module _ (speaker : Speaker) where
  unfoldable pub start_speaking : ℕ → DeskMethod Reply
  start_speaking epoch d =
      let fresh = suppress none d in
      if d.session.config.full_duplex && not (speaker.volume_ok d.player.started)
      then (raised guard_refused, fresh)
      else (on_player (begin speaker.child epoch)
            >> (modify (on_session (set_local_output_epoch (some epoch)))
                >> pure (reply none (some epoch) epoch true)))
          (on_session (set_local_output_epoch none) fresh)

  unfoldable pub speaking_started : Option ℕ → ℕ → ℕ → DeskMethod Reply
  speaking_started output_epoch last epoch d =
      if leb epoch last
      then (returned (reply none output_epoch last false), d)
      else if is_some output_epoch
      then (raised (session_error overlapping_epochs), d)
      else start_speaking epoch d

  abbrev pub is_epoch : Option ℕ → ℕ → Bool
  is_epoch none e = false
  is_epoch (some d) e = d == e

  unfoldable pub speaking_stopped : Option ℕ → ℕ → ℕ → DeskMethod Reply
  speaking_stopped none last epoch d =
      if is_epoch d.session.suppressed_output_epoch epoch
      then (returned (reply none none last true), suppress none d)
      else if leb epoch last
      then (returned (reply none none last false), d)
      else (raised (session_error future_stop), d)
  speaking_stopped (some current) last epoch d =
      if not (epoch == current)
      then (if ltb epoch current
          then (returned (reply none (some current) last false), d)
          else (raised (session_error stop_mismatch), d))
      else (on_player (finish speaker.child epoch) >> pure (reply none none last true)) d

-- `input_audio_buffer.speech_started`
unfoldable pub speech_started : Option ℕ → ℕ → Desk → Reply × Desk
speech_started output_epoch last d =
    let suppressed = or_last output_epoch last in
    if d.session.config.full_duplex && (is_some output_epoch || active d.player)
    then (
      reply none none last true,
      (if ltb 0 suppressed then suppress (some suppressed) (silence d) else silence d),
    )
    else (reply none output_epoch last true, d)

-- The `reason` and flags of a `stopped` message.
unfoldable pub stop_ending : Fields → Outcome SessionError Ending
stop_ending value =
    let fresh = get "fresh_session_required" value in
    let cancelled = get "remote_cancelled" value in
    if not (equals_text "interrupt" (get "reason" value))
    then returned ends_stop
    else if is_bool true fresh && is_bool false cancelled
    then returned ends_interrupted
    else if is_bool false fresh && is_bool true cancelled
    then returned ends_resumed
    else if is_bool false fresh
        && (is_bool false cancelled && is_bool true (get "continuation_safe" value))
    then returned ends_resumed
    else raised incompatible_interrupt

abbrev unsuppress : Ending → Desk → Desk
unsuppress ends_stop d = d
unsuppress ends_interrupted d = suppress none d
unsuppress ends_resumed d = suppress none d

unfoldable pub handle_stopped : ℕ → Fields → DeskMethod Reply
handle_stopped last value d =
    (lift (fail_session (stop_ending value)) >>= λ e s.
    (returned (reply (some e) none last true), unsuppress e s))
      (silence d)
