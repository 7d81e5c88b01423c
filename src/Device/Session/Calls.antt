-- ===== src/Device/Session/Calls.antt =====
-- The calls that the other threads make on a `RealtimeSession` of session.py while the network thread runs:
-- `submit_audio` of the capture thread, `interrupt` and `stop` of the owner, in any order and number.
use ha_codex_voice.Prelude.{ℕ, Bool, false, List, [], ◌∷◌, ◌≡◌, refl, ◌∙◌, arith, ap}
use ha_codex_voice.Device.Session.State.{
  Session, is_open, submit_audio, detect_local_barge_in, interrupt, stop,
}

pub data Call : Type 0 where
  submits : List ℕ → ℕ → Call
  interrupts : Bool → Call
  stops : Call

unfoldable pub call : Call → Session → Session
call (submits value clock) s = (submit_audio value clock s).1
call (interrupts preserve_session) s = interrupt preserve_session s
call stops s = stop s

unfoldable pub calls : List Call → Session → Session
calls [] s = s
calls (x ∷ xs) s = calls xs (call x s)

-- What these calls leave alone.
abbrev pub Same : Session → Session → Type 0
Same s t =
    (t.local_output_epoch ≡ s.local_output_epoch)
    × (t.suppressed_output_epoch ≡ s.suppressed_output_epoch)
    × (t.output_active ≡ s.output_active)

call-Same : (x : Call) (s : Session) → Same s (call x s)
unfolding call submit_audio detect_local_barge_in interrupt stop
call-Same (submits value clock) s = ground arith
call-Same (interrupts preserve_session) s = ground arith
call-Same stops s = ground arith

pub calls-Same : (xs : List Call) (s : Session) → Same s (calls xs s)
unfolding calls
calls-Same [] s = (refl, refl, refl)
calls-Same (x ∷ xs) s =
    let (a, b, c) = call-Same x s in
    let (a', b', c') = calls-Same xs (call x s) in (a' ∙ a, b' ∙ b, c' ∙ c)

call-closed : (x : Call) (s : Session) → is_open s.state ≡ false → (call x s).state ≡ s.state
unfolding call submit_audio detect_local_barge_in interrupt stop
call-closed (submits value clock) s h = ground (arith, h)
call-closed (interrupts preserve_session) s h = ground (arith, h)
call-closed stops s h = ground (arith, h)

-- No call leaves a state that is not open.
pub calls-closed :
    (xs : List Call) (s : Session) → is_open s.state ≡ false → (calls xs s).state ≡ s.state
unfolding calls
calls-closed [] s h = refl
calls-closed (x ∷ xs) s h =
    let e = call-closed x s h in calls-closed xs (call x s) (ap is_open e ∙ h) ∙ e
