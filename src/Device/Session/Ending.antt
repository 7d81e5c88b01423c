-- ===== src/Device/Session/Ending.antt =====
-- About the `finally` clause of `_run` of session.py, and about a session that is over.
use ha_codex_voice.Prelude.{
  ℕ, ◌≡◌, refl, ◌∙◌, ◌⊎◌, inl, inr, Bool, true, false, none, List, arith, if◌then◌else◌,
}
use ha_codex_voice.Device.Session.Player.{active}
use ha_codex_voice.Device.Session.Playback.{IsOwned, abort_lem}
use ha_codex_voice.Device.Session.State.{
  Session, SessionState, is_open, refused, invalid, stopped, failed, start, submit_audio, interrupt,
  stop, set_local_output_epoch,
}
use ha_codex_voice.Device.Session.Calls.{calls-Same, calls-closed}
use ha_codex_voice.Device.Session.Messages.{Desk}
use ha_codex_voice.Device.Session.Ends.{Exit, is_failure}
use ha_codex_voice.Device.Session.Interleaved.{Closing, end_session}

-- a session that is over
record IsOver (s : Session) : Type 0 where
  terminal : s.terminal ≡ true
  state : (s.state ≡ failed) ⊎ (s.state ≡ stopped)

submit_audio-over :
    (value : List ℕ) (clock : ℕ) (s : Session)
    → IsOver s
    → (submit_audio value clock s ≡ (refused, s)) ⊎ (submit_audio value clock s ≡ (invalid, s))
unfolding submit_audio
submit_audio-over value clock s h = ground arith

interrupt-over :
    (preserve_session : Bool) (s : Session) → IsOver s → interrupt preserve_session s ≡ s
unfolding interrupt
interrupt-over preserve_session s h = rw h.terminal refl

stop-over : (s : Session) → IsOver s → stop s ≡ s
unfolding stop
stop-over s h = rw h.terminal refl

start-over : (thread_starts : Bool) (s : Session) → IsOver s → start thread_starts s ≡ none
unfolding start
start-over thread_starts s h = ground arith

abbrev end_state : Bool → SessionState
end_state b = if b then failed else stopped

end_state-closed : (b : Bool) → is_open (end_state b) ≡ false
end_state-closed true = refl
end_state-closed false = refl

end_state-over : (b : Bool) (st : SessionState) → st ≡ end_state b → (st ≡ failed) ⊎ (st ≡ stopped)
end_state-over true st h = inl h
end_state-over false st h = inr h

end_session-state :
    (exit : Exit) (b : Closing) (d : Desk)
    → (end_session exit b d).session.state ≡ end_state (is_failure exit d.session)
unfolding end_session
end_session-state exit b d =
    calls-closed b.after_state _ (end_state-closed (is_failure exit d.session))

end_session-IsOver : (exit : Exit) (b : Closing) (d : Desk) → IsOver (end_session exit b d).session
unfolding end_session
end_session-IsOver exit b d = record {
  terminal = refl;
  state = end_state-over (is_failure exit d.session) _ (end_session-state exit b d);
}

-- The calls of the other threads after the epoch is taken back do not bring it back.
end_session-unpublished :
    (exit : Exit) (b : Closing) (d : Desk)
    → let s = (end_session exit b d).session in
      (s.output_active ≡ false) × (s.local_output_epoch ≡ none)
unfolding end_session set_local_output_epoch
end_session-unpublished exit b d =
    let (e0, _, a0) = calls-Same b.after_epoch (set_local_output_epoch none d.session) in
    let (e1, _, a1) = calls-Same b.after_clear _ in
    let (e2, _, a2) = calls-Same b.after_abort _ in
    let (e3, _, a3) = calls-Same b.after_state _ in (a3 ∙ a2 ∙ a1 ∙ a0, e3 ∙ e2 ∙ e1 ∙ e0)

end_session-player :
    (exit : Exit) (b : Closing) (d : Desk)
    → IsOwned d.player
    → IsOwned (end_session exit b d).player × (active (end_session exit b d).player ≡ false)
unfolding end_session
end_session-player exit b d h = abort_lem d.player h

-- However the network thread ends, and whatever the other threads call between the statements of the
-- `finally` clause: the player is idle and has released its child (reaped, or its reaping given up),
-- no epoch is published and output is not active; the session is terminal, failed exactly when the
-- ending is a failure, and from then on a submission is turned away, `interrupt` and `stop` change
-- nothing, and it cannot be started again.
pub end_session-released :
    (exit : Exit) (b : Closing) (d : Desk) (value : List ℕ) (clock : ℕ)
    (preserve_session thread_starts : Bool)
    → IsOwned d.player
    → let d' = end_session exit b d in
      let s = d'.session in
      (active d'.player ≡ false)
      × IsOwned d'.player
      × (s.output_active ≡ false)
      × (s.local_output_epoch ≡ none)
      × (s.terminal ≡ true)
      × (s.state ≡ (if is_failure exit d.session then failed else stopped))
      × ((submit_audio value clock s ≡ (refused, s)) ⊎ (submit_audio value clock s ≡ (invalid, s)))
      × (interrupt preserve_session s ≡ s)
      × (stop s ≡ s)
      × (start thread_starts s ≡ none)
end_session-released exit b d value clock preserve_session thread_starts h =
    let o = end_session-IsOver exit b d in
    let (owned, silent) = end_session-player exit b d h in
    let (quiet, unpublished) = end_session-unpublished exit b d in
    (
      silent,
      owned,
      quiet,
      unpublished,
      o.terminal,
      end_session-state exit b d,
      submit_audio-over value clock _ o,
      interrupt-over preserve_session _ o,
      stop-over _ o,
      start-over thread_starts _ o,
    )
