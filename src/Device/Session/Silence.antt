-- ===== src/Device/Session/Silence.antt =====
-- About what a pass of `_run` of session.py sends while an interruption is requested.
use ha_codex_voice.Prelude.{
  ℕ, suc, ◌≡◌, refl, true, Option, none, some, is_some, List, [], ◌∷◌, arith, if_elim,
}
use ha_codex_voice.Prelude.Action.{Outcome, returned, raised, lift, resume, ◌>>=◌}
use ha_codex_voice.Prelude.Hoare.{Post}
use ha_codex_voice.Device.WebSocket.Frame.{Fault}
use ha_codex_voice.Device.WebSocket.Connection.{Message, text, binary, pong}
use ha_codex_voice.Device.Session.Protocol.{check_deadlines}
use ha_codex_voice.Device.Session.Messages.{
  SessionFault, Desk, Reply, Ending, ends_stop, ends_interrupted, ends_resumed, fail_session,
}
use ha_codex_voice.Device.Session.Loop.{
  wait_time, Outgoing, interrupt_message, stop_message, audio_frame, ping_frame, Locals, Running,
  Pass, Setting, Next, goes_on, returns, fail_socket, on_requests, on_interrupt, on_playback,
  on_microphone, on_ping,
}
use ha_codex_voice.Device.Session.Ends.{
  on_pong, on_action, on_reply, handled, on_message, on_socket, after_requests, pass,
}

-- How many audio frames were sent.
abbrev pub audio_frames : List Outgoing → ℕ
audio_frames [] = 0
audio_frames (audio_frame _ ∷ log) = suc (audio_frames log)
audio_frames (interrupt_message ∷ log) = audio_frames log
audio_frames (stop_message ∷ log) = audio_frames log
audio_frames (ping_frame _ ∷ log) = audio_frames log

module _ (n : ℕ) (p : Pass) where
  abbrev Silent : Running → Type 0
  Silent r = audio_frames r.locals.log ≡ n

  -- between the request and the message
  abbrev Interrupting : Running → Type 0
  Interrupting r = (r.locals.interrupt_sent ≡ true) × Silent r

  abbrev Stays : {A : Type 0} → Outcome SessionFault A × Running → Type 0
  Stays o = Post (λ _. Interrupting) (λ _. Silent) o

  abbrev StaysSilent : {A : Type 0} → Outcome SessionFault A × Running → Type 0
  StaysSilent o = Silent o.1

  on_interrupt-Stays : (r : Running) → Silent r → Stays (on_interrupt p r)
  unfolding on_interrupt
  on_interrupt-Stays r h = ground arith

  on_requests-Stays :
      (r : Running) → r.desk.session.interrupt_requested ≡ true → Silent r → Stays (on_requests p r)
  unfolding on_requests
  on_requests-Stays r i h = ground (arith, on_interrupt-Stays r h)

  on_microphone-Stays : (r : Running) → Interrupting r → Stays (on_microphone p r)
  unfolding on_microphone
  on_microphone-Stays r h = ground arith

  on_ping-Stays : (r : Running) → Interrupting r → Stays (on_ping p r)
  unfolding on_ping
  on_ping-Stays r h = ground arith

  on_action-Silent : (o : Option Ending) (r : Running) → Silent r → StaysSilent (on_action p o r)
  unfolding on_action
  on_action-Silent none r h = h
  on_action-Silent (some ends_stop) r h = h
  on_action-Silent (some ends_interrupted) r h = h
  on_action-Silent (some ends_resumed) r h = ground arith

  on_reply-Silent :
      (o : Outcome SessionFault Reply) (d : Desk) (l : Locals)
      → audio_frames l.log ≡ n
      → StaysSilent (on_reply p o d l)
  on_reply-Silent (raised e) d l h = h
  on_reply-Silent (returned reply) d l h = on_action-Silent reply.action _ h

  module _ (c : Setting) where
    on_playback-Stays : (r : Running) → Interrupting r → Stays (on_playback c r)
    unfolding on_playback
    on_playback-Stays r h = ground arith

    on_message-Silent :
        (o : Option Message) (r : Running) → Silent r → StaysSilent (on_message c p o r)
    unfolding on_pong handled
    on_message-Silent none r h = h
    on_message-Silent (some (pong bytes)) r h = ground arith
    on_message-Silent (some (text bytes)) r h = on_reply-Silent _ _ r.locals h
    on_message-Silent (some (binary bytes)) r h = on_reply-Silent _ _ r.locals h

    on_socket-Silent : (r : Running) → Silent r → StaysSilent (on_socket c p r)
    unfolding on_socket
    on_socket-Silent r h =
        if_elim StaysSilent (p.readable (wait_time c p r)) _ _ (λ _. go p.received) λ _. h
      where
        go :
            (o : Outcome Fault (Option Message))
            → StaysSilent ((lift (fail_socket o) >>= on_message c p) r)
        go (returned o) = on_message-Silent o r h
        go (raised e) = h

    Stays-bind :
        {A B : Type 0} (m : Outcome SessionFault A × Running)
        (f : A → Running → Outcome SessionFault B × Running)
        → Stays m
        → ((a : A) (s : Running) → Interrupting s → StaysSilent (f a s))
        → StaysSilent (resume m.0 f m.1)
    Stays-bind (returned a, s) f h k = k a s h
    Stays-bind (raised e, s) f h k = h

    after_requests-Silent :
        (x : Next) (r : Running) → Interrupting r → StaysSilent (after_requests c p x r)
    after_requests-Silent returns r h = h.1
    after_requests-Silent goes_on r h =
        Stays-bind (on_playback c r) _ (on_playback-Stays r h) λ _ s k.
          Stays-bind (on_microphone p s) _ (on_microphone-Stays s k)
            λ _ t j. Stays-bind (on_ping p t) _ (on_ping-Stays t j) λ _ u i. on_socket-Silent u i.1

-- A pass that finds an interruption requested sends no audio frame, however it ends.
pub interrupt-silent :
    (c : Setting) (p : Pass) (r : Running)
    → r.desk.session.interrupt_requested ≡ true
    → audio_frames (pass c p r).1.locals.log ≡ audio_frames r.locals.log
unfolding pass
interrupt-silent c p r i = checked (
    fail_session (
      check_deadlines p.now c.started_at r.locals.last_activity r.desk.session.config.max_session
        r.desk.session.config.idle_timeout (is_some r.locals.pending_ping) r.locals.pong_deadline))
  where
    n : ℕ
    n = audio_frames r.locals.log

    checked :
        (o : Outcome SessionFault (Unit {0}))
        → StaysSilent n p (resume o (λ _. on_requests p >>= after_requests c p) r)
    checked (returned _) =
        Stays-bind n p c (on_requests p r) _ (on_requests-Stays n p r i refl)
          λ x s k. after_requests-Silent n p c x s k
    checked (raised e) = refl
