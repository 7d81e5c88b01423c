-- ===== src/Device/Session/Network.antt =====
-- About the speaking epochs in a pass of `_run` of session.py.
use ha_codex_voice.Prelude.{ℕ, ◌≤◌, refl, not, ◌&&◌, Option, none, some, arith, if_elim}
use ha_codex_voice.Prelude.Action.{Outcome, returned, raised, lift, resume, ◌>>=◌}
use ha_codex_voice.Prelude.Hoare.{Post}
use ha_codex_voice.Device.WebSocket.Frame.{Fault}
use ha_codex_voice.Device.WebSocket.Connection.{Message, text, binary, pong}
use ha_codex_voice.Device.Session.Audio.{AudioPacket, due, pop}
use ha_codex_voice.Device.Session.Player.{abort, service}
use ha_codex_voice.Device.Session.Playback.{
  IsOwned, stream, service-Serves, service-epoch, abort_lem,
}
use ha_codex_voice.Device.Session.State.{set_local_output_epoch}
use ha_codex_voice.Device.Session.Protocol.{SessionError}
use ha_codex_voice.Device.Session.Messages.{
  SessionFault, Desk, Reply, Ending, ends_stop, ends_interrupted, ends_resumed, on_session,
  fail_session,
}
use ha_codex_voice.Device.Session.Epochs.{
  IsPlaying, Replies, Broken, EpochFrom-up_to, handle_message-Replies, flush_local_barge_in-Flushes,
}
use ha_codex_voice.Device.Session.Loop.{
  wait_time, Locals, Running, Pass, Setting, Next, goes_on, returns, fail_socket, send_packet,
  with_audio, on_requests, on_interrupt, on_stop, on_flush, on_playback, on_microphone, on_ping,
  quiet, suppress_current,
}
use ha_codex_voice.Device.Session.Ends.{
  on_pong, on_action, on_reply, handled, on_message, on_socket, after_requests, on_deadlines, pass,
  on_resumed,
}

-- The epochs of the running session are in order, and at least `last`.
abbrev pub Plays : ℕ → Running → Type 0
Plays last r =
    IsPlaying r.locals.output_epoch r.locals.last_output_epoch r.desk
    × (last ≤ r.locals.last_output_epoch)

abbrev pub Fails : Running → Type 0
Fails r = IsOwned r.desk.player

quiet-IsPlaying :
    (output_epoch : Option ℕ) (last : ℕ) (d : Desk)
    → IsPlaying output_epoch last d
    → IsPlaying output_epoch last (quiet d)
unfolding quiet set_local_output_epoch abort
quiet-IsPlaying output_epoch last d h = ground (arith, abort_lem d.player h.owned)

muted-IsPlaying :
    (output_epoch : Option ℕ) (last : ℕ) (d : Desk)
    → IsPlaying output_epoch last d
    → IsPlaying none last (suppress_current output_epoch (quiet d))
muted-IsPlaying none last d h = quiet-IsPlaying none last d h
muted-IsPlaying (some e) last d h = ground (arith, quiet-IsPlaying (some e) last d h)

module _ (last : ℕ) (p : Pass) where
  abbrev pub Runs : {A : Type 0} → Outcome SessionFault A × Running → Type 0
  Runs r = Post (λ _. Plays last) (λ _. Fails) r

  on_interrupt-Plays : (r : Running) → Plays last r → Runs (on_interrupt p r)
  unfolding on_interrupt
  on_interrupt-Plays r h =
      ground (arith, muted-IsPlaying r.locals.output_epoch r.locals.last_output_epoch r.desk h.0)

  on_stop-Plays : (r : Running) → Plays last r → Runs (on_stop p r)
  unfolding on_stop
  on_stop-Plays r h =
      ground (arith, quiet-IsPlaying r.locals.output_epoch r.locals.last_output_epoch r.desk h.0)

  pub on_requests-Plays : (r : Running) → Plays last r → Runs (on_requests p r)
  unfolding on_requests on_flush
  on_requests-Plays r h = ground (
    arith,
    on_interrupt-Plays r h,
    on_stop-Plays r h,
    flush_local_barge_in-Flushes r.locals.output_epoch r.locals.last_output_epoch r.desk h.0,
  )

  pub on_playback-Plays : (c : Setting) (r : Running) → Plays last r → Runs (on_playback c r)
  unfolding on_playback set_local_output_epoch
  on_playback-Plays c r h = ground (
    arith,
    (service-Serves r.desk.player.maximum_bytes (stream r.desk.player) c.speaker.child).at
        r.desk.player (h.0.owned, refl, refl),
    EpochFrom-up_to r.locals.last_output_epoch r.desk.player.epoch
        (service c.speaker.child r.desk.player).1.epoch
        (service-epoch c.speaker.child r.desk.player) h.0.started,
  )

  send_packet-Plays :
      (o : Option AudioPacket) (remaining : ℕ) (r : Running)
      → Plays last r
      → Runs (send_packet p o remaining r)
  send_packet-Plays none remaining r h = h
  send_packet-Plays (some packet) remaining r h = ground arith

  with_audio-Plays : (r : Running) → Plays last r → Plays last (with_audio r)
  with_audio-Plays r h = ground arith

  pub on_microphone-Plays : (r : Running) → Plays last r → Runs (on_microphone p r)
  unfolding on_microphone
  on_microphone-Plays r h =
      if_elim Runs (not r.locals.interrupt_sent && due p.now r.locals.pacer) _ _
        (λ _.
          send_packet-Plays (pop r.desk.session.audio).0.0 (pop r.desk.session.audio).0.1
            (with_audio r) (with_audio-Plays r h))
        λ _. h

  pub on_ping-Plays : (r : Running) → Plays last r → Runs (on_ping p r)
  unfolding on_ping
  on_ping-Plays r h = ground arith

  on_resumed-Plays : (r : Running) → Plays last r → Runs (on_resumed p r)
  on_resumed-Plays r h = ground arith

  on_action-Plays : (o : Option Ending) (r : Running) → Plays last r → Runs (on_action p o r)
  unfolding on_action set_local_output_epoch
  on_action-Plays none r h = h
  on_action-Plays (some ends_stop) r h = h
  on_action-Plays (some ends_interrupted) r h = h
  on_action-Plays (some ends_resumed) r h =
      if_elim Runs r.locals.interrupt_sent _ _ (λ _. on_resumed-Plays _ off) λ _. h
    where
      off : Plays last (record r { desk = on_session (set_local_output_epoch none) r.desk })
      off = ground arith

  pub on_reply-Plays :
      (o : Outcome SessionFault Reply) (d : Desk) (l : Locals)
      → last ≤ l.last_output_epoch
      → Post (Replies l.last_output_epoch) Broken (o, d)
      → Runs (on_reply p o d l)
  on_reply-Plays (raised e) d l k h = h
  on_reply-Plays (returned reply) d l k h =
      on_action-Plays reply.action _ (h.0, omega (arith, h.1, k))

  module _ (c : Setting) where
    handled-Plays : (m : Message) (r : Running) → Plays last r → Runs (handled c p m r)
    unfolding handled
    handled-Plays m r h = on_reply-Plays _ _ r.locals h.1 (
        handle_message-Replies c.speaker r.locals.output_epoch r.locals.last_output_epoch c.loads m
          r.desk h.0)

    on_message-Plays : (o : Option Message) (r : Running) → Plays last r → Runs (on_message c p o r)
    unfolding on_pong
    on_message-Plays none r h = h
    on_message-Plays (some (pong bytes)) r h = ground arith
    on_message-Plays (some (text bytes)) r h = handled-Plays (text bytes) r h
    on_message-Plays (some (binary bytes)) r h = handled-Plays (binary bytes) r h

    on_socket-Plays : (r : Running) → Plays last r → Runs (on_socket c p r)
    unfolding on_socket
    on_socket-Plays r h =
        if_elim Runs (p.readable (wait_time c p r)) _ _ (λ _. go p.received) λ _. h
      where
        go :
            (o : Outcome Fault (Option Message))
            → Runs ((lift (fail_socket o) >>= on_message c p) r)
        go (returned o) = on_message-Plays o r h
        go (raised e) = h.0.owned

    pub Runs-bind :
        {A B : Type 0} (m : Outcome SessionFault A × Running)
        (f : A → Running → Outcome SessionFault B × Running)
        → Runs m
        → ((a : A) (s : Running) → Plays last s → Runs (f a s))
        → Runs (resume m.0 f m.1)
    Runs-bind (returned a, s) f h k = k a s h
    Runs-bind (raised e, s) f h k = h

    after_requests-Plays : (n : Next) (r : Running) → Plays last r → Runs (after_requests c p n r)
    after_requests-Plays returns r h = h
    after_requests-Plays goes_on r h =
        Runs-bind (on_playback c r) _ (on_playback-Plays c r h) λ _ s k.
          Runs-bind (on_microphone p s) _ (on_microphone-Plays s k)
            λ _ t j. Runs-bind (on_ping p t) _ (on_ping-Plays t j) λ _ u i. on_socket-Plays u i

    pub on_deadlines-Plays : (r : Running) → Plays last r → Runs (on_deadlines c p r)
    on_deadlines-Plays r h = checked _
      where
        checked : (o : Outcome SessionError (Unit {0})) → Runs (fail_session o, r)
        checked (returned _) = h
        checked (raised e) = h.0.owned

    -- From epochs that are in order and at least `last`, a pass of the loop that does not raise leaves
    -- them so; one that raises leaves a player that owns at most one child.
    pub pass-Plays : (r : Running) → Plays last r → Runs (pass c p r)
    unfolding pass
    pass-Plays r h = Runs-bind (on_deadlines c p r) _ (on_deadlines-Plays r h) λ _ s k.
        Runs-bind (on_requests p s) _ (on_requests-Plays s k) λ n t j. after_requests-Plays n t j
