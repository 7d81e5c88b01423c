-- ===== src/Device/Session/Threads.antt =====
-- The threads together: the capture thread submits, the owner interrupts and stops, the network thread
-- makes its passes, in any order and between the stages of a pass; and the end.
use ha_codex_voice.Prelude.{ℕ, ◌≤◌, ◌≡◌, subst, Option, none, some, List, arith, if_elim}
use ha_codex_voice.Prelude.Action.{Outcome, returned, raised, lift, ◌>>=◌, ◌>>◌}
use ha_codex_voice.Prelude.Hoare.{Post}
use ha_codex_voice.Device.WebSocket.Frame.{Fault}
use ha_codex_voice.Device.WebSocket.Connection.{Message, text, binary, pong}
use ha_codex_voice.Device.Session.Calls.{Call, calls, calls-Same}
use ha_codex_voice.Device.Session.Messages.{Desk, Reply, SessionFault, on_session}
use ha_codex_voice.Device.Session.Epochs.{IsPlaying, Replies, Broken, handle_message-Replies}
use ha_codex_voice.Device.Session.Loop.{
  Running, Pass, Setting, Next, LoopMethod, goes_on, returns, wait_time, fail_socket, on_requests,
  on_playback, on_microphone, on_ping,
}
use ha_codex_voice.Device.Session.Ends.{on_deadlines, on_pong}
use ha_codex_voice.Device.Session.Interleaved.{
  Meanwhile, called, busy_handled, busy_message, busy_socket, busy_ping, busy_microphone,
  busy_after, busy_pass, amid,
}
use ha_codex_voice.Device.Session.Network.{
  Plays, Fails, Runs, Runs-bind, on_deadlines-Plays, on_requests-Plays, on_playback-Plays,
  on_microphone-Plays, on_ping-Plays, on_reply-Plays,
}

-- One step of the three threads: a pass with what falls into it, or calls between two passes.
pub data Step (c : Setting) : Running → Running → Type 0 where
  passes :
      (p : Pass) (m : Meanwhile) (r s : Running)
      → busy_pass c p m r ≡ (returned goes_on, s)
      → Step c r s
  makes : (xs : List Call) (r : Running) → Step c r (called xs r)

pub data Reaches (c : Setting) : Running → Running → Type 0 where
  here : (r : Running) → Reaches c r r
  next : (r s t : Running) → Step c r s → Reaches c s t → Reaches c r t

calls-IsPlaying :
    (output_epoch : Option ℕ) (last : ℕ) (xs : List Call) (d : Desk)
    → IsPlaying output_epoch last d
    → IsPlaying output_epoch last (on_session (calls xs) d)
calls-IsPlaying output_epoch last xs d h =
    let (e, f, g) = calls-Same xs d.session in
    record {
      current = h.current;
      published = rw e h.published;
      suppressed = rw f h.suppressed;
      started = h.started;
      shown = rw g (rw e h.shown);
      owned = h.owned;
    }

called-Plays : (last : ℕ) (xs : List Call) (r : Running) → Plays last r → Plays last (called xs r)
called-Plays last xs r h =
    (calls-IsPlaying r.locals.output_epoch r.locals.last_output_epoch xs r.desk h.0, h.1)

calls-Replies :
    (last : ℕ) (xs : List Call) (o : Outcome SessionFault Reply) (d : Desk)
    → Post (Replies last) Broken (o, d)
    → Post (Replies last) Broken (o, on_session (calls xs) d)
calls-Replies last xs (returned reply) d h =
    (calls-IsPlaying reply.output_epoch reply.last_output_epoch xs d h.0, h.1)
calls-Replies last xs (raised e) d h = h

module _ (last : ℕ) (p : Pass) (c : Setting) (m : Meanwhile) where
  busy_handled-Plays :
      (message : Message) (r : Running) → Plays last r → Runs last p (busy_handled c p m message r)
  unfolding busy_handled
  busy_handled-Plays message r h = on_reply-Plays last p _ _ r.locals h.1 (
      calls-Replies r.locals.last_output_epoch m.action _ _ (
        handle_message-Replies c.speaker r.locals.output_epoch r.locals.last_output_epoch c.loads
          message r.desk h.0))

  busy_message-Plays :
      (o : Option Message) (r : Running) → Plays last r → Runs last p (busy_message c p m o r)
  unfolding on_pong
  busy_message-Plays none r h = h
  busy_message-Plays (some (pong bytes)) r h = ground arith
  busy_message-Plays (some (text bytes)) r h = busy_handled-Plays (text bytes) r h
  busy_message-Plays (some (binary bytes)) r h = busy_handled-Plays (binary bytes) r h

  busy_socket-Plays : (r : Running) → Plays last r → Runs last p (busy_socket c p m r)
  unfolding busy_socket
  busy_socket-Plays r h =
      if_elim (Runs last p) (p.readable (wait_time c p r)) _ _
        (λ _. go p.received (called m.message r) (called-Plays last m.message r h)) λ _. h
    where
      go :
          (o : Outcome Fault (Option Message)) (s : Running)
          → Plays last s
          → Runs last p ((lift (fail_socket o) >>= busy_message c p m) s)
      go (returned o) s k = busy_message-Plays o s k
      go (raised e) s k = k.0.owned

  abbrev Keeps : {A : Type 0} → LoopMethod A → Type 0
  Keeps k = (r : Running) → Plays last r → Runs last p (k r)

  then-Keeps :
      {A B : Type 0} (k : LoopMethod A) (l : LoopMethod B) → Keeps k → Keeps l → Keeps (k >> l)
  then-Keeps k l a b r h = Runs-bind last p c (k r) (λ _. l) (a r h) λ _ s j. b s j

  amid-Keeps : {B : Type 0} (xs : List Call) (l : LoopMethod B) → Keeps l → Keeps (amid xs >> l)
  amid-Keeps xs l b r h = b (called xs r) (called-Plays last xs r h)

  busy_ping-Plays : Keeps (busy_ping c p m)
  unfolding busy_ping
  busy_ping-Plays = amid-Keeps m.ping _ (
      then-Keeps (on_ping p) _ (on_ping-Plays last p)
        (amid-Keeps m.socket (busy_socket c p m) busy_socket-Plays))

  busy_microphone-Plays : Keeps (busy_microphone c p m)
  unfolding busy_microphone
  busy_microphone-Plays =
      amid-Keeps m.microphone _
        (then-Keeps (on_microphone p) _ (on_microphone-Plays last p) busy_ping-Plays)

  busy_after-Plays : (n : Next) → Keeps (busy_after c p m n)
  busy_after-Plays returns r h = h
  busy_after-Plays goes_on r h =
      amid-Keeps m.playback _
        (then-Keeps (on_playback c) _ (on_playback-Plays last p c) busy_microphone-Plays) r h

  after_requests-Keeps : Keeps (on_requests p >>= busy_after c p m)
  after_requests-Keeps r h =
      Runs-bind last p c (on_requests p r) (busy_after c p m) (on_requests-Plays last p r h)
        busy_after-Plays

  busy_pass-Plays : Keeps (busy_pass c p m)
  unfolding busy_pass
  busy_pass-Plays =
      then-Keeps (on_deadlines c p) _ (on_deadlines-Plays last p c)
        (amid-Keeps m.requests _ after_requests-Keeps)

module _ (c : Setting) where
  Step-Plays : (last : ℕ) (r s : Running) → Step c r s → Plays last r → Plays last s
  Step-Plays last _ _ (passes p m r s e) h =
      subst (Post (λ _. Plays last) (λ _. Fails)) e (busy_pass-Plays last p c m r h)
  Step-Plays last _ _ (makes xs r) h = called-Plays last xs r h

  -- From epochs that are in order, and however the calls of the other threads fall between the passes,
  -- between the stages of a pass, while it waits for the socket and before it acts on a message, while no pass raises: the last epoch never
  -- falls and the epochs of the running session stay in order. What plays and what is published is
  -- the last one, what is suppressed or still in the player is no newer, output counts as active
  -- exactly while an epoch is published, and the player owns at most one child, where a child counts as
  -- released once its reaping is given up.
  pub threads-Plays :
      (r s : Running)
      → Reaches c r s
      → IsPlaying r.locals.output_epoch r.locals.last_output_epoch r.desk
      → IsPlaying s.locals.output_epoch s.locals.last_output_epoch s.desk
        × (r.locals.last_output_epoch ≤ s.locals.last_output_epoch)
  threads-Plays r s reaches h = go r s reaches (h, omega arith)
    where
      go :
          (x y : Running)
          → Reaches c x y
          → Plays r.locals.last_output_epoch x
          → Plays r.locals.last_output_epoch y
      go _ _ (here x) k = k
      go _ _ (next x y z step rest) k =
          go y z rest (Step-Plays r.locals.last_output_epoch x y step k)
