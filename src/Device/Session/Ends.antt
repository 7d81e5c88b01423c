-- ===== src/Device/Session/Ends.antt =====
-- The rest of a pass of `_run` of session.py: the message, what its action does, the whole pass, and
-- which endings are failures.
use ha_codex_voice.Prelude.{
  ℕ, Bool, true, false, not, ◌&&◌, ◌||◌, Option, none, some, is_some, List, [], ◌∷◌, ◌==◌,
  if◌then◌else◌,
}
use ha_codex_voice.Prelude.Action.{Outcome, returned, raised, pure, lift, ◌>>=◌, ◌>>◌}
use ha_codex_voice.Device.WebSocket.Connection.{Message, text, binary, pong}
use ha_codex_voice.Device.Session.State.{
  Session, SessionState, ready, stopping, set_local_output_epoch,
}
use ha_codex_voice.Device.Session.Protocol.{check_deadlines}
use ha_codex_voice.Device.Session.Messages.{
  SessionFault, Desk, Reply, Ending, ends_stop, ends_interrupted, ends_resumed, on_session,
  fail_session, suppress,
}
use ha_codex_voice.Device.Session.Dispatch.{handle_message}
use ha_codex_voice.Device.Session.Loop.{
  stop_message, Locals, Running, Pass, Setting, Next, goes_on, returns, LoopMethod, send,
  fail_socket, on_requests, on_playback, on_microphone, on_ping, wait_time,
}

abbrev pub same_bytes : List ℕ → List ℕ → Bool
same_bytes [] [] = true
same_bytes [] (_ ∷ _) = false
same_bytes (_ ∷ _) [] = false
same_bytes (x ∷ xs) (y ∷ ys) = (x == y) && same_bytes xs ys

-- `message.data == pending_ping`
abbrev pub answers : Option (List ℕ) → List ℕ → Bool
answers none bytes = false
answers (some ping) bytes = same_bytes bytes ping

unfoldable pub on_pong : List ℕ → Running → Running
on_pong bytes r =
    if answers r.locals.pending_ping bytes
    then record r { locals = record r.locals { pending_ping = none; pong_deadline = none } }
    else r

-- `if self._state is STOPPING: self._state = READY`
abbrev pub unstopped : SessionState → SessionState
unstopped stopping = ready
unstopped other = other

-- The session that goes on after the bridge confirmed a cancellation.
abbrev pub preserved : Session → Session
preserved s = record s { interrupt_requested = false; state = unstopped s.state }

abbrev pub resumed : Pass → Running → Running
resumed p r = record {
  desk = suppress none (on_session preserved r.desk);
  locals = record r.locals {
    interrupt_sent = false;
    interrupt_deadline = none;
    last_activity = p.resumed_at;
  };
}

abbrev pub on_resumed : Pass → LoopMethod Next
on_resumed p r =
    if r.desk.session.interrupt_preserve_session
    then (returned goes_on, resumed p r)
    else (send p stop_message >> pure returns) r

-- What the action of the reply does to the loop.
unfoldable pub on_action : Pass → Option Ending → LoopMethod Next
on_action p none r = (returned goes_on, r)
on_action p (some ends_stop) r = (returned returns, r)
on_action p (some ends_interrupted) r =
    (returned (if r.locals.interrupt_sent then returns else goes_on), r)
on_action p (some ends_resumed) r =
    if r.locals.interrupt_sent
    then on_resumed p (record r { desk = on_session (set_local_output_epoch none) r.desk })
    else (returned goes_on, r)

abbrev pub on_reply :
    Pass → Outcome SessionFault Reply → Desk → Locals → Outcome SessionFault Next × Running
on_reply p (raised e) d l = (raised e, record { desk = d; locals = l })
on_reply p (returned reply) d l = on_action p reply.action (record {
  desk = d;
  locals = record l {
    output_epoch = reply.output_epoch;
    last_output_epoch = reply.last_output_epoch;
    last_activity = (if reply.semantic then p.after_message else l.last_activity);
  };
})

module _ (c : Setting) where
  unfoldable pub handled : Pass → Message → LoopMethod Next
  handled p m r =
      let (o, d) =
        handle_message c.speaker r.locals.output_epoch r.locals.last_output_epoch c.loads m
          r.desk in
      on_reply p o d r.locals

  abbrev pub on_message : Pass → Option Message → LoopMethod Next
  on_message p none = pure goes_on
  on_message p (some (pong bytes)) = λ r. (returned goes_on, on_pong bytes r)
  on_message p (some (text bytes)) = handled p (text bytes)
  on_message p (some (binary bytes)) = handled p (binary bytes)

  unfoldable pub on_socket : Pass → LoopMethod Next
  on_socket p r =
      if p.readable (wait_time c p r)
      then (lift (fail_socket p.received) >>= on_message p) r
      else (returned goes_on, r)

  abbrev pub after_requests : Pass → Next → LoopMethod Next
  after_requests p returns = pure returns
  after_requests p goes_on = on_playback c >> (on_microphone p >> (on_ping p >> on_socket p))

  abbrev pub on_deadlines : Pass → LoopMethod (Unit {0})
  on_deadlines p r =
      let config = r.desk.session.config in
      (
        fail_session (
            check_deadlines p.now c.started_at r.locals.last_activity config.max_session
              config.idle_timeout (is_some r.locals.pending_ping) r.locals.pong_deadline),
        r,
      )

  -- One pass of the loop.
  unfoldable pub pass : Pass → LoopMethod Next
  pass p = on_deadlines p >> (on_requests p >>= after_requests p)

-- How `_run` leaves its `try` block; `unexpected` is an exception of no class that it names.
pub data Exit : Type 0 where
  normal expected unexpected : Exit

unfoldable pub is_failure : Exit → Session → Bool
is_failure normal s = false
is_failure expected s = not (s.stop_requested || s.interrupt_requested)
is_failure unexpected s = true
