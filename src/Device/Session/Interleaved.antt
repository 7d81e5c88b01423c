-- ===== src/Device/Session/Interleaved.antt =====
-- The loop and the `finally` clause of `_run` of session.py with the other threads at work meanwhile. No lock
-- is held over a pass or over the `finally` clause, so calls of the other threads may fall between any
-- two of their stages, and while the pass waits for the socket. A stage itself is one step: what
-- it shares with the other threads it reads and writes under their locks.
use ha_codex_voice.Prelude.{true, Option, none, some, List, if◌then◌else◌}
use ha_codex_voice.Prelude.Action.{returned, pure, lift, ◌>>=◌, ◌>>◌}
use ha_codex_voice.Device.Session.Audio.{clear}
use ha_codex_voice.Device.Session.Player.{abort}
use ha_codex_voice.Device.Session.State.{stopped, failed, set_local_output_epoch}
use ha_codex_voice.Device.Session.Calls.{Call, calls}
use ha_codex_voice.Device.Session.Messages.{Desk, on_session}
use ha_codex_voice.Device.Session.Loop.{
  Running, Pass, Setting, Next, goes_on, returns, LoopMethod, fail_socket, on_requests, on_playback,
  on_microphone, on_ping, wait_time,
}
use ha_codex_voice.Device.Session.Ends.{on_pong, on_reply, on_deadlines, Exit, is_failure}
use ha_codex_voice.Device.Session.Dispatch.{handle_message}
use ha_codex_voice.Device.WebSocket.Connection.{Message, text, binary, pong}

-- What the other threads call before each stage of a pass, while it waits for the socket,
-- and between `_handle_message` and what its action does.
pub record Meanwhile : Type 0 where
  pub requests : List Call
  pub playback : List Call
  pub microphone : List Call
  pub ping : List Call
  pub socket : List Call
  pub message : List Call
  pub action : List Call

abbrev pub called : List Call → Running → Running
called xs r = record r { desk = on_session (calls xs) r.desk }

abbrev pub amid : List Call → LoopMethod (Unit {0})
amid xs r = (returned tt, called xs r)

module _ (c : Setting) (p : Pass) (m : Meanwhile) where
  unfoldable pub busy_handled : Message → LoopMethod Next
  busy_handled message r =
      let (o, d) =
        handle_message c.speaker r.locals.output_epoch r.locals.last_output_epoch c.loads message
          r.desk in
      on_reply p o (on_session (calls m.action) d) r.locals

  abbrev pub busy_message : Option Message → LoopMethod Next
  busy_message none = pure goes_on
  busy_message (some (pong bytes)) = λ r. (returned goes_on, on_pong bytes r)
  busy_message (some (text bytes)) = busy_handled (text bytes)
  busy_message (some (binary bytes)) = busy_handled (binary bytes)

  unfoldable pub busy_socket : LoopMethod Next
  busy_socket r =
      if p.readable (wait_time c p r)
      then (amid m.message >> (lift (fail_socket p.received) >>= busy_message)) r
      else (returned goes_on, r)

  unfoldable pub busy_ping : LoopMethod Next
  busy_ping = amid m.ping >> (on_ping p >> (amid m.socket >> busy_socket))

  unfoldable pub busy_microphone : LoopMethod Next
  busy_microphone = amid m.microphone >> (on_microphone p >> busy_ping)

  abbrev pub busy_after : Next → LoopMethod Next
  busy_after returns = pure returns
  busy_after goes_on = amid m.playback >> (on_playback c >> busy_microphone)

  -- One pass of the loop among the other threads.
  unfoldable pub busy_pass : LoopMethod Next
  busy_pass = on_deadlines c p >> (amid m.requests >> (on_requests p >>= busy_after))

-- What the other threads call after each statement of the `finally` clause.
pub record Closing : Type 0 where
  pub after_epoch : List Call
  pub after_clear : List Call
  pub after_abort : List Call
  pub after_state : List Call

-- The `finally` clause; the socket, which is closed after the abort, is left out.
unfoldable pub end_session : Exit → Closing → Desk → Desk
end_session exit b d =
    let failing = is_failure exit d.session in
    let unpublished = calls b.after_epoch (set_local_output_epoch none d.session) in
    let cleared = calls b.after_clear (record unpublished { audio = clear unpublished.audio }) in
    let aborted = calls b.after_abort cleared in
    let ended = record aborted { state = (if failing then failed else stopped) } in
    record d {
      player = abort d.player;
      session = record (calls b.after_state ended) { terminal = true };
    }
