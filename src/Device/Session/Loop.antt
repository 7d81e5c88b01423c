-- ===== src/Device/Session/Loop.antt =====
-- The loop of `_run` of session.py: one pass of it, from the deadlines to the message, and its end.
-- The connection is injected (`connection_factory`); here it is what its methods do in this pass.
use ha_codex_voice.Prelude.{
  min, ◌-◌, ◌==◌, ℕ, ◌+◌, Bool, true, false, not, ◌&&◌, Option, none, some, is_some, List, ◌∷◌, leb,
  ltb, length, if◌then◌else◌,
}
use ha_codex_voice.Prelude.Action.{Outcome, returned, raised, Action, pure, lift, ◌>>◌}
use ha_codex_voice.Json.{Value}
use ha_codex_voice.Device.WebSocket.Frame.{Fault}
use ha_codex_voice.Device.WebSocket.Connection.{Message}
use ha_codex_voice.Device.Session.Audio.{
  AudioPacket, Pacer, pop, clear, due, sent, delay, pcm_has_signal,
}
use ha_codex_voice.Device.Session.Player.{active, service}
use ha_codex_voice.Device.Session.State.{set_local_output_epoch}
use ha_codex_voice.Device.Session.Messages.{
  SessionFault, socket_error, Desk, Speaker, on_session, on_player, silence, suppress,
}
use ha_codex_voice.Device.Session.Dispatch.{flush_local_barge_in}

pub data Outgoing : Type 0 where
  interrupt_message stop_message : Outgoing
  audio_frame ping_frame : List ℕ → Outgoing

-- The locals of `_run`; `log` is what it sent, newest first.
pub record Locals : Type 0 where
  pub pacer : Pacer
  pub last_activity : ℕ
  pub next_ping_at : ℕ
  pub pending_ping : Option (List ℕ)
  pub pong_deadline : Option ℕ
  pub output_epoch : Option ℕ
  pub last_output_epoch : ℕ
  pub interrupt_sent : Bool
  pub interrupt_deadline : Option ℕ
  pub log : List Outgoing

pub record Running : Type 0 where
  pub desk : Desk
  pub locals : Locals

-- What the clock, the random source and the connection give in one pass: the readings of the clock,
-- what a send does, whether the socket is readable within a time, what `receive_message` does.
pub record Pass : Type 0 where
  pub now : ℕ
  pub later : ℕ
  pub after_message : ℕ
  pub resumed_at : ℕ
  pub random : List ℕ
  pub sends : Outgoing → Outcome Fault (Unit {0})
  pub readable : ℕ → Bool
  pub received : Outcome Fault (Option Message)

-- What no pass changes.
pub record Setting : Type 0 where
  pub speaker : Speaker
  pub loads : List ℕ → Option Value
  pub started_at : ℕ

pub data Next : Type 0 where
  goes_on returns : Next

abbrev pub LoopMethod : Type 0 → Type 0
LoopMethod = Action Running SessionFault

abbrev pub logged : Outgoing → Locals → Locals
logged o l = record l { log = o ∷ l.log }

abbrev pub fail_socket {ℓ} : {A : Type ℓ} → Outcome Fault A → Outcome SessionFault A
fail_socket (returned a) = returned a
fail_socket (raised e) = raised (socket_error e)

abbrev pub send : Pass → Outgoing → LoopMethod (Unit {0})
send p o =
    lift (fail_socket (p.sends o)) >> λ r. (returned tt, record r { locals = logged o r.locals })

abbrev pub at_desk :
    Outcome SessionFault (Unit {0}) × Desk → Running → Outcome SessionFault (Unit {0}) × Running
at_desk (o, d) r = (o, record r { desk = d })

-- `set_local_output_epoch(None)`, `player.abort()` and `self._audio.clear()`
unfoldable pub quiet : Desk → Desk
quiet d =
    let s = silence d in record s { session = record s.session { audio = clear s.session.audio } }

abbrev pub suppress_current : Option ℕ → Desk → Desk
suppress_current none d = d
suppress_current (some e) d = suppress (some e) d

abbrev pub is_past : ℕ → Option ℕ → Bool
is_past now none = false
is_past now (some d) = leb d now

-- The desk and the locals of a pass that was asked to interrupt.
abbrev pub muted : Running → Running
muted r = record {
  desk = suppress_current r.locals.output_epoch (quiet r.desk);
  locals = record r.locals { output_epoch = none };
}

unfoldable pub on_interrupt : Pass → LoopMethod Next
on_interrupt p r =
    let m = muted r in
    let deadline = p.now + r.desk.session.config.io_timeout in
    if not r.locals.interrupt_sent
    then (send p interrupt_message >> λ s. (
      returned goes_on,
      record s {
        locals = record s.locals { interrupt_sent = true; interrupt_deadline = some deadline };
      },
    ))
        m
    else if is_past p.now r.locals.interrupt_deadline
    then (returned returns, m)
    else (returned goes_on, m)

unfoldable pub on_stop : Pass → LoopMethod Next
on_stop p r = (send p stop_message >> pure returns) (record r { desk = quiet r.desk })

unfoldable pub on_flush : Running → Running
on_flush r =
    let (o, d) = flush_local_barge_in r.locals.output_epoch r.locals.last_output_epoch r.desk in
    record { desk = d; locals = record r.locals { output_epoch = o } }

unfoldable pub on_requests : Pass → LoopMethod Next
on_requests p r =
    if r.desk.session.interrupt_requested
    then on_interrupt p r
    else if r.desk.session.stop_requested
    then on_stop p r
    else (returned goes_on, on_flush r)

-- `player.service()`, and the end of the playing epoch
abbrev pub published_off : Running → Running
published_off r =
    if not (is_some r.locals.output_epoch) && not (active r.desk.player)
    then record r { desk = on_session (set_local_output_epoch none) r.desk }
    else r

unfoldable pub on_playback : Setting → LoopMethod (Unit {0})
on_playback c r =
    (at_desk (on_player (service c.speaker.child) r.desk) >> λ s. (returned tt, published_off s)) r

abbrev pub send_packet : Pass → Option AudioPacket → ℕ → LoopMethod (Unit {0})
send_packet p none remaining r = (returned tt, r)
send_packet p (some packet) remaining r =
    let activity = (if pcm_has_signal packet.samples then p.later else r.locals.last_activity) in
    (send p (audio_frame packet.samples) >> λ s. (
      returned tt,
      record s {
        locals = record s.locals {
          last_activity = activity;
          pacer = sent p.now (length packet.samples) (ltb 0 remaining);
        };
      },
    ))
      r

abbrev pub with_audio : Running → Running
with_audio r = record r {
  desk = record r.desk { session = record r.desk.session { audio = (pop r.desk.session.audio).1 } };
}

unfoldable pub on_microphone : Pass → LoopMethod (Unit {0})
on_microphone p r =
    if not r.locals.interrupt_sent && due p.now r.locals.pacer
    then send_packet p (pop r.desk.session.audio).0.0 (pop r.desk.session.audio).0.1 (with_audio r)
    else (returned tt, r)

unfoldable pub on_ping : Pass → LoopMethod (Unit {0})
on_ping p r =
    let config = r.desk.session.config in
    if not (is_some r.locals.pending_ping) && leb r.locals.next_ping_at p.now
    then (send p (ping_frame p.random) >> λ s. (
      returned tt,
      record s {
        locals = record s.locals {
          pong_deadline = some (p.now + config.pong_timeout);
          next_ping_at = p.now + config.ping_interval;
        };
      },
    ))
        (record r { locals = record r.locals { pending_ping = some p.random } })
    else (returned tt, r)

-- Time is counted in 1/64000 of a second, as for the pacer: the tick is 20 ms.
abbrev pub network_tick : ℕ
network_tick = 1280

-- `pacer.delay(now) or _NETWORK_TICK_SECONDS`
abbrev pub or_tick : ℕ → ℕ
or_tick n = if n == 0 then network_tick else n

abbrev pub deadline_or : ℕ → Option ℕ → ℕ
deadline_or now none = now
deadline_or now (some d) = d

-- How long the pass waits for the socket; the subtractions stop at 0, as the code's `max(0.0, ...)`.
unfoldable pub wait_time : Setting → Pass → Running → ℕ
wait_time c p r =
    let config = r.desk.session.config in
    let l = r.locals in
    let ping_wait =
      (if is_some l.pending_ping
        then deadline_or p.now l.pong_deadline - p.now
        else l.next_ping_at - p.now) in
    min network_tick (
      min (or_tick (delay p.now l.pacer)) (
        min ping_wait (
          min (c.started_at + config.max_session - p.now)
            (l.last_activity + config.idle_timeout - p.now))))
