-- ===== src/Device/Session/Player.antt =====
-- `_PcmPlayer` of session.py with `_terminate_and_reap`. The paplay child is a parameter: what
-- `Popen`, `poll`, `write`, `wait` and the signals answer on each successive call. Of the child's
-- side the state keeps the bytes that its stdin took, how many children were started, and how many the
-- player has let go: reaped, or given up after SIGKILL, as `_terminate_and_reap` returns in both cases.
use ha_codex_voice.Prelude.{
  ℕ, ◌+◌, ◌*◌, ◌/◌, Bool, true, false, not, ◌&&◌, ◌||◌, Option, none, some, is_some, List, [], ◌∷◌,
  ◌++◌, length, is_empty, take, drop, ltb, ◌==◌, if◌then◌else◌,
}
use ha_codex_voice.Prelude.Action.{returned, raised, Action, ◌>>◌}

-- The messages with which the player raises `WebSocketError`.
pub data PlayerError : Type 0 where
  not_started no_stdin stdin_not_configured outside_epoch queue_exceeded : PlayerError
  exited_early rejected_output not_reaped : PlayerError

-- How the start of a child ends: `Popen` raises, the child has no stdin, its stdin cannot be made
-- non-blocking, or all is well.
pub data Spawned : Type 0 where
  popen_failed without_stdin unconfigurable running : Spawned

-- One `os.write`: it would block, it raises, or it takes so many bytes.
pub data Written : Type 0 where
  blocked broken : Written
  wrote : ℕ → Written

pub record Paplay : Type 0 where
  pub spawn : ℕ → Spawned
  -- `poll() is not None`
  pub exited : ℕ → Bool
  pub write : ℕ → List ℕ → Written
  -- `wait(timeout=...)` returns
  pub waited : ℕ → Bool

pub record Player : Type 0 where
  pub maximum_bytes : ℕ
  pub process : Bool
  pub stdin : Bool
  pub pending : List ℕ
  pub finish_when_drained : Bool
  pub epoch : Option ℕ
  -- the child's side
  pub taken : List ℕ
  pub started : ℕ
  -- reaped, or given up
  pub reaped : ℕ
  pub calls : ℕ

abbrev pub PlayerMethod : Type 0 → Type 0
PlayerMethod = Action Player PlayerError

pub player : ℕ → Player
player maximum_bytes = record {
  maximum_bytes = maximum_bytes;
  process = false;
  stdin = false;
  pending = [];
  finish_when_drained = false;
  epoch = none;
  taken = [];
  started = 0;
  reaped = 0;
  calls = 0;
}

-- `_PULSE_VOLUME_NORM * volume_percent // 100`
unfoldable pub paplay_volume : Option ℕ → Option ℕ
paplay_volume none = none
paplay_volume (some volume_percent) = some (65536 * volume_percent / 100)

unfoldable pub active : Player → Bool
active p = p.process || not (is_empty p.pending)

abbrev pub player_write_bytes : ℕ
player_write_bytes = 16384

unfoldable pub abort : Player → Player
abort p = record p {
  process = false;
  stdin = false;
  pending = [];
  finish_when_drained = false;
  epoch = none;
  reaped = (if p.process then p.reaped + 1 else p.reaped);
}

unfoldable pub enqueue : List ℕ → PlayerMethod (Unit {0})
enqueue value p =
    if not p.process || (not p.stdin || not (is_some p.epoch))
    then (raised outside_epoch, p)
    else if ltb p.maximum_bytes (length p.pending + length value)
    then (raised queue_exceeded, p)
    else (returned tt, record p { pending = p.pending ++ value })

-- The bytes that one `write` of the head of `pending` takes.
abbrev pub after_write : Written → PlayerMethod (Unit {0})
after_write blocked p = (returned tt, p)
after_write broken p = (raised rejected_output, p)
after_write (wrote n) p =
    (returned tt, record p { pending = drop n p.pending; taken = p.taken ++ take n p.pending })

unfoldable pub close_if_drained : Player → Player
close_if_drained p =
    if p.finish_when_drained && (is_empty p.pending && p.stdin)
    then record p { stdin = false }
    else p

abbrev pub is_epoch : Option ℕ → ℕ → Bool
is_epoch none e = false
is_epoch (some d) e = d == e

module _ (child : Paplay) where
  unfoldable pub begin : ℕ → PlayerMethod (Unit {0})
  unfolding abort
  begin epoch p =
      let q = abort p in
      let fresh = record q { started = q.started + 1; taken = [] } in
      elim (child.spawn p.started) [
        | popen_failed ↦ (raised not_started, q)
        | without_stdin ↦ (raised no_stdin, record fresh { reaped = q.reaped + 1 })
        | unconfigurable ↦ (raised stdin_not_configured, record fresh { reaped = q.reaped + 1 })
        | running ↦ (
          returned tt,
          record fresh {
            process = true;
            stdin = true;
            finish_when_drained = false;
            epoch = some epoch;
          },
        )
      ]

  -- The references are dropped before the wait, whether or not it returns.
  unfoldable pub reap_finished : PlayerMethod (Unit {0})
  reap_finished p =
      let q = record p {
        process = false;
        stdin = false;
        epoch = none;
        finish_when_drained = false;
        reaped = p.reaped + 1;
      } in
      if child.waited p.started then (returned tt, q) else (raised not_reaped, q)

  abbrev pub write_pending : PlayerMethod (Unit {0})
  write_pending p =
      if not (is_empty p.pending) && p.stdin
      then after_write (child.write p.calls (take player_write_bytes p.pending))
          (record p { calls = p.calls + 1 })
      else (returned tt, p)

  abbrev pub poll_and_reap : PlayerMethod (Unit {0})
  poll_and_reap p =
      let q = record p { calls = p.calls + 1 } in
      if child.exited p.calls then reap_finished q else (returned tt, q)

  -- `service` on a live process
  unfoldable pub service_process : PlayerMethod (Unit {0})
  service_process p =
      let q = record p { calls = p.calls + 1 } in
      if child.exited p.calls
      then (if is_empty p.pending then reap_finished q else (raised exited_early, q))
      else (write_pending >> ((λ s. (returned tt, close_if_drained s)) >> poll_and_reap)) q

  unfoldable pub service : PlayerMethod (Unit {0})
  service p = if p.process then service_process p else (returned tt, p)

  unfoldable pub finish : ℕ → PlayerMethod (Unit {0})
  finish epoch p =
      if is_epoch p.epoch epoch
      then service (record p { finish_when_drained = true })
      else (returned tt, p)

-- `_terminate_and_reap`: what it does to the child, by what `poll`, `terminate` and the two `wait`s
-- do. Nothing escapes it.
pub data Signal : Type 0 where
  terminate kill : Signal

-- `process.poll() is None`; where `poll` raises, the child counts as running.
abbrev seems_running : Option Bool → Bool
seems_running none = true
seems_running (some has_exited) = not has_exited

unfoldable pub terminate_and_reap : Option Bool → Bool → List Signal
terminate_and_reap polled first_wait_returns =
    (if seems_running polled then terminate ∷ [] else [])
    ++ (if first_wait_returns then [] else kill ∷ [])
