-- ===== src/Bridge/WebRtc/Transport.antt =====
-- A receive queue of `WebRtcPeer` of bridge/webrtc.py, live queue and cancellation replay, with one
-- receiver. `_recv_transport_queue` is cut at its await: it begins, its inner task may win an item,
-- and it resumes, times out or is cancelled.
use ha_codex_voice.Prelude.{
  ℕ, ◌+◌, Bool, true, false, not, ◌&&◌, ◌||◌, Option, none, some, is_some, List, [], ◌∷◌, ◌++◌, leb,
  ltb, is_empty, if◌then◌else◌, length,
}

-- The `ProtocolError` of the first terminal fault.
pub data TransportError : Type 0 where
  overflow replay_overflow connection_lost channel_ended audio_ended : TransportError

pub data Receiver (A : Type 0) : Type 0 where
  idle : Receiver A
  waiting : Receiver A
  won : A → Receiver A

pub record Transport (A : Type 0) : Type 0 where
  pub maxsize : ℕ
  pub queue : List A
  pub replay : List A
  pub transport_error : Option TransportError
  pub closed : Bool
  pub receiver : Receiver A

pub data Event (A : Type 0) : Type 0 where
  puts : A → Event A
  begins wins : Event A
  resumes : Bool → Event A
  times_out cancels drains closes : Event A
  fails : TransportError → Event A

-- `maxsize > 0 and size >= maxsize`
abbrev pub is_at : ℕ → ℕ → Bool
is_at maxsize size = ltb 0 maxsize && leb maxsize size

module _ {A : Type 0} where
  unfoldable pub transport : ℕ → Transport A
  transport maxsize = record {
    maxsize = maxsize;
    queue = [];
    replay = [];
    transport_error = none;
    closed = false;
    receiver = idle;
  }

  -- `_fail_transport`
  unfoldable pub fail_transport : TransportError → Transport A → Transport A
  fail_transport e t =
      if t.closed || is_some t.transport_error then t else record t { transport_error = some e }

  -- `_put_transport_item`, and whether the item was taken
  unfoldable pub put_transport_item : A → Transport A → Bool × Transport A
  put_transport_item item t =
      if is_at t.maxsize (length t.replay + length t.queue)
      then (false, fail_transport overflow t)
      else if is_at t.maxsize (length t.queue)
      then (false, fail_transport overflow t)
      else (true, record t { queue = t.queue ++ (item ∷ []) })

  abbrev pub first_replay : List A → Transport A → List A × Transport A
  first_replay [] t = ([], record t { receiver = waiting })
  first_replay (item ∷ rest) t = (item ∷ [], record t { replay = rest })

  -- `_recv_transport_queue` up to its await, and what it returns at once; a raise returns nothing.
  unfoldable pub begin_receive : Transport A → List A × Transport A
  begin_receive t = if is_some t.transport_error then ([], t) else first_replay t.replay t

  abbrev pub take_oldest : List A → Transport A → Transport A
  take_oldest [] t = t
  take_oldest (item ∷ rest) t = record t { queue = rest; receiver = won item }

  -- The inner `queue.get()` takes the oldest item.
  unfoldable pub win : Transport A → Transport A
  win t = take_oldest t.queue t

  -- `_restore_cancelled_receive`
  unfoldable pub restore_cancelled_receive : A → Transport A → Transport A
  restore_cancelled_receive item t =
      if not (is_empty t.replay) || is_at t.maxsize (length t.replay + length t.queue)
      then fail_transport replay_overflow t
      else record t { replay = item ∷ t.replay }

  -- The receive goes on after its wait: `seen` is whether the failure task is done.
  abbrev pub resumed : Bool → Receiver A → Transport A → List A × Transport A
  resumed seen (won item) t =
      if seen && is_some t.transport_error
      then ([], record t { receiver = idle })
      else (item ∷ [], record t { receiver = idle })
  resumed seen waiting t =
      if seen && is_some t.transport_error then ([], record t { receiver = idle }) else ([], t)
  resumed seen idle t = ([], t)

  abbrev pub cancelled : Receiver A → Transport A → Transport A
  cancelled (won item) t = restore_cancelled_receive item (record t { receiver = idle })
  cancelled waiting t = record t { receiver = idle }
  cancelled idle t = t

  -- `drain_audio_nowait`, `drain_data_events_nowait`
  unfoldable pub drain_nowait : Transport A → List A × Transport A
  drain_nowait t =
      if is_some t.transport_error
      then ([], t)
      else (t.replay ++ t.queue, record t { replay = []; queue = [] })

  abbrev pub is_idle : Receiver A → Bool
  is_idle idle = true
  is_idle _ = false

  abbrev pub is_waiting : Receiver A → Bool
  is_waiting waiting = true
  is_waiting _ = false

  -- One stretch of the event loop: what it hands to a consumer. A receive that times out has won
  -- nothing.
  unfoldable pub step : Event A → Transport A → List A × Transport A
  step (puts item) t = ([], (put_transport_item item t).1)
  step begins t = if is_idle t.receiver then begin_receive t else ([], t)
  step wins t = if is_waiting t.receiver then ([], win t) else ([], t)
  step (resumes seen) t = resumed seen t.receiver t
  step times_out t = if is_waiting t.receiver then ([], record t { receiver = idle }) else ([], t)
  step cancels t = ([], cancelled t.receiver t)
  step drains t = drain_nowait t
  step closes t = ([], record t { closed = true })
  step (fails e) t = ([], fail_transport e t)

  -- What a run hands out, and its end.
  unfoldable pub run : List (Event A) → Transport A → List A × Transport A
  run [] t = ([], t)
  run (e ∷ es) t = let (out, t') = step e t in let (later, t'') = run es t' in (out ++ later, t'')

  abbrev pub taken : Event A → Transport A → List A
  taken (puts item) t = if (put_transport_item item t).0 then item ∷ [] else []
  taken _ t = []

  -- The items that a run takes in.
  unfoldable pub accepted : List (Event A) → Transport A → List A
  accepted [] t = []
  accepted (e ∷ es) t = taken e t ++ accepted es (step e t).1
