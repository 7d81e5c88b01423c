-- ===== src/Bridge/AppServer/Once.antt =====
-- About the answers to one request of the app-server over the runs of bridge/app_server.py.
use ha_codex_voice.Prelude.{
  if_elim, ℕ, ◌+◌, ◌≡◌, refl, String, Bool, true, false, not, ◌&&◌, ◌||◌, Option, none, some, List,
  [], ◌∷◌, arith,
}
use ha_codex_voice.Prelude.Action.{Outcome}
use ha_codex_voice.Json.{Value, Fields}
use ha_codex_voice.Bridge.AppServer.Table.{Key, key_of, Item, lookup}
use ha_codex_voice.Bridge.AppServer.Client.{
  AppServer, Wakeup, app_server, Fault, Cell, Timer, no_timer, sleeping, ended, update, start_call,
  finish_call, subscribe,
}
use ha_codex_voice.Bridge.AppServer.Responses.{
  Responder, respond_result, outcome_unknown, result_message,
}
use ha_codex_voice.Bridge.AppServer.World.{
  World, Call, Event, step, run, split_at, entered, started_call, woken, is_enabled, acquiring,
  finishing, expired, on_exit, start, close, shut, cancel_all, starts, initializes, receives, exits,
  calls_method, wakes, responds, acquires, finishes, expires, subscribes, takes, unsubscribes,
  closes, shuts,
}
use ha_codex_voice.Bridge.AppServer.Answers.{
  bit, writes, writers, answers, Splits, split_at-Splits, Once, respond-Idle, entered-Once,
  route_message-Calm,
}
use ha_codex_voice.Bridge.AppServer.Locks.{acquire-Once, finishing-Once}

abbrev pub new_world : World
new_world = record { server = app_server; calls = []; responders = [] }

module _ (c : ℕ) where
  -- The rest of the client does not matter.
  beside :
      (w : World) (s : AppServer) (calls : List Call)
      → Once c w
      → s.lines ≡ w.server.lines
      → s.states ≡ w.server.states
      → s.next_cell ≡ w.server.next_cell
      → (s.cells c).locked ≡ (w.server.cells c).locked
      → (s.cells c).written ≡ (w.server.cells c).written
      → Once c (record w { server = s; calls = calls })
  beside w s calls h el es en ek ew = record {
    held = ground (arith, h.held);
    settled = record {
      exclusive = ground (arith, h.settled.exclusive);
      counted = ground (arith, h.settled.counted);
      known = rw (es, en) h.settled.known;
      unused = ground (arith, h.settled.unused);
    };
  }

  start-Once : (w : World) → Once c w → Once c (record w { server = (start w.server).1 })
  unfolding start
  start-Once w h =
      if_elim (λ (p : Outcome Fault Bool × AppServer). Once c (record w { server = p.1 }))
        (w.server.alive && w.server.initialized) _ _ (λ _. h)
        λ _.
          if_elim (λ (p : Outcome Fault Bool × AppServer). Once c (record w { server = p.1 }))
            w.server.closed _ _ (λ _. h) λ _. beside w _ w.calls h refl refl refl refl refl

  start_call-Once :
      (method : String) (w : World)
      → Once c w
      → Once c (started_call method (start_call w.server).0 (start_call w.server).1 w)
  unfolding start_call
  start_call-Once method w h =
      if_elim (λ (p : Outcome Fault ℕ × AppServer). Once c (started_call method p.0 p.1 w))
        (not w.server.alive) _ _ (λ _. h) λ _. beside w _ _ h refl refl refl refl refl

  woken-Once :
      (o : Option (Call × List Call)) (wakeup : Wakeup) (w : World)
      → Once c w
      → Once c (woken o wakeup w)
  unfolding finish_call
  woken-Once none wakeup w h = h
  woken-Once (some (d, rest)) wakeup w h =
      if_elim (Once c) (is_enabled wakeup (w.server.futures d.request_id)) _ _
        (λ _. beside w _ rest h refl refl refl refl refl) λ _. h

  acquiring-Once :
      (r : Responder) (rest : List Responder) (w : World)
      → writers c w.responders ≡ bit (writes c r) + writers c rest
      → Once c w
      → (o : Option ℕ) → r.cell ≡ o
      → Once c (acquiring o r rest w)
  acquiring-Once r rest w k h none e = h
  acquiring-Once r rest w k h (some d) e =
      if_elim (Once c) (r.writing || (w.server.cells d).locked) _ _ (λ _. h)
        λ f. acquire-Once c d r rest w e (ground arith) (ground arith) k h

  expired-Once : (d : ℕ) (w : World) → Once c w → (t : Timer) → Once c (expired d t w)
  expired-Once d w h no_timer = h
  expired-Once d w h ended = h
  expired-Once d w h (sleeping id key) =
      entered-Once c _ _ w (respond-Idle c key (result_message id outcome_unknown) (some d) true _)
        h
        (
          record {
            exclusive = ground (arith, h.settled.exclusive);
            counted = ground (arith, h.settled.counted);
            known = h.settled.known;
            unused = ground (arith, h.settled.unused);
          },
          ground arith,
        )

  close-Once : (w : World) → Once c w → Once c (record w { server = close w.server })
  unfolding close
  close-Once w h =
      if_elim (λ s. Once c (record w { server = s })) w.server.closed _ _ (λ _. h)
        λ _. beside w _ w.calls h refl refl refl refl refl

  cancel_all-Same :
      (d : List (Item ℕ)) (cells : ℕ → Cell)
      → ((cancel_all d cells c).locked ≡ (cells c).locked)
        × ((cancel_all d cells c).written ≡ (cells c).written)
  unfolding cancel_all
  cancel_all-Same [] cells = (refl, refl)
  cancel_all-Same (e ∷ d) cells =
      ground
        (arith, cancel_all-Same d (update e.value (record (cells e.value) { timer = ended }) cells))

  shut-Once : (w : World) → Once c w → Once c (record w { server = shut w.server })
  unfolding shut
  shut-Once w h =
      let k = cancel_all-Same w.server.timers w.server.cells in
      if_elim (λ s. Once c (record w { server = s })) (not w.server.closed) _ _ (λ _. h)
        λ _. record {
          held = ground (arith, h.held, k.0);
          settled = record {
            exclusive = ground (arith, h.settled.exclusive, k.0, k.1);
            counted = ground (arith, h.settled.counted, k.1);
            known = tt;
            unused = ground (arith, h.settled.unused, k.0, k.1);
          };
        }

  respond-Once :
      (id : Value) (message : Fields) (w : World)
      → Once c w
      → (o : Option Key)
      → Once c (elim o as (λ _. World) [
        | none ↦ w
        | some key ↦ entered (respond_result key message w.server) w.server w
      ])
  unfolding respond_result
  respond-Once id message w h none = h
  respond-Once id message w h (some key) =
      entered-Once c _ _ w (respond-Idle c key message (lookup key w.server.states) false w.server)
        h (h.settled, refl)

  taken-Once :
      (f : Responder → List Responder → World) (w : World)
      → Once c w
      → ((r : Responder) (rest : List Responder)
          → writers c w.responders ≡ bit (writes c r) + writers c rest
          → Once c (f r rest))
      → (o : Option (Responder × List Responder)) → Splits c w.responders o
      → Once c (elim o as (λ _. World) [ none ↦ w | some (r, rest) ↦ f r rest ])
  taken-Once f w h k none e = h
  taken-Once f w h k (some (r, rest)) e = k r rest e

  step-Once : (e : Event) (w : World) → Once c w → Once c (step e w)
  unfolding step on_exit subscribe
  step-Once starts w h = start-Once w h
  step-Once initializes w h = beside w _ w.calls h refl refl refl refl refl
  step-Once (receives message) w h =
      let q = route_message-Calm c message w.server h.settled in entered-Once c _ _ w q.0 h q.1
  step-Once (exits params) w h = beside w _ w.calls h refl refl refl refl refl
  step-Once (calls_method method) w h = start_call-Once method w h
  step-Once (wakes n wakeup) w h = woken-Once (split_at n w.calls) wakeup w h
  step-Once (responds id message) w h = respond-Once id message w h (key_of id)
  step-Once (acquires n) w h =
      taken-Once (λ r rest. acquiring r.cell r rest w) w h
        (λ r rest e. acquiring-Once r rest w e h r.cell refl) (split_at n w.responders)
        (split_at-Splits c n w.responders)
  step-Once (finishes n outcome) w h =
      taken-Once (λ r rest. finishing r rest outcome w) w h
        (λ r rest e. finishing-Once c r rest outcome w e h) (split_at n w.responders)
        (split_at-Splits c n w.responders)
  step-Once (expires d) w h = expired-Once d w h (w.server.cells d).timer
  step-Once (subscribes maxsize) w h = beside w _ w.calls h refl refl refl refl refl
  step-Once (takes n) w h = beside w _ w.calls h refl refl refl refl refl
  step-Once (unsubscribes n) w h = beside w _ w.calls h refl refl refl refl refl
  step-Once closes w h = close-Once w h
  step-Once shuts w h = shut-Once w h

  run-Once : (es : List Event) (w : World) → Once c w → Once c (run es w)
  unfolding run
  run-Once [] w h = h
  run-Once (e ∷ es) w h = run-Once es (step e w) (step-Once e w h)

  -- In every run of a new client, with any interleaving of the reader, the calls, the answers, the
  -- timeouts, failed writes and `close`: through the state of a request for a tool at most one answer
  -- is written completely, at most one is being written at a time, and none is any more once one is
  -- written. Answers are counted as long as that state is kept: once the id of an answered request is
  -- evicted from the retired ones, a further answer has no state to go through.
  pub run-new_world-Once :
      (es : List Event)
      → let w = run es new_world in
        (answers c w.server.lines ≡ bit (w.server.cells c).written)
        × (writers c w.responders ≡ bit (w.server.cells c).locked)
        × ((w.server.cells c).written ≡ true → writers c w.responders ≡ 0)
  unfolding app_server
  run-new_world-Once es =
      let h = run-Once es new_world (record {
        held = refl;
        settled = record {
          exclusive = λ p. refl;
          counted = refl;
          known = tt;
          unused = λ _. (refl, refl);
        };
      }) in
      (h.settled.counted, h.held, ground (arith, h.held, h.settled.exclusive))
