-- ===== src/Bridge/AppServer/World.antt =====
-- The runs of the client of bridge/app_server.py: the stretches of the reader, of the calls, of the
-- responses and of the timers between two awaits, in any order.
use ha_codex_voice.Prelude.{
  ℕ, zero, suc, String, Bool, true, false, not, ◌&&◌, ◌||◌, Option, none, some, List, [], ◌∷◌, ◌++◌,
  if◌then◌else◌,
}
use ha_codex_voice.Prelude.Action.{Outcome, returned, raised}
use ha_codex_voice.Json.{Value, Fields, text, object, field, end}
use ha_codex_voice.Bridge.AppServer.Table.{key_of, Item}
use ha_codex_voice.Bridge.AppServer.Client.{
  AppServer, Fault, exited, Future, Timer, no_timer, sleeping, ended, Cell, Subscription, Wakeup,
  answered, update, start_call, finish_call, fail_pending, broadcast, subscribe, close_subscription,
  get_nowait,
}
use ha_codex_voice.Bridge.AppServer.Responses.{
  Responder, Written, respond, respond_result, acquire, finish_response, leave, result_message,
  outcome_unknown, route_message,
}

pub record Call : Type 0 where
  pub method : String
  pub request_id : ℕ

-- The client, the calls that are suspended and the responses that are.
pub record World : Type 0 where
  pub server : AppServer
  pub calls : List Call
  pub responders : List Responder

pub data Event : Type 0 where
  starts initializes : Event
  receives : Fields → Event
  exits : Fields → Event
  calls_method : String → Event
  wakes : ℕ → Wakeup → Event
  responds : Value → Fields → Event
  acquires : ℕ → Event
  finishes : ℕ → Written → Event
  expires : ℕ → Event
  subscribes : ℕ → Event
  takes : ℕ → Event
  unsubscribes : ℕ → Event
  closes shuts : Event

-- One element taken out of a list.
abbrev pub split_at {ℓ} : {A : Type ℓ} → ℕ → List A → Option (A × List A)
split_at n [] = none
split_at zero (t ∷ ts) = some (t, ts)
split_at (suc n) (t ∷ ts) = elim (split_at n ts) [ none ↦ none | some (u, us) ↦ some (u, t ∷ us) ]

abbrev pub entered : Outcome Fault (Option Responder) → AppServer → World → World
entered (returned (some r)) s w = record w { server = s; responders = w.responders ++ (r ∷ []) }
entered (returned none) s w = record w { server = s }
entered (raised e) s w = record w { server = s }

abbrev pub started_call : String → Outcome Fault ℕ → AppServer → World → World
started_call method (returned n) s w = record w {
  server = s;
  calls = w.calls ++ (record { method = method; request_id = n } ∷ []);
}
started_call method (raised e) s w = record w { server = s }

-- A call wakes at its future only when that is done.
abbrev pub is_enabled : Wakeup → Future → Bool
is_enabled answered Future.waiting = false
is_enabled answered _ = true
is_enabled _ _ = true

abbrev pub woken : Option (Call × List Call) → Wakeup → World → World
woken none wakeup w = w
woken (some (c, rest)) wakeup w =
    if is_enabled wakeup (w.server.futures c.request_id)
    then record w { server = (finish_call c.method c.request_id wakeup w.server).1; calls = rest }
    else w

-- What becomes of a responder that has got its lock: it writes, or it is over.
abbrev pub acquired :
    Outcome Fault (Option Responder) → AppServer → ℕ → Responder → List Responder → World → World
acquired (returned (some r')) s c r rest w = record w { server = s; responders = r' ∷ rest }
acquired (returned none) s c r rest w = record w { server = leave (some c) r s; responders = rest }
acquired (raised e) s c r rest w = record w { server = leave (some c) r s; responders = rest }

abbrev pub acquiring : Option ℕ → Responder → List Responder → World → World
acquiring none r rest w = w
acquiring (some c) r rest w =
    if r.writing || (w.server.cells c).locked
    then w
    else acquired (acquire c r w.server).0 (acquire c r w.server).1 c r rest w

abbrev pub finishing : Responder → List Responder → Written → World → World
finishing r rest outcome w =
    if r.writing
    then record w {
      server = leave r.cell r (finish_response r.cell r outcome w.server);
      responders = rest;
    }
    else w

abbrev pub expired : ℕ → Timer → World → World
expired c no_timer w = w
expired c ended w = w
expired c (sleeping id key) w =
    let s = record w.server {
      cells = update c (record (w.server.cells c) { timer = ended }) w.server.cells;
    } in
    entered (respond key (result_message id outcome_unknown) (some c) true s) s w

abbrev pub at_subscription :
    ℕ → (Subscription → Subscription) → List Subscription → List Subscription
at_subscription n f [] = []
at_subscription zero f (q ∷ qs) = f q ∷ qs
at_subscription (suc n) f (q ∷ qs) = q ∷ at_subscription n f qs

-- Each timer of the dict is cancelled.
unfoldable pub cancel_all : List (Item ℕ) → (ℕ → Cell) → ℕ → Cell
cancel_all [] cells = cells
cancel_all (e ∷ d) cells =
    cancel_all d (update e.value (record (cells e.value) { timer = ended }) cells)

abbrev pub close_all : List Subscription → List Subscription
close_all [] = []
close_all (q ∷ qs) = close_subscription q ∷ close_all qs

-- The end of `_read_stdout`: the process is gone.
unfoldable pub on_exit : Fields → AppServer → AppServer
on_exit params s = record s {
  alive = false;
  initialized = false;
  futures = fail_pending exited s.pending s.futures;
  subscriptions =
      broadcast
        (field "method" (text "bridge/appServerExited") (field "params" (object params) end))
        s.subscriptions;
}

-- `start` up to its first await: whether a process is launched.
unfoldable pub start : AppServer → Outcome Fault Bool × AppServer
start s =
    if s.alive && s.initialized
    then (returned false, s)
    else if s.closed
    then (raised exited, s)
    else (returned true, record s { alive = true })

-- `close` up to its await, and from where the process is stopped.
unfoldable pub close : AppServer → AppServer
close s = if s.closed then s else record s { closed = true; initialized = false }

unfoldable pub shut : AppServer → AppServer
shut s = if not s.closed then s else record s {
  alive = false;
  futures = fail_pending exited s.pending s.futures;
  timers = [];
  states = [];
  retired = [];
  cells = cancel_all s.timers s.cells;
  subscriptions = close_all s.subscriptions;
}

unfoldable pub step : Event → World → World
step starts w = record w { server = (start w.server).1 }
step initializes w = record w { server = record w.server { initialized = w.server.alive } }
step (receives message) w =
    entered (route_message message w.server).0 (route_message message w.server).1 w
step (exits params) w = record w { server = on_exit params w.server }
step (calls_method method) w = started_call method (start_call w.server).0 (start_call w.server).1 w
step (wakes n wakeup) w = woken (split_at n w.calls) wakeup w
step (responds id message) w = elim (key_of id) [
  | none ↦ w
  | some key ↦ entered (respond_result key message w.server) w.server w
]
step (acquires n) w = elim (split_at n w.responders) [
  | none ↦ w
  | some (r, rest) ↦ acquiring r.cell r rest w
]
step (finishes n outcome) w = elim (split_at n w.responders) [
  | none ↦ w
  | some (r, rest) ↦ finishing r rest outcome w
]
step (expires c) w = expired c (w.server.cells c).timer w
step (subscribes maxsize) w = record w { server = subscribe maxsize w.server }
step (takes n) w = record w {
  server = record w.server {
    subscriptions = at_subscription n (λ q. (get_nowait q).1) w.server.subscriptions;
  };
}
step (unsubscribes n) w = record w {
  server = record w.server {
    subscriptions = at_subscription n close_subscription w.server.subscriptions;
  };
}
step closes w = record w { server = close w.server }
step shuts w = record w { server = shut w.server }

unfoldable pub run : List Event → World → World
run [] w = w
run (e ∷ es) w = run es (step e w)
