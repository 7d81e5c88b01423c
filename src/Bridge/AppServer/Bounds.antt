-- ===== src/Bridge/AppServer/Bounds.antt =====
-- About the bounds of the client of bridge/app_server.py over its runs, and its table of calls.
use ha_codex_voice.Prelude.{
  if_elim, ℕ, zero, suc, ◌≤◌, ◌<◌, ◌≡◌, refl, String, Bool, true, not, ◌&&◌, ◌||◌, Option, none,
  some, List, [], ◌∷◌, ◌++◌, length, All, arith, ap, ◌∙◌, sym,
}
use ha_codex_voice.Prelude.Action.{Outcome, returned, raised}
use ha_codex_voice.Bridge.AppServer.Table.{Key, key_of}
use ha_codex_voice.Bridge.AppServer.Client.{
  AppServer, app_server, Fault, Wakeup, Timer, no_timer, sleeping, ended, update, start_call,
  finish_call, subscribe, without,
}
use ha_codex_voice.Bridge.AppServer.Responses.{
  Responder, Written, respond, respond_result, finish_response, outcome_unknown, result_message,
}
use ha_codex_voice.Bridge.AppServer.World.{
  World, Call, Event, step, run, split_at, entered, started_call, woken, is_enabled, acquired,
  acquiring, finishing, expired, on_exit, start, starts, initializes, receives, exits, calls_method,
  wakes, responds, acquires, finishes, expires, subscribes, takes, unsubscribes, closes, shuts,
}
use ha_codex_voice.Bridge.AppServer.Once.{new_world}
use ha_codex_voice.Bridge.AppServer.Queues.{
  IsBounded, Ascending, request_ids, close-IsBounded, get_nowait-IsBounded, Ascending-snoc,
  request_ids-snoc,
}
use ha_codex_voice.Bridge.AppServer.Limits.{
  Safe, Safe-same, Safe-trans, leave-Safe, route_message-Safe, exit-Safe, subscribe-Safe,
  at_subscription-Safe, close-Safe, shut-Safe, acquire-Safe, finish_response-Safe,
}

pub record Bounded (w : World) : Type 0 where
  pub few_retired : length w.server.retired ≤ 1024
  pub queues : All IsBounded w.server.subscriptions
  pub ids : w.server.pending ≡ request_ids w.calls
  pub ascending : Ascending 1 w.server.pending w.server.next_id

without_above : (n m hi : ℕ) (ns : List ℕ) → n < m → Ascending m ns hi → without n ns ≡ ns
without_above n m hi [] l h = refl
without_above n m hi (k ∷ ns) l h = ground (arith, without_above n (suc k) hi ns (omega arith) h.1)

Ascending-weaken : (l m hi : ℕ) (ns : List ℕ) → l ≤ m → Ascending m ns hi → Ascending l ns hi
Ascending-weaken l m hi [] le a = omega arith
Ascending-weaken l m hi (n ∷ ns) le a = (omega arith, a.1)

-- A call that is taken out takes its id out of the table.
abbrev Takes : ℕ → ℕ → List Call → Option (Call × List Call) → Type 0
Takes lo hi cs none = Unit
Takes lo hi cs (some (d, rest)) =
    (request_ids rest ≡ without d.request_id (request_ids cs))
    × Ascending lo (request_ids rest) hi
    × (lo ≤ d.request_id)

split_at-Takes :
    (n lo hi : ℕ) (cs : List Call)
    → Ascending lo (request_ids cs) hi
    → Takes lo hi cs (split_at n cs)
split_at-Takes n lo hi [] h = tt
split_at-Takes zero lo hi (u ∷ us) h = (
  ground (arith, without_above u.request_id (suc u.request_id) hi (request_ids us)),
  Ascending-weaken lo (suc u.request_id) hi (request_ids us) (omega (arith, h.0)) h.1,
  h.0,
)
split_at-Takes (suc n) lo hi (u ∷ us) h =
    go (split_at n us) (split_at-Takes n (suc u.request_id) hi us h.1)
  where
    go :
        (o : Option (Call × List Call))
        → Takes (suc u.request_id) hi us o
        → Takes lo hi (u ∷ us) (elim o as (λ _. Option (Call × List Call)) [
          | none ↦ none
          | some (v, vs) ↦ some (v, u ∷ vs)
        ])
    go none k = tt
    go (some (v, vs)) k = (ground (arith, k.0, k.2), (h.0, k.1), omega (arith, h.0, k.2))

kept :
    (w : World) (s : AppServer) (responders : List Responder)
    → Bounded w
    → Safe w.server s
    → Bounded (record w { server = s; responders = responders })
kept w s responders h k = record {
  few_retired = k.retires h.few_retired;
  queues = k.queues h.queues;
  ids = k.same_pending ∙ h.ids;
  ascending = rw (k.same_pending, k.same_next) h.ascending;
}

entered-Bounded :
    (o : Outcome Fault (Option Responder)) (s : AppServer) (w : World)
    → Bounded w
    → Safe w.server s
    → Bounded (entered o s w)
entered-Bounded (returned (some r)) s w h k = kept w s (w.responders ++ (r ∷ [])) h k
entered-Bounded (returned none) s w h k = kept w s w.responders h k
entered-Bounded (raised e) s w h k = kept w s w.responders h k

start-Bounded : (w : World) → Bounded w → Bounded (record w { server = (start w.server).1 })
unfolding start
start-Bounded w h =
    if_elim (λ (p : Outcome Fault Bool × AppServer). Bounded (record w { server = p.1 }))
      (w.server.alive && w.server.initialized) _ _ (λ _. h)
      λ _.
        if_elim (λ (p : Outcome Fault Bool × AppServer). Bounded (record w { server = p.1 }))
          w.server.closed _ _ (λ _. h)
          λ _. kept w _ w.responders h (Safe-same w.server _ refl refl refl refl)

start_call-Bounded :
    (method : String) (w : World)
    → Bounded w
    → Bounded (started_call method (start_call w.server).0 (start_call w.server).1 w)
unfolding start_call
start_call-Bounded method w h =
    if_elim (λ (p : Outcome Fault ℕ × AppServer). Bounded (started_call method p.0 p.1 w))
      (not w.server.alive) _ _ (λ _. h)
      λ _. record {
        few_retired = h.few_retired;
        queues = h.queues;
        ids =
            ap (λ ns. ns ++ (w.server.next_id ∷ [])) h.ids
            ∙ sym (
                request_ids-snoc w.calls
                  (record { method = method; request_id = w.server.next_id }));
        ascending = Ascending-snoc 1 w.server.next_id w.server.pending h.ascending;
      }

woken-Bounded :
    (wakeup : Wakeup) (w : World)
    → Bounded w
    → (o : Option (Call × List Call)) → Takes 1 w.server.next_id w.calls o
    → Bounded (woken o wakeup w)
unfolding finish_call
woken-Bounded wakeup w h none k = h
woken-Bounded wakeup w h (some (d, rest)) k =
    if_elim Bounded (is_enabled wakeup (w.server.futures d.request_id)) _ _
      (λ _. record {
        few_retired = h.few_retired;
        queues = h.queues;
        ids = ap (without d.request_id) h.ids ∙ sym k.0;
        ascending = rw (h.ids, ← k.0) k.1;
      })
      λ _. h

acquired-Bounded :
    (o : Outcome Fault (Option Responder)) (s : AppServer) (c : ℕ) (r : Responder)
    (rest : List Responder) (w : World)
    → Bounded w
    → Safe w.server s
    → Bounded (acquired o s c r rest w)
acquired-Bounded (returned (some q)) s c r rest w h k = kept w s (q ∷ rest) h k
acquired-Bounded (returned none) s c r rest w h k =
    kept w _ rest h (Safe-trans w.server s _ k (leave-Safe (some c) r s))
acquired-Bounded (raised e) s c r rest w h k =
    kept w _ rest h (Safe-trans w.server s _ k (leave-Safe (some c) r s))

acquiring-Bounded :
    (o : Option ℕ) (r : Responder) (rest : List Responder) (w : World)
    → Bounded w
    → Bounded (acquiring o r rest w)
acquiring-Bounded none r rest w h = h
acquiring-Bounded (some c) r rest w h =
    if_elim Bounded (r.writing || (w.server.cells c).locked) _ _ (λ _. h)
      λ _. acquired-Bounded _ _ c r rest w h (acquire-Safe c r w.server)

finishing-Bounded :
    (r : Responder) (rest : List Responder) (outcome : Written) (w : World)
    → Bounded w
    → Bounded (finishing r rest outcome w)
finishing-Bounded r rest outcome w h =
    if_elim Bounded r.writing _ _
      (λ _. kept w _ rest h (
        Safe-trans w.server _ _ (finish_response-Safe r.cell r outcome w.server)
          (leave-Safe r.cell r (finish_response r.cell r outcome w.server))))
      λ _. h

taken-Bounded :
    (f : Responder → List Responder → World) (w : World)
    → Bounded w
    → ((r : Responder) (rest : List Responder) → Bounded (f r rest))
    → (o : Option (Responder × List Responder))
    → Bounded (elim o as (λ _. World) [ none ↦ w | some (r, rest) ↦ f r rest ])
taken-Bounded f w h k none = h
taken-Bounded f w h k (some (r, rest)) = k r rest

expired-Bounded : (c : ℕ) (w : World) → Bounded w → (t : Timer) → Bounded (expired c t w)
expired-Bounded c w h no_timer = h
expired-Bounded c w h ended = h
expired-Bounded c w h (sleeping id key) =
    let s : AppServer = record w.server {
      cells = update c (record (w.server.cells c) { timer = ended }) w.server.cells;
    } in
    entered-Bounded (respond key (result_message id outcome_unknown) (some c) true s) s w h
      (Safe-same w.server s refl refl refl refl)

step-Bounded : (e : Event) (w : World) → Bounded w → Bounded (step e w)
unfolding step on_exit subscribe
step-Bounded starts w h = start-Bounded w h
step-Bounded initializes w h = kept w _ w.responders h (Safe-same w.server _ refl refl refl refl)
step-Bounded (receives message) w h = entered-Bounded _ _ w h (route_message-Safe message w.server)
step-Bounded (exits params) w h = kept w _ w.responders h (exit-Safe params w.server)
step-Bounded (calls_method method) w h = start_call-Bounded method w h
step-Bounded (wakes n wakeup) w h =
    woken-Bounded wakeup w h (split_at n w.calls)
      (split_at-Takes n 1 w.server.next_id w.calls (rw (← h.ids) h.ascending))
step-Bounded (responds id message) w h = responded (key_of id)
  where
    responded :
        (o : Option Key)
        → Bounded (elim o as (λ _. World) [
          | none ↦ w
          | some key ↦ entered (respond_result key message w.server) w.server w
        ])
    responded none = h
    responded (some key) =
        entered-Bounded (respond_result key message w.server) w.server w h
          (Safe-same w.server w.server refl refl refl refl)
step-Bounded (acquires n) w h =
    taken-Bounded (λ r rest. acquiring r.cell r rest w) w h
      (λ r rest. acquiring-Bounded r.cell r rest w h) (split_at n w.responders)
step-Bounded (finishes n outcome) w h =
    taken-Bounded (λ r rest. finishing r rest outcome w) w h
      (λ r rest. finishing-Bounded r rest outcome w h) (split_at n w.responders)
step-Bounded (expires c) w h = expired-Bounded c w h (w.server.cells c).timer
step-Bounded (subscribes maxsize) w h = kept w _ w.responders h (subscribe-Safe maxsize w.server)
step-Bounded (takes n) w h =
    kept w _ w.responders h (at_subscription-Safe _ n w.server get_nowait-IsBounded)
step-Bounded (unsubscribes n) w h =
    kept w _ w.responders h (at_subscription-Safe _ n w.server close-IsBounded)
step-Bounded closes w h = kept w _ w.responders h (close-Safe w.server)
step-Bounded shuts w h = kept w _ w.responders h (shut-Safe w.server)

run-Bounded : (es : List Event) (w : World) → Bounded w → Bounded (run es w)
unfolding run
run-Bounded [] w h = h
run-Bounded (e ∷ es) w h = run-Bounded es (step e w) (step-Bounded e w h)

-- In every run of a new client: the table of pending requests holds the ids of the suspended calls
-- and no other, each once, all below the next id; at most 1024 answered ids are remembered, and no
-- bounded queue of a subscriber is longer than its bound.
pub run-new_world-Bounded : (es : List Event) → Bounded (run es new_world)
unfolding app_server
run-new_world-Bounded es =
    run-Bounded es new_world
      (record { few_retired = omega arith; queues = tt; ids = refl; ascending = omega arith })
