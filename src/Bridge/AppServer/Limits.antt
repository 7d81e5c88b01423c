-- ===== src/Bridge/AppServer/Limits.antt =====
-- What the stretches of the reader and of the responses of bridge/app_server.py keep: the calls, and
-- the bounds of the retired ids and the queues.
use ha_codex_voice.Prelude.{
  if_elim, ℕ, ◌≤◌, ◌≡◌, refl, String, Bool, true, false, not, ◌&&◌, ◌||◌, Option, none, some, ◌==◌,
  str_eq, if◌then◌else◌, length, All, All-append, arith, ◌∙◌,
}
use ha_codex_voice.Prelude.Action.{Outcome, returned, raised}
use ha_codex_voice.Json.{Value, Fields, get, as_text}
use ha_codex_voice.Bridge.AppServer.Table.{Key, key_of, lookup, remove, length-remove}
use ha_codex_voice.Bridge.AppServer.Client.{
  AppServer, Fault, unhashable, Timer, no_timer, sleeping, ended, Subscription, subscribe,
  delivered, on_response, pending_id, is_waiting,
}
use ha_codex_voice.Bridge.AppServer.Responses.{
  Responder, Written, drained, broken, respond_result, acquire, finish_response, leave, commit,
  cancel_timeout, cancel_by, is_cell, route_message, handle_server_request, tool_call, new_state,
  delivered_call, dispatch, not_null, denial,
}
use ha_codex_voice.Bridge.AppServer.World.{on_exit, close, shut, at_subscription}
use ha_codex_voice.Bridge.AppServer.Queues.{
  IsBounded, broadcast-IsBounded, at_subscription-IsBounded, close_all-IsBounded, length-retire,
}

-- `s'` has the calls of `s`, and keeps the bounds.
pub record Safe (s s' : AppServer) : Type 0 where
  pub same_pending : s'.pending ≡ s.pending
  pub same_next : s'.next_id ≡ s.next_id
  pub retires : length s.retired ≤ 1024 → length s'.retired ≤ 1024
  pub queues : All IsBounded s.subscriptions → All IsBounded s'.subscriptions

pub Safe-same :
    (s s' : AppServer)
    → s'.pending ≡ s.pending
    → s'.next_id ≡ s.next_id
    → s'.retired ≡ s.retired
    → s'.subscriptions ≡ s.subscriptions
    → Safe s s'
Safe-same s s' p n r q = record {
  same_pending = p;
  same_next = n;
  retires = rw r (λ h. h);
  queues = rw q (λ h. h);
}

pub Safe-trans : (s t u : AppServer) → Safe s t → Safe t u → Safe s u
Safe-trans s t u a b = record {
  same_pending = b.same_pending ∙ a.same_pending;
  same_next = b.same_next ∙ a.same_next;
  retires = λ h. b.retires (a.retires h);
  queues = λ h. b.queues (a.queues h);
}

pub leave-Safe : (o : Option ℕ) (r : Responder) (s : AppServer) → Safe s (leave o r s)
unfolding leave
leave-Safe none r s = Safe-same s s refl refl refl refl
leave-Safe (some c) r s =
    if_elim (Safe s) (r.fallback && is_cell (lookup r.key s.timers) c) _ _
      (λ _. Safe-same s _ refl refl refl refl) λ _. Safe-same s s refl refl refl refl

pub tool_call-Safe :
    (key : Key) (id : Value) (message : Fields) (s : AppServer)
    → Safe s (tool_call key id message s).1
unfolding tool_call
tool_call-Safe key id message s =
    if_elim (λ (p : Outcome Fault (Option Responder) × AppServer). Safe s p.1)
      (delivered s.subscriptions == 0) _ _ (λ _. made) λ _. timed
  where
    made : Safe s (new_state key message s)
    made = record {
      same_pending = refl;
      same_next = refl;
      retires = λ h. h;
      queues = λ h. broadcast-IsBounded message s.subscriptions h;
    }

    timed : Safe s (delivered_call key id s.next_cell (new_state key message s))
    timed = record {
      same_pending = refl;
      same_next = refl;
      retires = λ h. h;
      queues = λ h. broadcast-IsBounded message s.subscriptions h;
    }

pub handle_server_request-Safe :
    (method : String) (id : Value) (message : Fields) (s : AppServer)
    → Safe s (handle_server_request method id message s).1
unfolding handle_server_request
handle_server_request-Safe method id message s = go (key_of id)
  where
    unretired : (key : Key) → Safe s (record s { retired = remove key s.retired })
    unretired key = record {
      same_pending = refl;
      same_next = refl;
      retires = λ h. omega (arith, length-remove key s.retired, h);
      queues = λ h. h;
    }

    go :
        (o : Option Key)
        → Safe s
            (elim o as (λ _. Outcome Fault (Option Responder) × AppServer) [
              | none ↦ (raised unhashable, s)
              | some key ↦
                  let s' = record s { retired = remove key s.retired } in
                  if str_eq method "item/tool/call"
                  then tool_call key id message s'
                  else (respond_result key (denial method id) s', s')
            ]).1
    go none = Safe-same s s refl refl refl refl
    go (some key) =
        let s' = record s { retired = remove key s.retired } in
        if_elim (λ (p : Outcome Fault (Option Responder) × AppServer). Safe s p.1)
          (str_eq method "item/tool/call") (tool_call key id message s')
          (respond_result key (denial method id) s', s')
          (λ _. Safe-trans s s' _ (unretired key) (tool_call-Safe key id message s'))
          λ _. unretired key

pub dispatch-Safe :
    (id : Option Value) (method : Option String) (message : Fields) (s : AppServer)
    → Safe s (dispatch id method message s).1
unfolding on_response
dispatch-Safe (some id) (some method) message s = handle_server_request-Safe method id message s
dispatch-Safe (some id) none message s = go (key_of id)
  where
    answered : (o : Option ℕ) → Safe s (on_response o message s)
    answered none = Safe-same s s refl refl refl refl
    answered (some n) =
        if_elim (Safe s) (is_waiting (s.futures n)) _ _ (λ _. Safe-same s _ refl refl refl refl)
          λ _. Safe-same s s refl refl refl refl

    go :
        (o : Option Key)
        → Safe s
            (elim o as (λ _. Outcome Fault (Option Responder) × AppServer) [
              | none ↦ (raised unhashable, s)
              | some key ↦ (returned none, on_response (pending_id key s.pending) message s)
            ]).1
    go none = Safe-same s s refl refl refl refl
    go (some key) = answered (pending_id key s.pending)
dispatch-Safe none (some method) message s = record {
  same_pending = refl;
  same_next = refl;
  retires = λ h. h;
  queues = λ h. broadcast-IsBounded message s.subscriptions h;
}
dispatch-Safe none none message s = Safe-same s s refl refl refl refl

pub acquire-Safe : (c : ℕ) (r : Responder) (s : AppServer) → Safe s (acquire c r s).1
unfolding acquire
acquire-Safe c r s =
    if_elim (λ (p : Outcome Fault (Option Responder) × AppServer). Safe s p.1)
      ((s.cells c).written || not (is_cell (lookup r.key s.states) c)) _ _
      (λ _. Safe-same s s refl refl refl refl)
      λ _.
        if_elim (λ (p : Outcome Fault (Option Responder) × AppServer). Safe s p.1) (not s.alive) _ _
          (λ _. Safe-same s s refl refl refl refl) λ _. Safe-same s _ refl refl refl refl

pub commit-Safe : (c : ℕ) (r : Responder) (s : AppServer) → Safe s (commit c r s)
unfolding commit
commit-Safe c r s =
    if_elim (Safe s) (is_cell (lookup r.key s.states) c) _ _
      (λ _. record {
        same_pending = refl;
        same_next = refl;
        retires = λ h. length-retire r.key s.retired h;
        queues = λ h. h;
      })
      λ _. Safe-same s _ refl refl refl refl

pub cancel_timeout-Safe :
    (key : Key) (c : ℕ) (fallback : Bool) (s : AppServer) → Safe s (cancel_timeout key c fallback s)
unfolding cancel_timeout
cancel_timeout-Safe key c fallback s = go (s.cells c).timer
  where
    chosen : Safe s (cancel_by ended key c fallback s)
    chosen =
        if_elim (Safe s) (not (is_cell (lookup key s.timers) c)) _ _
          (λ _. Safe-same s s refl refl refl refl) λ _. Safe-same s _ refl refl refl refl

    go : (t : Timer) → Safe s (cancel_by t key c fallback s)
    go no_timer = Safe-same s s refl refl refl refl
    go (sleeping id k) = chosen
    go ended = chosen

pub finish_response-Safe :
    (o : Option ℕ) (r : Responder) (outcome : Written) (s : AppServer)
    → Safe s (finish_response o r outcome s)
unfolding finish_response
finish_response-Safe none r drained s = Safe-same s _ refl refl refl refl
finish_response-Safe none r (broken true) s = Safe-same s _ refl refl refl refl
finish_response-Safe none r (broken false) s = Safe-same s s refl refl refl refl
finish_response-Safe (some c) r drained s =
    Safe-trans s _ _ (commit-Safe c r s) (cancel_timeout-Safe r.key c r.fallback (commit c r s))
finish_response-Safe (some c) r (broken reached) s = Safe-same s _ refl refl refl refl

pub route_message-Safe : (message : Fields) (s : AppServer) → Safe s (route_message message s).1
unfolding route_message
route_message-Safe message s =
    dispatch-Safe (not_null (get "id" message)) (as_text (get "method" message)) message s

pub exit-Safe : (params : Fields) (s : AppServer) → Safe s (on_exit params s)
unfolding on_exit
exit-Safe params s = record {
  same_pending = refl;
  same_next = refl;
  retires = λ h. h;
  queues = λ h. broadcast-IsBounded _ s.subscriptions h;
}

pub subscribe-Safe : (maxsize : ℕ) (s : AppServer) → Safe s (subscribe maxsize s)
unfolding subscribe
subscribe-Safe maxsize s = record {
  same_pending = refl;
  same_next = refl;
  retires = λ h. h;
  queues = λ h. All-append IsBounded s.subscriptions _ h (λ _. omega arith, tt);
}

pub at_subscription-Safe :
    (f : Subscription → Subscription) (n : ℕ) (s : AppServer)
    → ((q : Subscription) → IsBounded q → IsBounded (f q))
    → Safe s (record s { subscriptions = at_subscription n f s.subscriptions })
at_subscription-Safe f n s k = record {
  same_pending = refl;
  same_next = refl;
  retires = λ h. h;
  queues = λ h. at_subscription-IsBounded f n s.subscriptions k h;
}

pub close-Safe : (s : AppServer) → Safe s (close s)
unfolding close
close-Safe s =
    if_elim (Safe s) s.closed _ _ (λ _. Safe-same s s refl refl refl refl)
      λ _. Safe-same s _ refl refl refl refl

pub shut-Safe : (s : AppServer) → Safe s (shut s)
unfolding shut
shut-Safe s =
    if_elim (Safe s) (not s.closed) _ _ (λ _. Safe-same s s refl refl refl refl)
      λ _. record {
        same_pending = refl;
        same_next = refl;
        retires = λ h. omega arith;
        queues = λ h. close_all-IsBounded s.subscriptions h;
      }
