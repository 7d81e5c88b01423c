-- ===== src/Bridge/AppServer/Client.antt =====
-- The state of `CodexAppServer` of bridge/app_server.py, its calls, the routing of responses and the
-- subscriptions. A future, a `_ServerResponseState` and a timer task are cells of stores: the future
-- of a call is named by its request id, a timer by the state that it belongs to.
use ha_codex_voice.Prelude.{
  ℕ, suc, ◌+◌, String, Bool, true, false, not, ◌&&◌, Option, none, some, List, [], ◌∷◌, ◌++◌, leb,
  ltb, ◌==◌, if◌then◌else◌, length,
}
use ha_codex_voice.Prelude.Action.{Outcome, returned, raised}
use ha_codex_voice.Prelude.Ints.{pos}
use ha_codex_voice.Json.{Value, Fields, get}
use ha_codex_voice.Bridge.AppServer.Table.{Key, number, same_key, Item}

-- `AppServerExited`, `RpcError`, `ProtocolError`, `TimeoutError`, `CancelledError` and the
-- `TypeError` of a key with no hash.
pub data Fault : Type 0 where
  exited no_result timed_out cancelled unhashable : Fault
  rpc_error : String → Value → Fault

-- The future of a call: a result may be an `_RpcFailure`.
pub data Future : Type 0 where
  waiting : Future
  result : Value → Future
  rpc_failure : Value → Future
  failed : Fault → Future

-- A timer task sleeps with the id of its request, or is over or cancelled.
pub data Timer : Type 0 where
  no_timer : Timer
  sleeping : Value → Key → Timer
  ended : Timer

-- `_ServerResponseState`
pub record Cell : Type 0 where
  pub locked : Bool
  pub timer : Timer
  pub written : Bool

abbrev pub new_cell : Cell
new_cell = record { locked = false; timer = no_timer; written = false }

-- `RpcSubscription`; `subscribed`: it is in the owner's set.
pub record Subscription : Type 0 where
  pub maxsize : ℕ
  pub queue : List Fields
  pub closed : Bool
  pub subscribed : Bool

-- A response as it went to stdin: through which state, and whether the write completed.
pub record Line : Type 0 where
  pub cell : Option ℕ
  pub message : Fields
  pub drained : Bool

-- `alive`: there is a process, it has not exited and its stdin is there.
pub record AppServer : Type 0 where
  pub alive : Bool
  pub initialized : Bool
  pub closed : Bool
  pub next_id : ℕ
  pub pending : List ℕ
  pub futures : ℕ → Future
  pub timers : List (Item ℕ)
  pub states : List (Item ℕ)
  pub retired : List (Item (Unit {0}))
  pub cells : ℕ → Cell
  pub next_cell : ℕ
  pub subscriptions : List Subscription
  pub lines : List Line

unfoldable pub app_server : AppServer
app_server = record {
  alive = false;
  initialized = false;
  closed = false;
  next_id = 1;
  pending = [];
  futures = λ _. waiting;
  timers = [];
  states = [];
  retired = [];
  cells = λ _. new_cell;
  next_cell = 0;
  subscriptions = [];
  lines = [];
}

module _ {A : Type 0} where
  abbrev pub update : ℕ → A → (ℕ → A) → ℕ → A
  update n a f m = if m == n then a else f m

-- Calls

-- `call` up to its first await: the id of the request.
unfoldable pub start_call : AppServer → Outcome Fault ℕ × AppServer
start_call s = if not s.alive then (raised exited, s) else (
  returned s.next_id,
  record s {
    next_id = s.next_id + 1;
    pending = s.pending ++ (s.next_id ∷ []);
    futures = update s.next_id waiting s.futures;
  },
)

-- What wakes a suspended call: its future is done, or the timeout, a cancellation, a failed write.
pub data Wakeup : Type 0 where
  answered deadline stopped write_failed : Wakeup

unfoldable pub call_outcome : String → Wakeup → Future → Outcome Fault Value
call_outcome method answered (result v) = returned v
call_outcome method answered (rpc_failure e) = raised (rpc_error method e)
call_outcome method answered (failed f) = raised f
call_outcome method answered waiting = raised cancelled
call_outcome method deadline _ = raised timed_out
call_outcome method stopped _ = raised cancelled
call_outcome method write_failed _ = raised exited

-- what `self._pending.pop(request_id, None)` leaves
abbrev pub without : ℕ → List ℕ → List ℕ
without n [] = []
without n (m ∷ ms) = let rest = without n ms in if m == n then rest else m ∷ rest

unfoldable pub finish_call : String → ℕ → Wakeup → AppServer → Outcome Fault Value × AppServer
finish_call method request_id wakeup s = (
  call_outcome method wakeup (s.futures request_id),
  record s { pending = without request_id s.pending },
)

abbrev pub is_waiting : Future → Bool
is_waiting waiting = true
is_waiting _ = false

-- `_fail_pending`
unfoldable pub fail_pending : Fault → List ℕ → (ℕ → Future) → ℕ → Future
fail_pending e [] futures = futures
fail_pending e (n ∷ ns) futures =
    fail_pending e ns (if is_waiting (futures n) then update n (failed e) futures else futures)

-- `self._pending.get(request_id)`
unfoldable pub pending_id : Key → List ℕ → Option ℕ
pending_id key [] = none
pending_id key (n ∷ ns) = if same_key (number (pos n)) key then some n else pending_id key ns

-- What a response makes of the future: "error" goes before "result".
unfoldable pub answer_of : Option Value → Option Value → Future
answer_of (some e) _ = rpc_failure e
answer_of none (some v) = result v
answer_of none none = failed no_result

-- `_route_message` on a response
unfoldable pub on_response : Option ℕ → Fields → AppServer → AppServer
on_response none message s = s
on_response (some n) message s =
    if is_waiting (s.futures n)
    then record s {
      futures = update n (answer_of (get "error" message) (get "result" message)) s.futures;
    }
    else s

-- Subscriptions

-- `queue.full()`
abbrev pub is_full : Subscription → Bool
is_full q = ltb 0 q.maxsize && leb q.maxsize (length q.queue)

-- `_broadcast`, and to how many it delivered
unfoldable pub offer : Fields → Subscription → Subscription
offer message q =
    if q.subscribed && not (is_full q) then record q { queue = q.queue ++ (message ∷ []) } else q

unfoldable pub broadcast : Fields → List Subscription → List Subscription
broadcast message [] = []
broadcast message (q ∷ qs) = offer message q ∷ broadcast message qs

unfoldable pub delivered : List Subscription → ℕ
delivered [] = 0
delivered (q ∷ qs) = if q.subscribed && not (is_full q) then suc (delivered qs) else delivered qs

unfoldable pub subscribe : ℕ → AppServer → AppServer
subscribe maxsize s = record s {
  subscriptions =
      s.subscriptions
      ++ (record { maxsize = maxsize; queue = []; closed = false; subscribed = true } ∷ []);
}

-- `RpcSubscription.close`, which calls `unsubscribe`
unfoldable pub close_subscription : Subscription → Subscription
close_subscription q = if q.closed then q else record q { closed = true; subscribed = false }

-- `get_nowait`: `none` stands for `QueueEmpty`.
unfoldable pub get_nowait : Subscription → Option Fields × Subscription
get_nowait q = next q.queue
  where
    next : List Fields → Option Fields × Subscription
    next [] = (none, q)
    next (m ∷ ms) = (some m, record q { queue = ms })
