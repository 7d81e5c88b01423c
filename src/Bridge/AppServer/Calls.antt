-- ===== src/Bridge/AppServer/Calls.antt =====
-- About the calls of bridge/app_server.py and the responses that reach them.
use mathlib.Core.List.{Memᴰ}
use ha_codex_voice.Prelude.{
  ℕ, ◌≡◌, ◌≢◌, refl, String, false, Option, none, some, List, [], ◌∷◌, arith, ◌∙◌,
}
use ha_codex_voice.Prelude.Ints.{pos}
use ha_codex_voice.Prelude.Action.{Outcome, returned, raised}
use ha_codex_voice.Json.{Value, int, Fields, get, as_text}
use ha_codex_voice.Bridge.AppServer.Table.{number, same_key_iff, key_of}
use ha_codex_voice.Bridge.AppServer.Client.{
  AppServer, Fault, no_result, rpc_error, waiting, answered, update, finish_call, call_outcome,
  is_waiting, pending_id, answer_of, on_response, without,
}
use ha_codex_voice.Bridge.AppServer.Responses.{route_message}

-- What a response means to its caller, by JSON-RPC.
abbrev pub meaning : String → Fields → Outcome Fault Value
meaning method message = elim (get "error" message) [
  | some e ↦ raised (rpc_error method e)
  | none ↦ elim (get "result" message) [ some v ↦ returned v | none ↦ raised no_result ]
]

pending_id_lem : (n : ℕ) (ns : List ℕ) → Memᴰ n ns → pending_id (number (pos n)) ns ≡ some n
unfolding pending_id
pending_id_lem n [] h = elim h [ ]
pending_id_lem n (m ∷ ms) (Memᴰ.head e) =
    ground (arith, same_key_iff (number (pos m)) (number (pos n)))
pending_id_lem n (m ∷ ms) (Memᴰ.tail k) =
    ground (arith, same_key_iff (number (pos m)) (number (pos n)), pending_id_lem n ms k)

pending_id-without : (n : ℕ) (ns : List ℕ) → pending_id (number (pos n)) (without n ns) ≡ none
unfolding pending_id
pending_id-without n [] = refl
pending_id-without n (m ∷ ms) =
    ground (arith, same_key_iff (number (pos m)) (number (pos n)), pending_id-without n ms)

-- the client once the future of `n` is settled
abbrev answered_by : ℕ → Fields → AppServer → AppServer
answered_by n message s = record s {
  futures = update n (answer_of (get "error" message) (get "result" message)) s.futures;
}

answer_of-done : (e v : Option Value) → is_waiting (answer_of e v) ≡ false
unfolding answer_of
answer_of-done (some e) v = refl
answer_of-done none (some v) = refl
answer_of-done none none = refl

answer_of-meaning :
    (method : String) (message : Fields)
    → call_outcome method answered (answer_of (get "error" message) (get "result" message))
      ≡ meaning method message
unfolding answer_of call_outcome
answer_of-meaning method message = ground arith

module _ (n : ℕ) (message : Fields) (id : get "id" message ≡ some (int (pos n)))
    (plain : as_text (get "method" message) ≡ none) where
  routed :
      (s : AppServer) (o : Option ℕ)
      → pending_id (number (pos n)) s.pending ≡ o
      → (route_message message s).1 ≡ on_response o message s
  unfolding route_message key_of
  routed s o e = rw (id, plain, e) refl

  ignored : (s : AppServer) → is_waiting (s.futures n) ≡ false → on_response (some n) message s ≡ s
  unfolding on_response
  ignored s f = rw f refl

module _ (n : ℕ) (message later : Fields) (id : get "id" message ≡ some (int (pos n)))
    (plain : as_text (get "method" message) ≡ none) (id' : get "id" later ≡ some (int (pos n)))
    (plain' : as_text (get "method" later) ≡ none) where
  -- A response with the id of a pending call settles the future of that call alone: the call wakes
  -- with what the response says, its error going before its result, and any further response with
  -- this id changes nothing, neither before the call wakes nor after.
  pub route_message-answers :
      (method : String) (s : AppServer)
      → Memᴰ n s.pending
      → s.futures n ≡ waiting
      → let s' = (route_message message s).1 in
        let (outcome, s'') = finish_call method n answered s' in
        (outcome ≡ meaning method message)
        × ((m : ℕ) → m ≢ n → s'.futures m ≡ s.futures m)
        × ((route_message later s').1 ≡ s')
        × ((route_message later s'').1 ≡ s'')
  unfolding finish_call on_response
  route_message-answers method s m w =
      let found = pending_id_lem n s.pending m in
      let first : (route_message message s).1 ≡ answered_by n message s =
        routed n message id plain s (some n) found ∙ rw w refl in
      rw first (
        ground (arith, answer_of-meaning method message),
        λ k d. ground arith,
        routed n later id' plain' (answered_by n message s) (some n) found
            ∙ ignored n later id' plain' (answered_by n message s)
                (ground (arith, answer_of-done (get "error" message) (get "result" message))),
        routed n later id' plain' _ none (pending_id-without n s.pending),
      )
