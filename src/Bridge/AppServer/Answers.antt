-- ===== src/Bridge/AppServer/Answers.antt =====
-- About the answers that go through one state of bridge/app_server.py: how they are counted, and
-- that the reader adds none.
use ha_codex_voice.Prelude.{
  if_elim, ℕ, zero, suc, ◌+◌, ◌≤◌, ◌<◌, ◌≡◌, refl, String, Bool, true, false, ◌&&◌, Option, none,
  some, List, [], ◌∷◌, ◌++◌, ◌==◌, str_eq, if◌then◌else◌, All, All-map, arith, ap,
}
use ha_codex_voice.Prelude.Action.{Outcome, returned, raised}
use ha_codex_voice.Json.{Value, Fields, get, as_text}
use ha_codex_voice.Bridge.AppServer.Table.{Key, key_of, Item, lookup, remove, insert}
use ha_codex_voice.Bridge.AppServer.Client.{
  AppServer, is_waiting, Fault, unhashable, delivered, Line, on_response, pending_id,
}
use ha_codex_voice.Bridge.AppServer.Responses.{
  Responder, respond, respond_result, is_cell, route_message, handle_server_request, tool_call,
  not_null, dispatch, result_message, no_voice_client, denial, new_state, delivered_call,
}
use ha_codex_voice.Bridge.AppServer.World.{entered, World, split_at}

abbrev pub bit : Bool → ℕ
bit true = 1
bit false = 0

All-insert :
    (n : ℕ) (key : Key) (d : List (Item ℕ))
    → All (λ e. e.value < n) d
    → All (λ e. e.value < n + 1) (insert key n d)
All-insert n key [] h = (omega arith, tt)
All-insert n key (e ∷ d) h = ground (
  arith,
  All-insert n key d h.1,
  All-map _ (λ (e : Item ℕ). e.value < n + 1) d (λ x p. omega arith) h.1,
)

pub All-remove :
    (n : ℕ) (key : Key) (d : List (Item ℕ))
    → All (λ e. e.value < n) d
    → All (λ e. e.value < n) (remove key d)
All-remove n key [] h = tt
All-remove n key (e ∷ d) h = ground (arith, All-remove n key d h.1)

pub lookup-known :
    (n d : ℕ) (key : Key) (t : List (Item ℕ))
    → All (λ e. e.value < n) t
    → lookup key t ≡ some d
    → d < n
lookup-known n d key [] h e = cc
lookup-known n d key (x ∷ t) h e = ground (arith, lookup-known n d key t h.1)

module _ (c : ℕ) where
  -- It writes through the state.
  abbrev pub writes : Responder → Bool
  writes r = r.writing && is_cell r.cell c

  abbrev pub writers : List Responder → ℕ
  writers [] = 0
  writers (r ∷ rs) = bit (writes r) + writers rs

  abbrev pub is_answer : Line → Bool
  is_answer l = l.drained && is_cell l.cell c

  -- The completed answers through the state.
  abbrev pub answers : List Line → ℕ
  answers [] = 0
  answers (l ∷ ls) = bit (is_answer l) + answers ls

  pub writers-append :
      (rs : List Responder) (r : Responder) → writers (rs ++ (r ∷ [])) ≡ writers rs + bit (writes r)
  writers-append [] r = omega arith
  writers-append (q ∷ rs) r = omega (arith, writers-append rs r)

  pub answers-append :
      (ls : List Line) (l : Line) → answers (ls ++ (l ∷ [])) ≡ answers ls + bit (is_answer l)
  answers-append [] l = omega arith
  answers-append (q ∷ ls) l = omega (arith, answers-append ls l)

  abbrev pub Splits : List Responder → Option (Responder × List Responder) → Type 0
  Splits ts none = Unit
  Splits ts (some (t, rest)) = writers ts ≡ bit (writes t) + writers rest

  pub split_at-Splits : (n : ℕ) (ts : List Responder) → Splits ts (split_at n ts)
  split_at-Splits n [] = tt
  split_at-Splits zero (u ∷ us) = refl
  split_at-Splits (suc n) (u ∷ us) = go (split_at n us) (split_at-Splits n us)
    where
      go :
          (o : Option (Responder × List Responder))
          → Splits us o
          → Splits (u ∷ us) (elim o as (λ _. Option (Responder × List Responder)) [
            | none ↦ none
            | some (v, vs) ↦ some (v, u ∷ vs)
          ])
      go none k = tt
      go (some (v, vs)) k = omega (arith, k)

  -- What the state and the lines say of each other.
  pub record Settled (s : AppServer) : Type 0 where
    pub exclusive : (s.cells c).locked ≡ true → (s.cells c).written ≡ false
    pub counted : answers s.lines ≡ bit (s.cells c).written
    pub known : All (λ e. e.value < s.next_cell) s.states
    pub unused : s.next_cell ≤ c → ((s.cells c).locked ≡ false) × ((s.cells c).written ≡ false)

  pub record Once (w : World) : Type 0 where
    pub held : writers w.responders ≡ bit (w.server.cells c).locked
    pub settled : Settled w.server

  abbrev pub Quiet : AppServer → AppServer → Type 0
  Quiet s s' = Settled s' × ((s'.cells c).locked ≡ (s.cells c).locked)

  -- A response that has just entered writes through no state.
  abbrev pub Idle : Outcome Fault (Option Responder) → Type 0
  Idle (returned (some r)) = writes r ≡ false
  Idle (returned none) = Unit
  Idle (raised e) = Unit

  pub respond-Idle :
      (key : Key) (message : Fields) (given : Option ℕ) (fallback : Bool) (s : AppServer)
      → Idle (respond key message given fallback s)
  unfolding respond
  respond-Idle key message none fallback s = ground arith
  respond-Idle key message (some d) fallback s = refl

  pub entered-Once :
      (o : Outcome Fault (Option Responder)) (s : AppServer) (w : World)
      → Idle o
      → Once w
      → Quiet w.server s
      → Once (entered o s w)
  entered-Once (returned (some r)) s w i h q = record {
    held = omega (arith, writers-append w.responders r, ap bit i, ap bit q.1, h.held);
    settled = q.0;
  }
  entered-Once (returned none) s w i h q = record { held = ground (arith, h.held); settled = q.0 }
  entered-Once (raised e) s w i h q = record { held = ground (arith, h.held); settled = q.0 }

  -- A stretch of the reader: what it answers with, and what it leaves.
  abbrev pub Calm : AppServer → Outcome Fault (Option Responder) × AppServer → Type 0
  Calm s p = Idle p.0 × Quiet s p.1

  -- the client after a request for a tool, and a request for anything else
  tool_call-Calm :
      (key : Key) (id : Value) (message : Fields) (s : AppServer)
      → Settled s
      → Calm s (tool_call key id message s)
  unfolding tool_call respond_result
  tool_call-Calm key id message s h =
      if_elim (Calm s) (delivered s.subscriptions == 0) _ _
        (λ _. (
          respond-Idle key (result_message id no_voice_client)
              (lookup key (new_state key message s).states) false (new_state key message s),
          made,
        ))
        λ _. (tt, timed)
    where
      made : Quiet s (new_state key message s)
      made = (
        record {
          exclusive = ground (arith, h.exclusive, h.unused);
          counted = ground (arith, h.counted, h.unused);
          known = All-insert s.next_cell key s.states h.known;
          unused = ground (arith, h.unused);
        },
        ground (arith, h.unused),
      )

      timed : Quiet s (delivered_call key id s.next_cell (new_state key message s))
      timed = (
        record {
          exclusive = ground (arith, h.exclusive, h.unused);
          counted = ground (arith, h.counted, h.unused);
          known = All-insert s.next_cell key s.states h.known;
          unused = ground (arith, h.unused);
        },
        ground (arith, h.unused),
      )

  handle_server_request-Calm :
      (method : String) (id : Value) (message : Fields) (s : AppServer)
      → Settled s
      → Calm s (handle_server_request method id message s)
  unfolding handle_server_request respond_result
  handle_server_request-Calm method id message s h = go (key_of id)
    where
      unretired : (key : Key) → Settled (record s { retired = remove key s.retired })
      unretired key = record {
        exclusive = h.exclusive;
        counted = h.counted;
        known = h.known;
        unused = h.unused;
      }

      go :
          (o : Option Key)
          → Calm s (elim o as (λ _. Outcome Fault (Option Responder) × AppServer) [
            | none ↦ (raised unhashable, s)
            | some key ↦
                let s' = record s { retired = remove key s.retired } in
                if str_eq method "item/tool/call"
                then tool_call key id message s'
                else (respond_result key (denial method id) s', s')
          ])
      go none = (tt, (h, refl))
      go (some key) =
          if_elim (Calm s) (str_eq method "item/tool/call")
            (tool_call key id message (record s { retired = remove key s.retired }))
            (
              respond_result key (denial method id) (record s { retired = remove key s.retired }),
              record s { retired = remove key s.retired },
            )
            (λ _.
              tool_call-Calm key id message (record s { retired = remove key s.retired })
                (unretired key))
            λ _. (
              respond-Idle key (denial method id) (lookup key s.states) false
                  (record s { retired = remove key s.retired }),
              (unretired key, refl),
            )

  on_response-Settled :
      (o : Option ℕ) (message : Fields) (s : AppServer)
      → Settled s
      → Quiet s (on_response o message s)
  unfolding on_response
  on_response-Settled none message s h = (h, refl)
  on_response-Settled (some n) message s h =
      if_elim (Quiet s) (is_waiting (s.futures n)) _ _
        (λ _. (
          record {
            exclusive = h.exclusive;
            counted = h.counted;
            known = h.known;
            unused = h.unused;
          },
          refl,
        ))
        λ _. (h, refl)

  dispatch-Calm :
      (id : Option Value) (method : Option String) (message : Fields) (s : AppServer)
      → Settled s
      → Calm s (dispatch id method message s)
  dispatch-Calm (some id) (some method) message s h =
      handle_server_request-Calm method id message s h
  dispatch-Calm (some id) none message s h = go (key_of id)
    where
      go :
          (o : Option Key)
          → Calm s (elim o as (λ _. Outcome Fault (Option Responder) × AppServer) [
            | none ↦ (raised unhashable, s)
            | some key ↦ (returned none, on_response (pending_id key s.pending) message s)
          ])
      go none = (tt, (h, refl))
      go (some key) = (tt, on_response-Settled (pending_id key s.pending) message s h)
  dispatch-Calm none (some method) message s h = (
    tt,
    (
      record { exclusive = h.exclusive; counted = h.counted; known = h.known; unused = h.unused },
      refl,
    ),
  )
  dispatch-Calm none none message s h = (tt, (h, refl))

  pub route_message-Calm :
      (message : Fields) (s : AppServer) → Settled s → Calm s (route_message message s)
  unfolding route_message
  route_message-Calm message s h =
      dispatch-Calm (not_null (get "id" message)) (as_text (get "method" message)) message s h
