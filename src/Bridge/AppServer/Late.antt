-- ===== src/Bridge/AppServer/Late.antt =====
-- About what the end of a write leaves to later answers, bridge/app_server.py.
use ha_codex_voice.Prelude.{
  if_elim, ℕ, suc, ◌≡◌, refl, Bool, true, false, not, none, some, is_some, List, [], ◌∷◌, ◌++◌,
  length, ltb, arith, ap,
}
use ha_codex_voice.Prelude.Action.{returned}
use ha_codex_voice.Json.{Fields}
use ha_codex_voice.Bridge.AppServer.Table.{Key, Item, lookup, remove, lookup-remove, same_key_iff}
use ha_codex_voice.Bridge.AppServer.Client.{AppServer, Timer, no_timer, sleeping, ended}
use ha_codex_voice.Bridge.AppServer.Responses.{
  Responder, drained, broken, respond, respond_result, acquire, finish_response, commit,
  cancel_timeout, cancel_by, is_cell, retire, trim,
}

retired_last :
    (key : Key) (d : List (Item (Unit {0})))
    → is_some (lookup key (d ++ (record { key = key; value = tt } ∷ []))) ≡ true
retired_last key [] = ground (arith, same_key_iff key key)
retired_last key (e ∷ d) = ground (arith, retired_last key d)

retired_trimmed :
    (key : Key) (d : List (Item (Unit {0})))
    → is_some (lookup key (trim (d ++ (record { key = key; value = tt } ∷ [])))) ≡ true
unfolding trim
retired_trimmed key [] = ground (arith, same_key_iff key key)
retired_trimmed key (e ∷ d) =
    if_elim (λ (t : List (Item (Unit {0}))). is_some (lookup key t) ≡ true)
      (ltb 1024 (suc (length (d ++ (record { key = key; value = tt } ∷ []))))) _ _
      (λ _. retired_last key d) λ _. retired_last key (e ∷ d)

-- what the cancellation of the timeout leaves alone
cancelled_same :
    (t : Timer) (key : Key) (c : ℕ) (fallback : Bool) (s : AppServer)
    → ((cancel_by t key c fallback s).states ≡ s.states)
      × ((cancel_by t key c fallback s).retired ≡ s.retired)
cancelled_same no_timer key c fallback s = (refl, refl)
cancelled_same (sleeping id k) key c fallback s =
    if_elim (λ (s' : AppServer). (s'.states ≡ s.states) × (s'.retired ≡ s.retired))
      (not (is_cell (lookup key s.timers) c)) _ _ (λ _. (refl, refl)) λ _. (refl, refl)
cancelled_same ended key c fallback s =
    if_elim (λ (s' : AppServer). (s'.states ≡ s.states) × (s'.retired ≡ s.retired))
      (not (is_cell (lookup key s.timers) c)) _ _ (λ _. (refl, refl)) λ _. (refl, refl)

module _ (c : ℕ) (r : Responder) (s : AppServer) (active : lookup r.key s.states ≡ some c) where
  committed :
      (lookup r.key (commit c r s).states ≡ none)
      × (is_some (lookup r.key (commit c r s).retired) ≡ true)
  unfolding commit retire
  committed =
      if_elim
        (λ (s' : AppServer).
          (lookup r.key s'.states ≡ none) × (is_some (lookup r.key s'.retired) ≡ true))
        (is_cell (lookup r.key s.states) c) _ _
        (λ _. (lookup-remove r.key s.states, retired_trimmed r.key (remove r.key s.retired)))
        λ f. absurd (ground (arith, active))

  drained-retires :
      (message : Fields)
      → respond_result r.key message (finish_response (some c) r drained s) ≡ returned none
  unfolding finish_response respond_result respond cancel_timeout
  drained-retires message =
      let k = cancelled_same ((commit c r s).cells c).timer r.key c r.fallback (commit c r s) in
      ground (arith, committed, k)

  broken-retries :
      (reached : Bool) (q : Responder)
      → q.key ≡ r.key
      → s.alive ≡ true
      → (s.cells c).written ≡ false
      → (acquire c q (finish_response (some c) r (broken reached) s)).0
        ≡ returned (some (record q { writing = true }))
  unfolding finish_response acquire
  broken-retries reached q e a w = ground (arith, active, ap (λ k. lookup k s.states) e)

  -- Where a request for a tool is active: after its answer is written completely, any further answer
  -- returns at once and writes nothing; after a write that failed, with the process alive and the
  -- state not written, the next answer of the same request that gets the lock may write.
  pub finish_response_lem :
      s.alive ≡ true
      → (s.cells c).written ≡ false
      → ((message : Fields)
          → respond_result r.key message (finish_response (some c) r drained s) ≡ returned none)
        × ((reached : Bool) (q : Responder)
            → q.key ≡ r.key
            → (acquire c q (finish_response (some c) r (broken reached) s)).0
              ≡ returned (some (record q { writing = true })))
  finish_response_lem a w = (drained-retires, λ reached q e. broken-retries reached q e a w)
