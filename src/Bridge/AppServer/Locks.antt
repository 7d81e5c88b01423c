-- ===== src/Bridge/AppServer/Locks.antt =====
-- About the stretches of a response of bridge/app_server.py that hold the lock of its state.
use ha_codex_voice.Prelude.{
  if_elim, ℕ, ◌+◌, ◌≤◌, ◌≡◌, refl, Bool, true, false, not, ◌&&◌, ◌||◌, Option, none, some, List, [],
  ◌∷◌, ◌++◌, ◌==◌, if◌then◌else◌, arith,
}
use ha_codex_voice.Prelude.Action.{Outcome}
use ha_codex_voice.Bridge.AppServer.Table.{Key, lookup, remove}
use ha_codex_voice.Bridge.AppServer.Client.{
  AppServer, Fault, Cell, Timer, no_timer, sleeping, ended, update,
}
use ha_codex_voice.Bridge.AppServer.Responses.{
  Responder, Written, drained, broken, acquire, finish_response, leave, commit, cancel_timeout,
  is_cell, line, cancel_by,
}
use ha_codex_voice.Bridge.AppServer.World.{acquired, finishing, World}
use ha_codex_voice.Bridge.AppServer.Answers.{
  bit, writes, writers, answers, answers-append, Settled, Once, Quiet, All-remove, lookup-known,
}

module _ (c : ℕ) where
  pub leave-Settled :
      (o : Option ℕ) (r : Responder) (s : AppServer) → Settled c s → Quiet c s (leave o r s)
  unfolding leave
  leave-Settled none r s h = (h, refl)
  leave-Settled (some d) r s h =
      if_elim (Quiet c s) (r.fallback && is_cell (lookup r.key s.timers) d) _ _
        (λ _. (
          record {
            exclusive = h.exclusive;
            counted = h.counted;
            known = h.known;
            unused = h.unused;
          },
          refl,
        ))
        λ _. (h, refl)

  pub acquire-Once :
      (d : ℕ) (r : Responder) (rest : List Responder) (w : World)
      → r.cell ≡ some d
      → r.writing ≡ false
      → (w.server.cells d).locked ≡ false
      → writers c w.responders ≡ bit (writes c r) + writers c rest
      → Once c w
      → Once c (acquired (acquire d r w.server).0 (acquire d r w.server).1 d r rest w)
  unfolding acquire
  acquire-Once d r rest w e f u k h =
      if_elim
        (λ (p : Outcome Fault (Option Responder) × AppServer). Once c (acquired p.0 p.1 d r rest w))
        ((w.server.cells d).written || not (is_cell (lookup r.key w.server.states) d)) _ _
        (λ _. over)
        λ fine.
          if_elim
            (λ (p : Outcome Fault (Option Responder) × AppServer).
              Once c (acquired p.0 p.1 d r rest w))
            (not w.server.alive) _ _ (λ _. over)
            λ _. record {
              held = ground (arith, h.held);
              settled = record {
                exclusive = ground (arith, h.settled.exclusive);
                counted = ground (arith, h.settled.counted);
                known = h.settled.known;
                unused = ground (
                  arith,
                  h.settled.unused,
                  lookup-known w.server.next_cell d r.key w.server.states h.settled.known,
                );
              };
            }
    where
      over : Once c (record w { server = leave (some d) r w.server; responders = rest })
      over =
          let q = leave-Settled (some d) r w.server h.settled in
          record { held = ground (arith, q.1, h.held); settled = q.0 }

  pub commit-Settled :
      (d : ℕ) (r : Responder) (s : AppServer)
      → Settled c s
      → r.cell ≡ some d
      → ((d == c) ≡ true → (s.cells c).locked ≡ true)
      → Settled c (commit d r s)
        × (((commit d r s).cells c).locked ≡ (if d == c then false else (s.cells c).locked))
  unfolding commit
  commit-Settled d r s h e own =
      if_elim
        (λ s'.
          Settled c s' × ((s'.cells c).locked ≡ (if d == c then false else (s.cells c).locked)))
        (is_cell (lookup r.key s.states) d) _ _
        (λ _. (
          record {
            exclusive = exclusive;
            counted = counted;
            known = All-remove s.next_cell r.key s.states h.known;
            unused = unused;
          },
          unlocked,
        ))
        λ _. (
          record { exclusive = exclusive; counted = counted; known = h.known; unused = unused },
          unlocked,
        )
    where
      cells' : ℕ → Cell
      cells' = update d (record (s.cells d) { written = true; locked = false }) s.cells

      unlocked : (cells' c).locked ≡ (if d == c then false else (s.cells c).locked)
      unlocked = ground arith

      exclusive : (cells' c).locked ≡ true → (cells' c).written ≡ false
      exclusive = ground (arith, h.exclusive)

      counted : answers c (s.lines ++ (line r true ∷ [])) ≡ bit (cells' c).written
      counted = ground (arith, answers-append c s.lines (line r true), h.counted, own, h.exclusive)

      unused : s.next_cell ≤ c → ((cells' c).locked ≡ false) × ((cells' c).written ≡ false)
      unused = ground (arith, h.unused, own)

  pub cancel_timeout-Settled :
      (key : Key) (d : ℕ) (fallback : Bool) (s : AppServer)
      → Settled c s
      → Quiet c s (cancel_timeout key d fallback s)
  unfolding cancel_timeout
  cancel_timeout-Settled key d fallback s h = go (s.cells d).timer
    where
      same : Quiet c s s
      same = (h, refl)

      popped : Quiet c s (record s {
        timers = remove key s.timers;
        cells =
            (if fallback then s.cells else update d (record (s.cells d) { timer = ended }) s.cells);
      })
      popped = (
        record {
          exclusive = ground (arith, h.exclusive);
          counted = ground (arith, h.counted);
          known = h.known;
          unused = ground (arith, h.unused);
        },
        ground arith,
      )

      chosen : Quiet c s (
          if not (is_cell (lookup key s.timers) d) then s else record s {
            timers = remove key s.timers;
            cells =
                (if fallback
                  then s.cells
                  else update d (record (s.cells d) { timer = ended }) s.cells);
          })
      chosen =
          if_elim (Quiet c s) (not (is_cell (lookup key s.timers) d)) _ _ (λ _. same) λ _. popped

      go : (t : Timer) → Quiet c s (cancel_by t key d fallback s)
      go no_timer = same
      go (sleeping id k) = chosen
      go ended = chosen

  pub finishing-Once :
      (r : Responder) (rest : List Responder) (outcome : Written) (w : World)
      → writers c w.responders ≡ bit (writes c r) + writers c rest
      → Once c w
      → Once c (finishing r rest outcome w)
  unfolding finish_response
  finishing-Once r rest outcome w k h =
      if_elim (Once c) r.writing _ _ (λ f. go r.cell outcome refl f) λ _. h
    where
      -- what the response leaves, and then its timer's `finally`
      left :
          (o : Option ℕ) (s : AppServer)
          → Settled c s
          → writers c rest ≡ bit (s.cells c).locked
          → Once c (record w { server = leave o r s; responders = rest })
      left o s q e =
          let l = leave-Settled o r s q in record { held = ground (arith, l.1); settled = l.0 }

      settled_by :
          (s : AppServer)
          → answers c s.lines ≡ answers c w.server.lines
          → s.states ≡ w.server.states
          → s.next_cell ≡ w.server.next_cell
          → (s.cells c).written ≡ (w.server.cells c).written
          → ((s.cells c).locked ≡ true → (w.server.cells c).locked ≡ true)
          → Settled c s
      settled_by s el es en ew ek = record {
        exclusive = ground (arith, h.settled.exclusive);
        counted = ground (arith, h.settled.counted);
        known = rw (es, en) h.settled.known;
        unused = ground (arith, h.settled.unused);
      }

      go :
          (o : Option ℕ) (outcome : Written)
          → r.cell ≡ o
          → r.writing ≡ true
          → Once c (record w {
            server = leave o r (finish_response o r outcome w.server);
            responders = rest;
          })
      go none drained e f =
          left none _
            (settled_by _ (ground (arith, answers-append c w.server.lines (line r true))) refl refl
              refl (λ p. p))
            (ground (arith, h.held))
      go none (broken true) e f =
          left none _
            (settled_by _ (ground (arith, answers-append c w.server.lines (line r false))) refl refl
              refl (λ p. p))
            (ground (arith, h.held))
      go none (broken false) e f = left none _ h.settled (ground (arith, h.held))
      go (some d) (broken true) e f =
          left (some d) _
            (settled_by _ (ground (arith, answers-append c w.server.lines (line r false))) refl refl
              (ground arith) (ground arith))
            (ground (arith, h.held))
      go (some d) (broken false) e f =
          left (some d) _ (settled_by _ refl refl refl (ground arith) (ground arith))
            (ground (arith, h.held))
      go (some d) drained e f =
          let m = commit-Settled d r w.server h.settled e (ground (arith, h.held)) in
          let q = cancel_timeout-Settled r.key d r.fallback (commit d r w.server) m.0 in
          left (some d) _ q.0 (ground (arith, h.held, m.1, q.1))
