-- ===== src/Bridge/WebRtc/Fifo.antt =====
-- About the order of the items in a receive queue of bridge/webrtc.py.
use ha_codex_voice.Prelude.{
  if_elim, ℕ, ◌+◌, ◌≤◌, ◌<◌, ◌≡◌, refl, Bool, true, false, not, ◌&&◌, ◌||◌, is_some, List, [], ◌∷◌,
  ◌++◌, append-nil, append_assoc, is_empty, if◌then◌else◌, length, length-append, arith, ap, sym,
  ◌∙◌,
}
use ha_codex_voice.Bridge.WebRtc.Transport.{
  Transport, TransportError, Receiver, idle, waiting, won, Event, puts, begins, wins, resumes,
  times_out, cancels, drains, closes, fails, transport, fail_transport, put_transport_item,
  begin_receive, first_replay, win, take_oldest, restore_cancelled_receive, resumed, cancelled,
  drain_nowait, is_idle, is_waiting, is_at, step, run, taken, accepted, overflow, replay_overflow,
}

module _ {A : Type 0} where
  abbrev pub held : Receiver A → List A
  held idle = []
  held waiting = []
  held (won item) = item ∷ []

  -- Neither closed nor failed.
  abbrev pub is_open : Transport A → Bool
  is_open t = not t.closed && not (is_some t.transport_error)

  -- What was taken in so far, what was handed out, and what is still there.
  record Ordered (t : Transport A) (ins outs : List A) : Type 0 where
    conserved : is_open t ≡ true → ins ≡ outs ++ (held t.receiver ++ (t.replay ++ t.queue))
    bounded : 0 < t.maxsize → length t.replay + length t.queue ≤ t.maxsize
    alone : is_idle t.receiver ≡ false → t.replay ≡ []
    short : length t.replay ≤ 1

  fail-Ordered :
      (e : TransportError) (t : Transport A) (ins outs : List A)
      → Ordered t ins outs
      → Ordered (fail_transport e t) ins outs
  unfolding fail_transport
  fail-Ordered e t ins outs h =
      if_elim (λ t'. Ordered t' ins outs) (t.closed || is_some t.transport_error) _ _ (λ _. h)
        λ _. record {
          conserved = λ p. ground arith;
          bounded = h.bounded;
          alone = h.alone;
          short = h.short;
        }

  nothing_in :
      (t : Transport A) (ins outs : List A) → Ordered t ins outs → Ordered t (ins ++ []) outs
  nothing_in t ins outs h = rw append-nil h

  put-Ordered :
      (item : A) (t : Transport A) (ins outs : List A)
      → Ordered t ins outs
      → Ordered (put_transport_item item t).1 (ins ++ taken (puts item) t) outs
  unfolding put_transport_item
  put-Ordered item t ins outs h =
      if_elim
        (λ (p : Bool × Transport A). Ordered p.1 (ins ++ (if p.0 then item ∷ [] else [])) outs)
        (is_at t.maxsize (length t.replay + length t.queue)) _ _
        (λ _. nothing_in _ ins outs (fail-Ordered overflow t ins outs h))
        λ room.
          if_elim
            (λ (p : Bool × Transport A). Ordered p.1 (ins ++ (if p.0 then item ∷ [] else [])) outs)
            (is_at t.maxsize (length t.queue)) _ _
            (λ _. nothing_in _ ins outs (fail-Ordered overflow t ins outs h))
            λ _. record {
              conserved = λ o.
                  ap (λ l. l ++ (item ∷ [])) (h.conserved o)
                  ∙ append_assoc outs _ _
                  ∙ ap (λ l. outs ++ l)
                      (append_assoc (held t.receiver) _ _
                        ∙ ap (λ l. held t.receiver ++ l) (append_assoc t.replay t.queue _));
              bounded = λ p. ground (arith, length-append t.queue (item ∷ []));
              alone = h.alone;
              short = h.short;
            }

  -- what a stretch hands out and leaves
  abbrev Stays : List A → List A → List A × Transport A → Type 0
  Stays ins outs p = Ordered p.1 ins (outs ++ p.0)

  quiet : (t : Transport A) (ins outs : List A) → Ordered t ins outs → Stays ins outs ([], t)
  quiet t ins outs h = rw append-nil h

  begin-Ordered :
      (t : Transport A) (ins outs : List A)
      → t.receiver ≡ idle
      → Ordered t ins outs
      → Stays ins outs (begin_receive t)
  unfolding begin_receive
  begin-Ordered t ins outs i h =
      if_elim (Stays ins outs) (is_some t.transport_error) _ _ (λ _. quiet t ins outs h)
        λ _. first t.replay refl
    where
      first : (l : List A) → t.replay ≡ l → Stays ins outs (first_replay l t)
      first [] e = record {
        conserved = λ o. rw append-nil (h.conserved o ∙ rw i refl);
        bounded = h.bounded;
        alone = λ _. e;
        short = h.short;
      }
      first (item ∷ rest) e = record {
        conserved =
            λ o. h.conserved o ∙ rw (i, e) (sym (append_assoc outs (item ∷ []) (rest ++ t.queue)));
        bounded = λ p. ground (arith, h.bounded p, e);
        alone = λ p. ground (arith, i);
        short = ground (arith, h.short, e);
      }

  win-Ordered :
      (t : Transport A) (ins outs : List A)
      → t.receiver ≡ waiting
      → Ordered t ins outs
      → Ordered (win t) ins outs
  unfolding win
  win-Ordered t ins outs i h = taken_first t.queue refl
    where
      alone : t.replay ≡ []
      alone = h.alone (ground (arith, i))

      taken_first : (l : List A) → t.queue ≡ l → Ordered (take_oldest l t) ins outs
      taken_first [] e = h
      taken_first (item ∷ rest) e = record {
        conserved = λ o. h.conserved o ∙ rw (i, alone, e) refl;
        bounded = λ p. ground (arith, h.bounded p, e);
        alone = λ _. alone;
        short = h.short;
      }

  -- The receiver is over and holds nothing.
  dismissed :
      (t : Transport A) (ins outs : List A)
      → (is_open t ≡ true → held t.receiver ≡ [])
      → Ordered t ins outs
      → Ordered (record t { receiver = idle }) ins outs
  dismissed t ins outs k h = record {
    conserved = λ o. h.conserved o ∙ ap (λ l. outs ++ (l ++ (t.replay ++ t.queue))) (k o);
    bounded = h.bounded;
    alone = λ p. cc;
    short = h.short;
  }

  handed :
      (item : A) (t : Transport A) (ins outs : List A)
      → t.receiver ≡ won item
      → Ordered t ins outs
      → Ordered (record t { receiver = idle }) ins (outs ++ (item ∷ []))
  handed item t ins outs i h = record {
    conserved =
        λ o. h.conserved o ∙ rw i (sym (append_assoc outs (item ∷ []) (t.replay ++ t.queue)));
    bounded = h.bounded;
    alone = λ p. cc;
    short = h.short;
  }

  resume-Ordered :
      (seen : Bool) (t : Transport A) (ins outs : List A)
      → Ordered t ins outs
      → (r : Receiver A) → t.receiver ≡ r
      → Stays ins outs (resumed seen r t)
  resume-Ordered seen t ins outs h idle i = quiet t ins outs h
  resume-Ordered seen t ins outs h waiting i =
      if_elim (Stays ins outs) (seen && is_some t.transport_error) _ _
        (λ e. quiet _ ins outs (dismissed t ins outs (λ _. rw i refl) h)) λ _. quiet t ins outs h
  resume-Ordered seen t ins outs h (won item) i =
      if_elim (Stays ins outs) (seen && is_some t.transport_error) _ _
        (λ e. quiet _ ins outs (dismissed t ins outs (λ o. absurd (ground (arith, e, o))) h))
        λ _. handed item t ins outs i h

  restore-Ordered :
      (item : A) (t : Transport A) (ins outs : List A)
      → t.receiver ≡ won item
      → Ordered t ins outs
      → Ordered (restore_cancelled_receive item (record t { receiver = idle })) ins outs
  unfolding restore_cancelled_receive fail_transport
  restore-Ordered item t ins outs i h =
      if_elim (λ t'. Ordered t' ins outs)
        (not (is_empty t.replay) || is_at t.maxsize (length t.replay + length t.queue)) _ _
        (λ _. lost)
        λ room. record {
          conserved = λ o. h.conserved o ∙ rw (i, empty room) refl;
          bounded = λ p. ground (arith, h.bounded p, room);
          alone = λ p. cc;
          short = ground (arith, empty room);
        }
    where
      empty :
          (not (is_empty t.replay) || is_at t.maxsize (length t.replay + length t.queue)) ≡ false
          → t.replay ≡ []
      empty room = ground (arith, room)

      lost : Ordered (fail_transport replay_overflow (record t { receiver = idle })) ins outs
      lost =
          if_elim (λ t'. Ordered t' ins outs) (t.closed || is_some t.transport_error) _ _
            (λ e. dismissed t ins outs (λ o. absurd (ground (arith, e, o))) h)
            λ _. record {
              conserved = λ o. ground arith;
              bounded = h.bounded;
              alone = λ p. cc;
              short = h.short;
            }

  drain-Ordered :
      (t : Transport A) (ins outs : List A)
      → t.receiver ≡ idle
      → Ordered t ins outs
      → Stays ins outs (drain_nowait t)
  unfolding drain_nowait
  drain-Ordered t ins outs i h =
      if_elim (Stays ins outs) (is_some t.transport_error) _ _ (λ _. quiet t ins outs h)
        λ _. record {
          conserved = λ o. h.conserved o ∙ rw i (sym (append-nil (outs ++ (t.replay ++ t.queue))));
          bounded = λ p. omega arith;
          alone = λ p. refl;
          short = omega arith;
        }

  closed-Ordered :
      (t : Transport A) (ins outs : List A)
      → Ordered t ins outs
      → Ordered (record t { closed = true }) ins outs
  closed-Ordered t ins outs h = record {
    conserved = λ o. cc;
    bounded = h.bounded;
    alone = h.alone;
    short = h.short;
  }

  cancel-Ordered :
      (t : Transport A) (ins outs : List A)
      → Ordered t ins outs
      → (r : Receiver A) → t.receiver ≡ r
      → Ordered (cancelled r t) ins outs
  cancel-Ordered t ins outs h idle i = h
  cancel-Ordered t ins outs h waiting i = dismissed t ins outs (λ _. rw i refl) h
  cancel-Ordered t ins outs h (won item) i = restore-Ordered item t ins outs i h

  -- The buffers are drained between two receives, not during one.
  abbrev pub IsBetween : Event A → Transport A → Type 0
  IsBetween drains t = t.receiver ≡ idle
  IsBetween _ t = Unit

  at_idle : (r : Receiver A) → is_idle r ≡ true → r ≡ idle
  at_idle r h = ground (arith, h)

  at_waiting : (r : Receiver A) → is_waiting r ≡ true → r ≡ waiting
  at_waiting r h = ground (arith, h)

  step-Ordered :
      (e : Event A) (t : Transport A) (ins outs : List A)
      → IsBetween e t
      → Ordered t ins outs
      → Ordered (step e t).1 (ins ++ taken e t) (outs ++ (step e t).0)
  unfolding step
  step-Ordered (puts item) t ins outs b h = rw append-nil (put-Ordered item t ins outs h)
  step-Ordered begins t ins outs b h = rw append-nil (
      if_elim (Stays ins outs) (is_idle t.receiver) _ _
        (λ i. begin-Ordered t ins outs (at_idle t.receiver i) h) λ _. quiet t ins outs h)
  step-Ordered wins t ins outs b h = rw append-nil (
      if_elim (Stays ins outs) (is_waiting t.receiver) _ _
        (λ i. quiet _ ins outs (win-Ordered t ins outs (at_waiting t.receiver i) h))
        λ _. quiet t ins outs h)
  step-Ordered (resumes seen) t ins outs b h =
      rw append-nil (resume-Ordered seen t ins outs h t.receiver refl)
  step-Ordered times_out t ins outs b h = rw append-nil (
      if_elim (Stays ins outs) (is_waiting t.receiver) _ _
        (λ i. quiet _ ins outs (dismissed t ins outs (λ _. ap held (at_waiting t.receiver i)) h))
        λ _. quiet t ins outs h)
  step-Ordered cancels t ins outs b h =
      rw append-nil (quiet _ ins outs (cancel-Ordered t ins outs h t.receiver refl))
  step-Ordered drains t ins outs b h = rw append-nil (drain-Ordered t ins outs b h)
  step-Ordered closes t ins outs b h =
      rw append-nil (quiet _ ins outs (closed-Ordered t ins outs h))
  step-Ordered (fails e) t ins outs b h =
      rw append-nil (quiet _ ins outs (fail-Ordered e t ins outs h))

  unfoldable pub AllBetween : List (Event A) → Transport A → Type 0
  AllBetween [] t = Unit
  AllBetween (e ∷ es) t = IsBetween e t × AllBetween es (step e t).1

  run-Ordered :
      (es : List (Event A)) (t : Transport A) (ins outs : List A)
      → AllBetween es t
      → Ordered t ins outs
      → Ordered (run es t).1 (ins ++ accepted es t) (outs ++ (run es t).0)
  unfolding run accepted AllBetween
  run-Ordered [] t ins outs b h = rw (append-nil, append-nil) h
  run-Ordered (e ∷ es) t ins outs b h =
      rw (← append_assoc ins, ← append_assoc outs)
        (run-Ordered es (step e t).1 (ins ++ taken e t) (outs ++ (step e t).0) b.1
          (step-Ordered e t ins outs b.0 h))

  -- In every run of a new queue, with any interleaving of puts, receives, timeouts, cancellations,
  -- faults and `close`, and drains between two receives: live queue and replay stay within the bound
  -- together, and as long as the peer is neither closed nor failed the items that were taken in are
  -- the ones that were handed out, then the one that the receiver has won, then the replay and the
  -- queue, in this order. So a cancelled receive loses nothing, and nothing is handed out twice.
  pub run-transport-Fifo :
      (maxsize : ℕ) (es : List (Event A))
      → AllBetween es (transport maxsize)
      → let (outs, t) = run es (transport maxsize) in
        (is_open t ≡ true
          → accepted es (transport maxsize) ≡ outs ++ (held t.receiver ++ (t.replay ++ t.queue)))
        × (0 < t.maxsize → length t.replay + length t.queue ≤ t.maxsize)
        × (length t.replay ≤ 1)
  unfolding transport
  run-transport-Fifo maxsize es b =
      let h = run-Ordered es (transport maxsize) [] [] b (record {
        conserved = λ o. refl;
        bounded = λ p. omega arith;
        alone = λ p. refl;
        short = omega arith;
      }) in
      (h.conserved, h.bounded, h.short)
