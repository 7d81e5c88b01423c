-- ===== src/Bridge/WebRtc/Validity.antt =====
-- The well-formedness of the input track of bridge/webrtc.py.
use ha_codex_voice.Prelude.{
  if_elim, ℕ, zero, suc, ◌+◌, ◌%◌, ◌≤◌, ◌≡◌, refl, true, false, not, List, [], ◌∷◌, ◌++◌, is_empty,
  ltb, ◌==◌, length, length-append, length-drop, drop, min, arith, sym, ◌∙◌, Bool-cases, inl, inr,
}
use ha_codex_voice.Prelude.Action.{Outcome}
use ha_codex_voice.Prelude.Ints.{ℤ, pos, leb_ℤ, pos_part}
use ha_codex_voice.Bridge.WebRtc.Track.{
  Track, TrackFault, feed, set_maximum_buffer_milliseconds, discard_pending, begin_recv, recv,
  bytes_for, Operation, feeds, limits, discards, begins_recv, recvs, step, run,
}

pub record IsValid (t : Track) : Type 0 where
  pub within : length t.buffer ≤ t.maximum_buffer_bytes
  pub aligned : length t.buffer % 2 ≡ 0
  pub signalled : t.drained ≡ is_empty t.buffer

is_empty-append : (a b : List ℕ) → is_empty b ≡ false → is_empty (a ++ b) ≡ false
is_empty-append [] b h = h
is_empty-append (x ∷ a) b h = refl

is_empty-drop : (n : ℕ) (a : List ℕ) → is_empty (drop n a) ≡ false → is_empty a ≡ false
is_empty-drop n [] h = sym (is_empty_nil n) ∙ h
  where
    is_empty_nil : (n : ℕ) → is_empty (drop {A = ℕ} n []) ≡ true
    is_empty_nil zero = refl
    is_empty_nil (suc n) = refl
is_empty-drop n (x ∷ a) h = refl

feed-IsValid : (pcm : List ℕ) (t : Track) → IsValid t → IsValid (feed pcm t).1
unfolding feed
feed-IsValid pcm t h =
    if_elim (λ (p : Outcome TrackFault (Unit {0}) × Track). IsValid p.1) (not (length pcm % 2 == 0))
      _ _ (λ _. h)
      λ even.
        if_elim (λ (p : Outcome TrackFault (Unit {0}) × Track). IsValid p.1)
          (ltb t.maximum_buffer_bytes (length t.buffer + length pcm)) _ _ (λ _. h)
          λ room.
            if_elim (λ (p : Outcome TrackFault (Unit {0}) × Track). IsValid p.1) (is_empty pcm) _ _
              (λ _. h)
              λ some_bytes. record {
                within = ground (arith, length-append t.buffer pcm, room);
                aligned = ground (arith, length-append t.buffer pcm, even, h.aligned);
                signalled = sym (is_empty-append t.buffer pcm some_bytes);
              }

recv-IsValid : (t : Track) → IsValid t → IsValid (recv t).1
unfolding recv
recv-IsValid t h = record {
  within = omega (arith, length-drop (min (length t.buffer) 960) t.buffer, h.within);
  aligned = omega (arith, length-drop (min (length t.buffer) 960) t.buffer, h.aligned);
  signalled = elim (Bool-cases (is_empty (drop (min (length t.buffer) 960) t.buffer))) [
    | inl e ↦ rw e refl
    | inr e ↦ rw e (h.signalled ∙ is_empty-drop (min (length t.buffer) 960) t.buffer e)
  ];
}

limit-IsValid :
    (maximum : ℤ) (t : Track) → IsValid t → IsValid (set_maximum_buffer_milliseconds maximum t).1
unfolding set_maximum_buffer_milliseconds
limit-IsValid maximum t h =
    if_elim (λ (p : Outcome TrackFault (Unit {0}) × Track). IsValid p.1) (leb_ℤ maximum (pos 0)) _ _
      (λ _. h)
      λ _.
        if_elim (λ (p : Outcome TrackFault (Unit {0}) × Track). IsValid p.1)
          (ltb (bytes_for (pos_part maximum)) (length t.buffer)) _ _ (λ _. h)
          λ room. record {
            within = ground (arith, room);
            aligned = h.aligned;
            signalled = h.signalled;
          }

step-IsValid : (o : Operation) (t : Track) → IsValid t → IsValid (step o t).1
unfolding step discard_pending begin_recv
step-IsValid (feeds pcm) t h = feed-IsValid pcm t h
step-IsValid (limits maximum) t h = limit-IsValid maximum t h
step-IsValid discards t h = record { within = omega arith; aligned = omega arith; signalled = refl }
step-IsValid (begins_recv now) t h = record {
  within = h.within;
  aligned = h.aligned;
  signalled = h.signalled;
}
step-IsValid recvs t h = recv-IsValid t h

pub run-IsValid : (os : List Operation) (t : Track) → IsValid t → IsValid (run os t).1
unfolding run
run-IsValid [] t h = h
run-IsValid (o ∷ os) t h = run-IsValid os (step o t).1 (step-IsValid o t h)
