-- ===== src/Bridge/Audio/Streams.antt =====
-- About whole streams of bridge/audio.py: what the resampler yields does not depend on the chunks.
use native.Mathlib.Decide.{ℕ_discrete}
use mathlib.Core.Path.{ap₂}
use ha_codex_voice.Prelude.{
  ℕ, zero, suc, ◌+◌, ◌-◌, ◌*◌, ◌/◌, ◌%◌, ◌≤◌, ◌<◌, ◌≡◌, refl, Bool, true, none, some, List, [], ◌∷◌,
  ◌++◌, append_assoc, append-nil, ◌==◌, length, length-append, min, max, All, arith, ap, sym, ◌∙◌,
}
use ha_codex_voice.Prelude.Action.{Outcome, returned, raised, and_then}
use ha_codex_voice.Prelude.Ints.{ℤ}
use ha_codex_voice.Pcm.{samples_of, bytes_of, bytes_of-append}
use ha_codex_voice.Bridge.Audio.Resampler.{
  Resampler, is_rate, clamp, emptied, AudioFault, round_div, is_over, drain_loop, drain, drained,
  feed, finish, resampler,
}
use ha_codex_voice.Bridge.Audio.Positions.{
  frame_count, total_frames, ready-left, ready-right, frame_count-le, total_frames-fuel,
  total_frames-ge,
}
use ha_codex_voice.Bridge.Audio.Drain.{get_or-append, frame, frames, frames-append, drain_loop_lem}
use ha_codex_voice.Bridge.Audio.Ends.{rounded_left, is_over-rounded, is_over-reached, suc_not_zero}
use ha_codex_voice.Bridge.Audio.Chunks.{fresh, fed, feed-Feeds}

-- The chunks fed in order and the end, with all that is yielded.
abbrev pub joined :
    Outcome AudioFault (List ℕ) → Outcome AudioFault (List ℕ) → Outcome AudioFault (List ℕ)
joined (returned a) (returned b) = returned (a ++ b)
joined (returned a) (raised e) = raised e
joined (raised e) rest = raised e

-- The samples of the chunks, one after the other.
abbrev pub whole : List (List ℕ) → List ℤ
whole [] = []
whole (c ∷ cs) = samples_of c ++ whole cs

emptied-outcome : (p : Outcome AudioFault (List ℕ) × Resampler) → (emptied p).0 ≡ p.0
emptied-outcome (returned out, r) = refl
emptied-outcome (raised e, r) = refl

drained-outcome :
    (final : Bool) (out : List ℤ) (k : ℕ) (r : Resampler) (p : Outcome AudioFault (List ℤ × ℕ))
    → p ≡ returned (out, k)
    → (drained final p r).0 ≡ returned (bytes_of out)
drained-outcome final out k r p e = rw e refl

module _ (blend : ℤ → ℤ → ℕ → ℕ → ℤ) where
  abbrev pub stream : List (List ℕ) → Resampler → Outcome AudioFault (List ℕ)
  stream [] r = (finish blend r).0
  stream (c ∷ cs) r = joined (feed blend c r).0 (stream cs (feed blend c r).1)

module _ (blend : ℤ → ℤ → ℕ → ℕ → ℤ) (s o : ℕ) (hs : 0 < s) (ho : 0 < o) where
  over_empty : (r : Resampler) → r.input_frames ≡ 0 → is_over r none true 0 ≡ true
  unfolding is_over
  over_empty r e = ground (arith, e)

  finish-fed :
      (b : ℕ) (xs : List ℤ)
      → b ≤ frame_count s o (length xs) * s / o
      → (finish blend (fed blend s o hs ho b xs (frame_count s o (length xs)))).0
        ≡ returned (
            bytes_of (
              frames blend s o xs
                (frame_count s o (length xs))
                (total_frames s o (length xs) - frame_count s o (length xs))))
  unfolding finish drain
  finish-fed b [] re =
      let r : Resampler = record (fed blend s o hs ho b [] 0) { closed = true } in
      let looped =
        drain_loop_lem blend r [] none true 0 (0 * o + 1) 0 (omega arith) ho
          (λ j a c. absurd (omega (arith, a, c))) (over_empty r refl)
          (record { all_input = refl; tail = refl; reaches = re }) in
      emptied-outcome (drain blend true r)
      ∙ drained-outcome true [] (0 + 0) r (drain_loop blend (0 * o + 1) r none true 0) looped
  finish-fed b (x ∷ xs) re =
      let n = length xs in
      let count = frame_count s o (suc n) in
      let total = total_frames s o (suc n) in
      let target = max 1 (round_div (suc n * o) s) in
      let r : Resampler = record (fed blend s o hs ho b (x ∷ xs) count) { closed = true } in
      let e : count + (total - count) ≡ total = omega (arith, total_frames-ge s o hs ho (suc n)) in
      let looped =
        drain_loop_lem blend r (x ∷ xs) (some target) true (total - count) (suc n * o + 1) count
          (total_frames-fuel s o hs ho (suc n)) ho
          (λ j a c. (
            is_over-rounded r hs ho n j refl (omega (arith, a, c, e)),
            rounded_left r hs ho n j (omega (arith, a, c, e)),
          ))
          (is_over-reached r hs ho target (count + (total - count)) (omega (arith, e)))
          (record { all_input = refl; tail = refl; reaches = re }) in
      emptied-outcome (drain blend true r)
      ∙ rw (suc_not_zero n) (
          drained-outcome true _ _ r (drain_loop blend (suc n * o + 1) r (some target) true count)
            looped)

  module _ (flat : (l r : ℤ) → blend l r 0 o ≡ l) where
    -- A frame that is ready does not wait for what follows.
    frame-append :
        (xs ys : List ℤ) (k : ℕ)
        → k < frame_count s o (length xs)
        → frame blend s o (xs ++ ys) k ≡ frame blend s o xs k
    unfolding frame
    frame-append xs ys k h = elim (ℕ_discrete (k * s % o) 0) [
      | yes e ↦ rw e (
          ap clamp (
            flat _ _
            ∙ get_or-append xs ys (k * s / o) (ready-left s o hs ho (length xs) k h)
            ∙ sym (flat _ _)))
      | no e ↦
          let l = ready-right s o hs ho (length xs) k h e in
          let m : min (k * s / o + 1) (length (xs ++ ys) - 1) ≡ k * s / o + 1 =
            omega (arith, l, length-append xs ys) in
          let m' : min (k * s / o + 1) (length xs - 1) ≡ k * s / o + 1 = omega (arith, l) in
          rw
            (
              m,
              m',
              get_or-append xs ys (k * s / o) (omega (arith, l)),
              get_or-append xs ys (k * s / o + 1) l,
            )
            refl
    ]

    frames-prefix :
        (xs ys : List ℤ) (k m : ℕ)
        → k + m ≤ frame_count s o (length xs)
        → frames blend s o (xs ++ ys) k m ≡ frames blend s o xs k m
    frames-prefix xs ys k zero h = refl
    frames-prefix xs ys k (suc m) h =
        ap₂ ◌∷◌ (frame-append xs ys k (omega (arith, h)))
          (frames-prefix xs ys (k + 1) m (omega (arith, h)))

    -- From any state on, the rest of the stream yields the frames that were not ready.
    stream-fed :
        (cs : List (List ℕ)) (b : ℕ) (xs : List ℤ)
        → b ≤ length xs
        → b ≤ frame_count s o (length xs) * s / o
        → All (λ c. (length c % 2 == 0) ≡ true) cs
        → length (xs ++ whole cs) ≤ s * 300
        → stream blend cs (fed blend s o hs ho b xs (frame_count s o (length xs)))
          ≡ returned (
              bytes_of (
                frames blend s o
                  (xs ++ whole cs)
                  (frame_count s o (length xs))
                  (total_frames s o (length (xs ++ whole cs)) - frame_count s o (length xs))))
    stream-fed [] b xs h re ev le = rw append-nil (finish-fed b xs re)
    stream-fed (c ∷ cs) b xs h re ev le =
        let ys = samples_of c in
        let zs = xs ++ ys in
        let all = zs ++ whole cs in
        let assoc : all ≡ xs ++ whole (c ∷ cs) = append_assoc xs ys (whole cs) in
        let k = frame_count s o (length xs) in
        let k' = frame_count s o (length zs) in
        let total = total_frames s o (length all) in
        let fits : length all ≤ s * 300 = rw assoc le in
        let (b', step, h', re') =
          feed-Feeds blend s o hs ho b xs c h re ev.0
            (omega (arith, fits, length-append xs ys, length-append zs (whole cs))) in
        let ih = stream-fed cs b' zs h' re' ev.1 fits in
        let m : k ≤ k' =
          frame_count-le s o hs ho (length xs) (length zs) (omega (arith, length-append xs ys)) in
        let m' : k' ≤ total = omega (
          arith,
          frame_count-le s o hs ho (length zs) (length all)
              (omega (arith, length-append zs (whole cs))),
          total_frames-ge s o hs ho (length all),
        ) in
        let same = frames-prefix zs (whole cs) k (k' - k) (omega (arith, m)) in
        let e : k' - k + (total - k') ≡ total - k = omega (arith, m, m') in
        let e' : k + (k' - k) ≡ k' = omega (arith, m) in
        let split : frames blend s o all k (total - k)
            ≡ fresh blend s o hs ho xs zs ++ frames blend s o all k' (total - k') =
          ap (frames blend s o all k) (sym e)
          ∙ frames-append blend s o all k (k' - k) (total - k')
          ∙ ap (λ n. frames blend s o all k (k' - k) ++ frames blend s o all n (total - k')) e'
          ∙ ap (λ fs. fs ++ frames blend s o all k' (total - k')) same in
        rw (← assoc, step, ih) (ap returned (sym (ap bytes_of split ∙ bytes_of-append _ _)))

-- A new resampler with valid rates that is fed any chunks of whole samples, of at most 300 seconds
-- in all, and then finished, yields the frames of the whole input, each the clamped interpolation at
-- its position, in order and each once: the chunks do not matter. The interpolation must give the
-- left sample at the fraction 0.
pub stream-frames :
    (blend : ℤ → ℤ → ℕ → ℕ → ℤ) (s o : ℕ)
    → ((l r : ℤ) → blend l r 0 o ≡ l)
    → is_rate s ≡ true
    → is_rate o ≡ true
    → (cs : List (List ℕ)) → All (λ c. (length c % 2 == 0) ≡ true) cs
    → length (whole cs) ≤ s * 300
    → and_then (resampler s o) (stream blend cs)
      ≡ returned (bytes_of (frames blend s o (whole cs) 0 (total_frames s o (length (whole cs)))))
unfolding resampler
stream-frames blend s o flat hs ho cs ev le =
    let ps : 0 < s = ground (arith, hs) in
    let po : 0 < o = ground (arith, ho) in
    let total = total_frames s o (length (whole cs)) in
    let e : total - 0 ≡ total = omega arith in
    rw (hs, ho)
      (stream-fed blend s o ps po flat cs 0 [] (omega arith) (omega arith) ev le
        ∙ ap (λ n. returned (bytes_of (frames blend s o (whole cs) 0 n))) e)
