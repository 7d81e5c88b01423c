-- ===== src/Bridge/Audio/Chunks.antt =====
-- What a chunk does to the resampler of bridge/audio.py.
use native.Mathlib.Nat.{le-div_iff_mul-le, mul-le-mul_right, sub_self}
use ha_codex_voice.Prelude.{
  ℕ, ◌+◌, ◌-◌, ◌*◌, ◌/◌, ◌%◌, ◌≤◌, ◌<◌, ◌≡◌, refl, true, false, none, List, [], ◌∷◌, ◌++◌,
  append-nil, le→ltb, ◌==◌, length, length-append, length-drop, drop, min, arith, ap, sym, ◌∙◌,
}
use ha_codex_voice.Prelude.Action.{returned}
use ha_codex_voice.Prelude.Ints.{ℤ}
use ha_codex_voice.Pcm.{samples_of, bytes_of}
use ha_codex_voice.Bridge.Audio.Resampler.{Resampler, drain, drained, discarded, feed}
use ha_codex_voice.Bridge.Audio.Positions.{
  frame_count, ready-left, frame_count-le, frame_count-fuel,
}
use ha_codex_voice.Bridge.Audio.Drain.{frames, drain_loop_lem}
use ha_codex_voice.Bridge.Audio.Ends.{
  is_over-ready, is_over-end, suc_not_zero, drop-append, drop-drop,
}

module _ (blend : ℤ → ℤ → ℕ → ℕ → ℤ) (s o : ℕ) (hs : 0 < s) (ho : 0 < o) where
  -- A reached position stays reached.
  pub reach_later : (b k l : ℕ) → k ≤ l → b ≤ k * s / o → b ≤ l * s / o
  reach_later b k l h e =
      let p : b * o ≤ k * s = (le-div_iff_mul-le ho).0 e in
      let q : k * s ≤ l * s = mul-le-mul_right s h in (le-div_iff_mul-le ho).1 (omega (arith, p, q))

  -- the frames that a chunk makes ready
  abbrev pub fresh : List ℤ → List ℤ → List ℤ
  fresh xs zs =
      frames blend s o zs (frame_count s o (length xs))
        (frame_count s o (length zs) - frame_count s o (length xs))

  -- The state with the input `xs`, of which `k` output frames are drawn and `b` samples dropped.
  abbrev pub fed : ℕ → List ℤ → ℕ → Resampler
  fed b xs k = record {
    source_rate = s;
    output_rate = o;
    buffer = drop b xs;
    buffer_start = b;
    input_frames = length xs;
    output_frames = k;
    closed = false;
  }

  -- what a drain up to the frame `k` leaves dropped
  abbrev dropped : ℕ → List ℤ → ℕ → ℕ
  dropped b xs k = b + min (length (drop b xs)) (k * s / o - b)

  drain-fed :
      (b : ℕ) (xs : List ℤ) (k : ℕ)
      → b ≤ k * s / o
      → k ≤ frame_count s o (length xs)
      → drain blend false (fed b xs k) ≡ (
        returned (bytes_of (frames blend s o xs k (frame_count s o (length xs) - k))),
        fed (dropped b xs (frame_count s o (length xs))) xs (frame_count s o (length xs)),
      )
  unfolding drain
  drain-fed b xs k re le =
      let count = frame_count s o (length xs) in
      let e : k + (count - k) ≡ count = omega (arith, le) in
      let looped =
        drain_loop_lem blend (fed b xs k) xs none false (count - k) (length xs * o + 1) k
          (omega (arith, frame_count-fuel s o hs ho (length xs))) ho
          (λ j a c. (
            is_over-ready (fed b xs k) hs ho j (omega (arith, c, e)),
            ready-left s o hs ho (length xs) j (omega (arith, c, e)),
          ))
          (is_over-end (fed b xs k) hs ho (length xs) (k + (count - k)) refl (omega (arith, e)))
          (record { all_input = refl; tail = refl; reaches = re }) in
      ap (λ p. drained false p (fed b xs k)) looped
      ∙ ap
          (λ n. (
            returned (bytes_of (frames blend s o xs k (count - k))),
            discarded false n (fed b xs k),
          ))
          e
      ∙ ap
          (λ buffer. (
            returned (bytes_of (frames blend s o xs k (count - k))),
            record (fed (dropped b xs count) xs count) { buffer = buffer },
          ))
          (drop-drop b (min (length (drop b xs)) (count * s / o - b)) xs)

  dropped_bounds :
      (b : ℕ) (xs : List ℤ) (k : ℕ)
      → b ≤ length xs
      → b ≤ k * s / o
      → (dropped b xs k ≤ length xs) × (dropped b xs k ≤ k * s / o)
  dropped_bounds b xs k h l = (omega (arith, length-drop b xs, h), omega (arith, l))

  -- What `feed` does to a state, and that it is a state again.
  abbrev pub Feeds : ℕ → List ℤ → List ℕ → Type 0
  Feeds b xs pcm =
      (b' : ℕ) × (feed blend pcm (fed b xs (frame_count s o (length xs))) ≡ (
        returned (bytes_of (fresh xs (xs ++ samples_of pcm))),
        fed b' (xs ++ samples_of pcm) (frame_count s o (length (xs ++ samples_of pcm))),
      ))
      × (b' ≤ length (xs ++ samples_of pcm))
      × (b' ≤ frame_count s o (length (xs ++ samples_of pcm)) * s / o)

  pub feed-Feeds :
      (b : ℕ) (xs : List ℤ) (pcm : List ℕ)
      → b ≤ length xs
      → b ≤ frame_count s o (length xs) * s / o
      → (length pcm % 2 == 0) ≡ true
      → length xs + length (samples_of pcm) ≤ s * 300
      → Feeds b xs pcm
  unfolding feed samples_of bytes_of
  feed-Feeds b xs [] h re ev le =
      (b, rw (append-nil, sub_self) refl, rw append-nil h, rw append-nil re)
  feed-Feeds b xs (p ∷ pcm) h re ev le =
      let ys = samples_of (p ∷ pcm) in
      let zs = xs ++ ys in
      let count = frame_count s o (length xs) in
      let count' = frame_count s o (length zs) in
      let more : count ≤ count' =
        frame_count-le s o hs ho (length xs) (length zs) (omega (arith, length-append xs ys)) in
      let re' = reach_later b count count' more re in
      let bounds = dropped_bounds b zs count' (omega (arith, length-append xs ys, h)) re' in
      (
        dropped b zs count',
        rw (ev, suc_not_zero (length pcm), le→ltb (s * 300) (length xs + length ys) le)
            ((λ i. drain blend false (record (fed b xs count) {
              buffer = sym (drop-append b xs ys h) i;
              input_frames = sym (length-append xs ys) i;
            }))
              ∙ drain-fed b zs count re more),
        bounds.0,
        bounds.1,
      )
