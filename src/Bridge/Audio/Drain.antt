-- ===== src/Bridge/Audio/Drain.antt =====
-- About the loop of `_drain` of bridge/audio.py, against the frames of the whole stream.
use native.Mathlib.Nat.{zero-add, add-zero, le-div_iff_mul-le, add-mul}
use ha_codex_voice.Prelude.{
  ℕ, zero, suc, ◌+◌, ◌-◌, ◌*◌, ◌/◌, ◌%◌, ◌≤◌, ◌<◌, ◌≡◌, refl, Bool, true, false, Option, some, List,
  [], ◌∷◌, ◌++◌, length, drop, min, arith, ap, sym, ◌∙◌,
}
use ha_codex_voice.Prelude.Action.{returned}
use ha_codex_voice.Prelude.Ints.{ℤ, pos}
use ha_codex_voice.Bridge.Audio.Resampler.{
  Resampler, clamp, get_elem?, buffered, is_over, interpolated, value_at, drain_loop,
}

abbrev pub get_or : List ℤ → ℕ → ℤ
get_or [] i = pos 0
get_or (x ∷ xs) zero = x
get_or (x ∷ xs) (suc i) = get_or xs i

module _ (blend : ℤ → ℤ → ℕ → ℕ → ℤ) (s o : ℕ) where
  -- The output frame `k` of the whole stream `xs`.
  unfoldable pub frame : List ℤ → ℕ → ℤ
  frame xs k = clamp (
      blend (get_or xs (k * s / o)) (get_or xs (min (k * s / o + 1) (length xs - 1))) (k * s % o) o)

  abbrev pub frames : List ℤ → ℕ → ℕ → List ℤ
  frames xs k zero = []
  frames xs k (suc m) = frame xs k ∷ frames xs (k + 1) m

  pub frames-append :
      (xs : List ℤ) (k m l : ℕ) → frames xs k (m + l) ≡ frames xs k m ++ frames xs (k + m) l
  frames-append xs k zero l = rw (zero-add, add-zero) refl
  frames-append xs k (suc m) l =
      let e : suc m + l ≡ suc (m + l) = omega arith in
      let f : k + 1 + m ≡ k + suc m = omega arith in
      ap (frames xs k) e
      ∙ ap (λ fs. frame xs k ∷ fs)
          (frames-append xs (k + 1) m l ∙ ap (λ n. frames xs (k + 1) m ++ frames xs n l) f)

get_elem?_lem : (xs : List ℤ) (i : ℕ) → i < length xs → get_elem? xs i ≡ some (get_or xs i)
get_elem?_lem [] i l = elim l [ ]
get_elem?_lem (x ∷ xs) zero l = refl
get_elem?_lem (x ∷ xs) (suc i) l = get_elem?_lem xs i (omega (arith, l))

get_elem?-drop :
    (xs : List ℤ) (a i : ℕ)
    → a ≤ i
    → i < length xs
    → get_elem? (drop a xs) (i - a) ≡ some (get_or xs i)
get_elem?-drop xs zero i h l = ap (get_elem? xs) (omega arith) ∙ get_elem?_lem xs i l
get_elem?-drop [] (suc a) i h l = elim l [ ]
get_elem?-drop (x ∷ xs) (suc a) zero h l = elim h [ ]
get_elem?-drop (x ∷ xs) (suc a) (suc i) h l =
    ap (get_elem? (drop a xs)) (omega arith)
    ∙ get_elem?-drop xs a i (omega (arith, h)) (omega (arith, l))

pub get_or-append : (xs ys : List ℤ) (i : ℕ) → i < length xs → get_or (xs ++ ys) i ≡ get_or xs i
get_or-append [] ys i l = elim l [ ]
get_or-append (x ∷ xs) ys zero l = refl
get_or-append (x ∷ xs) ys (suc i) l = get_or-append xs ys i (omega (arith, l))

-- The buffer holds the end of the input so far, from before the position of the frame `k` on.
pub record Holds (r : Resampler) (xs : List ℤ) (k : ℕ) : Type 0 where
  pub all_input : r.input_frames ≡ length xs
  pub tail : r.buffer ≡ drop r.buffer_start xs
  pub reaches : r.buffer_start ≤ k * r.source_rate / r.output_rate

module _ (blend : ℤ → ℤ → ℕ → ℕ → ℤ) (r : Resampler) (xs : List ℤ) where
  buffered_lem :
      (i : ℕ)
      → r.buffer ≡ drop r.buffer_start xs
      → r.buffer_start ≤ i
      → i < length xs
      → buffered r i ≡ some (get_or xs i)
  unfolding buffered
  buffered_lem i e h l = ground (arith, e, get_elem?-drop xs r.buffer_start i h l)

  value_at_lem :
      (k : ℕ)
      → Holds r xs k
      → k * r.source_rate / r.output_rate < length xs
      → value_at blend r k ≡ returned (frame blend r.source_rate r.output_rate xs k)
  unfolding value_at frame
  value_at_lem k h l =
      let left = k * r.source_rate / r.output_rate in
      let p = buffered_lem left h.tail h.reaches l in
      let q =
        buffered_lem (min (left + 1) (r.input_frames - 1)) h.tail
          (omega (arith, h.reaches, h.all_input, l)) (omega (arith, h.all_input, l))
        ∙ ap (λ n. some (get_or xs (min (left + 1) (n - 1)))) h.all_input in
      λ i. interpolated blend (p i) (q i) (k * r.source_rate % r.output_rate) r.output_rate

  Holds-next : (k : ℕ) → 0 < r.output_rate → Holds r xs k → Holds r xs (k + 1)
  Holds-next k ho h = record {
    all_input = h.all_input;
    tail = h.tail;
    reaches =
        let b = (le-div_iff_mul-le {x = r.buffer_start} {y = k * r.source_rate} ho).0 h.reaches in
        (le-div_iff_mul-le ho).1 (omega (arith, b, add-mul k 1 r.source_rate));
  }

  -- The loop appends the frames up to the first one at which it is over.
  pub drain_loop_lem :
      (target : Option ℕ) (final : Bool) (m fuel k : ℕ)
      → m < fuel
      → 0 < r.output_rate
      → ((j : ℕ)
          → k ≤ j
          → j < k + m
          → (is_over r target final j ≡ false) × (j * r.source_rate / r.output_rate < length xs))
      → is_over r target final (k + m) ≡ true
      → Holds r xs k
      → drain_loop blend fuel r target final k
        ≡ returned (frames blend r.source_rate r.output_rate xs k m, k + m)
  unfolding drain_loop
  drain_loop_lem target final m zero k l ho go over h = elim l [ ]
  drain_loop_lem target final zero (suc fuel) k l ho go over h =
      let e : is_over r target final k ≡ true =
        ap (is_over r target final) (sym (add-zero k)) ∙ over in
      rw (e, add-zero) refl
  drain_loop_lem target final (suc m) (suc fuel) k l ho go over h =
      let g = go k (omega arith) (omega arith) in
      let f : k + 1 + m ≡ k + suc m = omega arith in
      let ih =
        drain_loop_lem target final m fuel (k + 1) (omega (arith, l)) ho
          (λ j a b. go j (omega (arith, a)) (omega (arith, b)))
          (ap (is_over r target final) f ∙ over) (Holds-next k ho h) in
      rw (g.0, value_at_lem k h g.1, ih)
        (ap
          (λ n. returned (
            frame blend r.source_rate r.output_rate xs k
                ∷ frames blend r.source_rate r.output_rate xs (k + 1) m,
            n,
          ))
          f)
