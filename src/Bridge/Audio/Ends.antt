-- ===== src/Bridge/Audio/Ends.antt =====
-- When the loop of `_drain` of bridge/audio.py is over, and lists that are dropped from.
use native.Mathlib.Nat.{div-lt_iff_lt-mul, zero-mul, add-mul}
use ha_codex_voice.Prelude.{
  ℕ, zero, suc, ◌+◌, ◌*◌, ◌/◌, ◌≤◌, ◌<◌, ◌≡◌, refl, true, false, none, some, List, [], ◌∷◌, ◌++◌,
  ◌==◌, length, drop, max, arith, ap, sym, ◌∙◌,
}
use ha_codex_voice.Prelude.Ints.{ℤ}
use ha_codex_voice.Bridge.Audio.Resampler.{Resampler, round_div, is_over}
use ha_codex_voice.Bridge.Audio.Positions.{
  frame_count, ready-left, ready-right, over-left, over-fraction, rounded-left,
}

module _ (r : Resampler) (hs : 0 < r.source_rate) (ho : 0 < r.output_rate) where
  pub is_over-ready :
      (k : ℕ)
      → k < frame_count r.source_rate r.output_rate r.input_frames
      → is_over r none false k ≡ false
  unfolding is_over
  is_over-ready k h = ground (
    arith,
    ready-left r.source_rate r.output_rate hs ho r.input_frames k h,
    ready-right r.source_rate r.output_rate hs ho r.input_frames k h,
  )

  pub is_over-end :
      (n k : ℕ)
      → r.input_frames ≡ n
      → frame_count r.source_rate r.output_rate n ≤ k
      → is_over r none false k ≡ true
  unfolding is_over
  is_over-end zero k e h = ground (arith, e)
  is_over-end (suc n) k e h = ground (
    arith,
    e,
    over-left r.source_rate r.output_rate hs ho n k h,
    over-fraction r.source_rate r.output_rate hs ho n k h,
  )

  pub rounded_left :
      (n k : ℕ)
      → k < max 1 (round_div (suc n * r.output_rate) r.source_rate)
      → k * r.source_rate / r.output_rate < suc n
  rounded_left n zero h =
      (div-lt_iff_lt-mul {k = r.output_rate} {x = 0 * r.source_rate} {y = suc n} ho).1
        (omega (arith, zero-mul r.source_rate, add-mul n 1 r.output_rate, ho))
  rounded_left n (suc k) h =
      rounded-left r.source_rate r.output_rate hs ho (suc n) (suc k) (omega (arith, h))

  pub is_over-rounded :
      (n k : ℕ)
      → r.input_frames ≡ suc n
      → k < max 1 (round_div (suc n * r.output_rate) r.source_rate)
      → is_over r (some (max 1 (round_div (suc n * r.output_rate) r.source_rate))) true k ≡ false
  unfolding is_over
  is_over-rounded n k e h = ground (arith, e, rounded_left n k h)

  pub is_over-reached : (t k : ℕ) → t ≤ k → is_over r (some t) true k ≡ true
  unfolding is_over
  is_over-reached t k h = ground arith

pub suc_not_zero : (n : ℕ) → (suc n == 0) ≡ false
suc_not_zero n = ground arith

pub drop-append : (n : ℕ) (xs ys : List ℤ) → n ≤ length xs → drop n (xs ++ ys) ≡ drop n xs ++ ys
drop-append zero xs ys h = refl
drop-append (suc n) [] ys h = elim h [ ]
drop-append (suc n) (x ∷ xs) ys h = drop-append n xs ys (omega (arith, h))

drop-nil : (n : ℕ) → drop {A = ℤ} n [] ≡ []
drop-nil zero = refl
drop-nil (suc n) = refl

pub drop-drop : (n m : ℕ) (xs : List ℤ) → drop m (drop n xs) ≡ drop (n + m) xs
drop-drop zero m xs = ap (λ k. drop k xs) (omega arith)
drop-drop (suc n) m [] = drop-nil m ∙ sym (drop-nil (suc n + m))
drop-drop (suc n) m (x ∷ xs) =
    let e : suc (n + m) ≡ suc n + m = omega arith in drop-drop n m xs ∙ ap (λ k. drop k (x ∷ xs)) e
