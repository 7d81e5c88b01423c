-- ===== src/Bridge/Audio/Positions.antt =====
-- About the positions of output frames among the input frames, bridge/audio.py: the frame k stands at
-- k * source / output.
use native.Mathlib.Nat.{
  le-div_iff_mul-le, div-lt_iff_lt-mul, div-add-mod', mul-le-mul_right, mul-mod_left, add-mul,
  div-mul-le_self, div-le_self,
}
use native.Mathlib.Decide.{dec_lt}
use ha_codex_voice.Prelude.{
  ℕ, zero, suc, ◌+◌, ◌-◌, ◌*◌, ◌/◌, ◌%◌, ◌≤◌, ◌<◌, ◌≡◌, ◌≢◌, max, arith, ap, sym, ◌∙◌,
}
use ha_codex_voice.Bridge.Audio.Resampler.{round_div}

module _ (s o : ℕ) where
  -- The frames that are ready when `n` input frames are there and more may follow.
  abbrev pub frame_count : ℕ → ℕ
  frame_count zero = 0
  frame_count (suc n) = n * o / s + 1

  -- All frames of a stream of `n` input frames: those that were ready, and up to the rounded length.
  abbrev pub total_frames : ℕ → ℕ
  total_frames zero = 0
  total_frames (suc n) = max (frame_count (suc n)) (max 1 (round_div (suc n * o) s))

module _ (s o : ℕ) (hs : 0 < s) (ho : 0 < o) where
  pub ready-le : (n k : ℕ) → k < frame_count s o (suc n) → k * s ≤ n * o
  ready-le n k h = (le-div_iff_mul-le hs).0 (omega (arith, h))

  pub ready-left : (n k : ℕ) → k < frame_count s o n → k * s / o < n
  ready-left zero k h = elim h [ ]
  ready-left (suc n) k h =
      (div-lt_iff_lt-mul ho).1 (omega (arith, ready-le n k h, ho, add-mul n 1 o))

  pub ready-right : (n k : ℕ) → k < frame_count s o n → k * s % o ≢ 0 → k * s / o + 1 < n
  ready-right zero k h f = elim h [ ]
  ready-right (suc n) k h f = elim (dec_lt (k * s) (n * o)) [
    | yes l ↦ let b : k * s / o < n = (div-lt_iff_lt-mul ho).1 l in omega (arith, b)
    | no l ↦
        let e : k * s ≡ n * o = omega (arith, l, ready-le n k h) in
        absurd (f (rw e (mul-mod_left n o)))
  ]

  past-end : (n k : ℕ) → frame_count s o (suc n) ≤ k → n * o < k * s
  past-end n k h = (div-lt_iff_lt-mul hs).0 (omega (arith, h))

  pub over-left : (n k : ℕ) → frame_count s o (suc n) ≤ k → n ≤ k * s / o
  over-left n k h = (le-div_iff_mul-le ho).1 (omega (arith, past-end n k h))

  pub over-fraction : (n k : ℕ) → frame_count s o (suc n) ≤ k → k * s / o ≡ n → k * s % o ≢ 0
  over-fraction n k h e f =
      let d : n * o + k * s % o ≡ k * s =
        ap (λ m. m * o + k * s % o) (sym e) ∙ div-add-mod' (k * s) o in
      omega (arith, past-end n k h, d, f)

  rounded-lt : (a k : ℕ) → k < round_div a s → k * s < a
  unfolding round_div
  rounded-lt a k h = elim (dec_lt k (a / s)) [
    | yes l ↦
        let b : suc k * s ≤ a = (le-div_iff_mul-le hs).0 l in omega (arith, b, add-mul k 1 s, hs)
    | no l ↦
        let b : k * s ≤ a / s * s = mul-le-mul_right s (ground (arith, h, l)) in
        ground (arith, b, div-add-mod' a s, h, l)
  ]

  pub rounded-left : (n k : ℕ) → k < round_div (n * o) s → k * s / o < n
  rounded-left n k h = (div-lt_iff_lt-mul ho).1 (rounded-lt (n * o) k h)

  pub frame_count-le : (m n : ℕ) → m ≤ n → frame_count s o m ≤ frame_count s o n
  frame_count-le zero n h = omega arith
  frame_count-le (suc m) zero h = elim h [ ]
  frame_count-le (suc m) (suc n) h =
      let a : m * o / s * s ≤ m * o = div-mul-le_self (m * o) s in
      let b : m * o ≤ n * o = mul-le-mul_right o (omega (arith, h)) in
      let c : m * o / s ≤ n * o / s = (le-div_iff_mul-le hs).1 (omega (arith, a, b)) in
      omega (arith, c)

  -- the rounds of a drain are fewer than its fuel
  pub frame_count-fuel : (n : ℕ) → frame_count s o n ≤ n * o
  frame_count-fuel zero = omega arith
  frame_count-fuel (suc n) = omega (arith, div-le_self (n * o) s, add-mul n 1 o, ho)

  round_div-le : (a : ℕ) → round_div a s ≤ a + 1
  unfolding round_div
  round_div-le a = ground (arith, div-le_self a s)

  pub total_frames-fuel : (n : ℕ) → total_frames s o n - frame_count s o n < n * o + 1
  total_frames-fuel zero = omega arith
  total_frames-fuel (suc n) =
      omega (arith, frame_count-fuel (suc n), round_div-le (suc n * o), add-mul n 1 o, ho)

  pub total_frames-ge : (n : ℕ) → frame_count s o n ≤ total_frames s o n
  total_frames-ge zero = omega arith
  total_frames-ge (suc n) = omega arith
