-- ===== src/Bridge/Audio/Resampler.antt =====
-- `Pcm16MonoResampler` of bridge/audio.py. The interpolation of two samples, which the source does in
-- doubles, is the parameter `blend`: left, right, and the fraction as numerator and denominator.
use ha_codex_voice.Prelude.{
  ℕ, zero, suc, ◌+◌, ◌-◌, ◌*◌, ◌/◌, ◌%◌, Bool, true, false, not, ◌&&◌, ◌||◌, Option, none, some,
  List, [], ◌∷◌, ◌++◌, leb, ltb, ◌==◌, if◌then◌else◌, length, drop, min, max,
}
use ha_codex_voice.Prelude.Action.{Outcome, returned, raised}
use ha_codex_voice.Prelude.Ints.{ℤ, pos, negsuc, leb_ℤ}
use ha_codex_voice.Pcm.{samples_of, bytes_of}

-- The `ProtocolError`s by their messages; `no_fuel` is the model's own.
pub data AudioFault : Type 0 where
  bad_rate already_finished not_aligned too_long index_error no_fuel : AudioFault

abbrev pub min_pcm_sample_rate : ℕ
min_pcm_sample_rate = 8000

abbrev pub max_pcm_sample_rate : ℕ
max_pcm_sample_rate = 192000

abbrev pub max_pcm_duration_seconds : ℕ
max_pcm_duration_seconds = 300

pub record Resampler : Type 0 where
  pub source_rate : ℕ
  pub output_rate : ℕ
  pub buffer : List ℤ
  pub buffer_start : ℕ
  pub input_frames : ℕ
  pub output_frames : ℕ
  pub closed : Bool

abbrev pub is_rate : ℕ → Bool
is_rate rate = leb min_pcm_sample_rate rate && leb rate max_pcm_sample_rate

-- `__init__`
unfoldable pub resampler : ℕ → ℕ → Outcome AudioFault Resampler
resampler source_rate output_rate =
    if is_rate source_rate && is_rate output_rate
    then returned (record {
      source_rate = source_rate;
      output_rate = output_rate;
      buffer = [];
      buffer_start = 0;
      input_frames = 0;
      output_frames = 0;
      closed = false;
    })
    else raised bad_rate

-- `round(a / b)`: the quotient is rounded half to even. For these rates and durations the double
-- quotient is a half exactly when a / b is.
unfoldable pub round_div : ℕ → ℕ → ℕ
round_div a b =
    let twice = 2 * (a % b) in
    if ltb twice b then a / b else if ltb b twice then a / b + 1 else a / b + a / b % 2

-- `max(-32_768, min(32_767, value))`
unfoldable pub clamp : ℤ → ℤ
clamp v =
    if leb_ℤ (pos 32767) v then pos 32767 else if leb_ℤ v (negsuc 32767) then negsuc 32767 else v

abbrev pub get_elem? : List ℤ → ℕ → Option ℤ
get_elem? [] i = none
get_elem? (x ∷ xs) zero = some x
get_elem? (x ∷ xs) (suc i) = get_elem? xs i

-- `self._buffer[index - self._buffer_start]`: a negative index counts from the end.
unfoldable pub buffered : Resampler → ℕ → Option ℤ
buffered r index =
    if leb r.buffer_start index
    then get_elem? r.buffer (index - r.buffer_start)
    else if leb r.buffer_start (index + length r.buffer)
    then get_elem? r.buffer (index + length r.buffer - r.buffer_start)
    else none

abbrev pub is_reached : Option ℕ → ℕ → Bool
is_reached none k = false
is_reached (some target) k = leb target k

-- The loop of `_drain` is left: by its test, or by one of its two breaks.
unfoldable pub is_over : Resampler → Option ℕ → Bool → ℕ → Bool
is_over r target final k =
    let left = k * r.source_rate / r.output_rate in
    is_reached target k
    || (leb r.input_frames left
        || (not (k * r.source_rate % r.output_rate == 0)
            && (leb r.input_frames (left + 1) && not final)))

abbrev pub prepend : ℤ → Outcome AudioFault (List ℤ × ℕ) → Outcome AudioFault (List ℤ × ℕ)
prepend s (returned (out, k)) = returned (s ∷ out, k)
prepend s (raised e) = raised e

abbrev pub target_frames : Bool → Resampler → Option ℕ
target_frames final r =
    if final && not (r.input_frames == 0)
    then some (max 1 (round_div (r.input_frames * r.output_rate) r.source_rate))
    else none

-- What `_drain` discards from the buffer.
abbrev pub discarded : Bool → ℕ → Resampler → Resampler
discarded true k r = record r { output_frames = k; buffer_start = r.input_frames }
discarded false k r =
    let discard = min (length r.buffer) (k * r.source_rate / r.output_rate - r.buffer_start) in
    record r {
      output_frames = k;
      buffer = drop discard r.buffer;
      buffer_start = r.buffer_start + discard;
    }

abbrev pub drained :
    Bool → Outcome AudioFault (List ℤ × ℕ) → Resampler → Outcome AudioFault (List ℕ) × Resampler
drained final (returned (out, k)) r = (returned (bytes_of out), discarded final k r)
drained final (raised e) r = (raised e, r)

abbrev pub emptied :
    Outcome AudioFault (List ℕ) × Resampler → Outcome AudioFault (List ℕ) × Resampler
emptied (returned out, r) = (returned out, record r { buffer = [] })
emptied (raised e, r) = (raised e, r)

module _ (blend : ℤ → ℤ → ℕ → ℕ → ℤ) where
  abbrev pub interpolated : Option ℤ → Option ℤ → ℕ → ℕ → Outcome AudioFault ℤ
  interpolated (some left) (some right) numerator rate =
      returned (clamp (blend left right numerator rate))
  interpolated _ _ numerator rate = raised index_error

  abbrev pub emit :
      Outcome AudioFault ℤ → Outcome AudioFault (List ℤ × ℕ) → Outcome AudioFault (List ℤ × ℕ)
  emit (returned s) rest = prepend s rest
  emit (raised e) rest = raised e

  -- The value that the loop appends at `k`.
  unfoldable pub value_at : Resampler → ℕ → Outcome AudioFault ℤ
  value_at r k =
      let left = k * r.source_rate / r.output_rate in
      interpolated (buffered r left) (buffered r (min (left + 1) (r.input_frames - 1)))
        (k * r.source_rate % r.output_rate) r.output_rate

  -- The loop of `_drain` from the output frame `k`: what it appends, and the next output frame.
  unfoldable pub drain_loop : ℕ → Resampler → Option ℕ → Bool → ℕ → Outcome AudioFault (List ℤ × ℕ)
  drain_loop zero r target final k = raised no_fuel
  drain_loop (suc fuel) r target final k =
      let rest = drain_loop fuel r target final (k + 1) in
      if is_over r target final k then returned ([], k) else emit (value_at r k) rest

  -- `_drain`: at every round the position grows, so that it ends before the frame that stands for
  -- the whole input.
  unfoldable pub drain : Bool → Resampler → Outcome AudioFault (List ℕ) × Resampler
  drain final r =
      drained final
        (drain_loop (r.input_frames * r.output_rate + 1) r (target_frames final r) final
          r.output_frames)
        r

  unfoldable pub feed : List ℕ → Resampler → Outcome AudioFault (List ℕ) × Resampler
  feed pcm r =
      if r.closed
      then (raised already_finished, r)
      else if not (length pcm % 2 == 0)
      then (raised not_aligned, r)
      else if length pcm == 0
      then (returned [], r)
      else if ltb (r.source_rate * max_pcm_duration_seconds)
          (r.input_frames + length (samples_of pcm))
      then (raised too_long, r)
      else drain false (record r {
        buffer = r.buffer ++ samples_of pcm;
        input_frames = r.input_frames + length (samples_of pcm);
      })

  unfoldable pub finish : Resampler → Outcome AudioFault (List ℕ) × Resampler
  finish r =
      if r.closed then (returned [], r) else emptied (drain true (record r { closed = true }))
