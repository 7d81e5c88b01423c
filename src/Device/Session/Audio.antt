-- ===== src/Device/Session/Audio.antt =====
-- The microphone side of session.py: `_BoundedAudioQueue`, `_AudioPacer` and the signal tests. A
-- second is 64,000 ticks, in which `byte_count / (32_000 * rate)` is whole for both rates, 1 and 2.
use ha_codex_voice.Prelude.{
  ℕ, ◌+◌, ◌-◌, ◌*◌, ◌/◌, Bool, true, false, ◌&&◌, ◌||◌, Option, none, some, List, [], ◌∷◌, ◌++◌,
  length, max, leb, ltb, ◌==◌, if◌then◌else◌,
}
use ha_codex_voice.Prelude.Ints.{ℤ, abs}
use ha_codex_voice.Pcm.{samples_of}

pub record AudioPacket : Type 0 where
  pub samples : List ℕ
  pub captured_at : ℕ

-- The deque, oldest first, and the byte count kept beside it.
pub record AudioQueue : Type 0 where
  pub maximum_bytes : ℕ
  pub bytes : ℕ
  pub items : List AudioPacket

unfoldable pub empty_queue : ℕ → AudioQueue
empty_queue maximum_bytes = record { maximum_bytes = maximum_bytes; bytes = 0; items = [] }

unfoldable pub put : AudioPacket → AudioQueue → Bool × AudioQueue
put packet q = if ltb q.maximum_bytes (q.bytes + length packet.samples) then (false, q) else (
  true,
  record q { items = q.items ++ packet ∷ []; bytes = q.bytes + length packet.samples },
)

abbrev pub pop_front : List AudioPacket → AudioQueue → (Option AudioPacket × ℕ) × AudioQueue
pop_front [] q = ((none, 0), q)
pop_front (packet ∷ rest) q =
    ((some packet, length rest), record q { items = rest; bytes = q.bytes - length packet.samples })

-- The packet and the count of those that remain.
unfoldable pub pop : AudioQueue → (Option AudioPacket × ℕ) × AudioQueue
pop q = pop_front q.items q

unfoldable pub clear : AudioQueue → AudioQueue
clear q = record q { items = []; bytes = 0 }

-- `_next_send_at`
abbrev pub Pacer : Type 0
Pacer = Option ℕ

unfoldable pub due : ℕ → Pacer → Bool
due now none = true
due now (some next_send_at) = leb next_send_at now

unfoldable pub sent : ℕ → ℕ → Bool → Pacer
sent now byte_count catching_up = some (now + (if catching_up then byte_count else 2 * byte_count))

unfoldable pub delay : ℕ → Pacer → ℕ
delay now none = 0
delay now (some next_send_at) = next_send_at - now

abbrev pub input_activity_signal_peak : ℕ
input_activity_signal_peak = 256

abbrev pub local_barge_in_signal_peak : ℕ
local_barge_in_signal_peak = 1024

abbrev pub local_barge_in_signal_rms : ℕ
local_barge_in_signal_rms = 384

abbrev pub local_barge_in_frames_needed : ℕ
local_barge_in_frames_needed = 2

abbrev any_peak : List ℤ → Bool
any_peak [] = false
any_peak (s ∷ ss) = leb input_activity_signal_peak (abs s) || any_peak ss

unfoldable pub pcm_has_signal : List ℕ → Bool
unfolding samples_of
pcm_has_signal value = any_peak (samples_of value)

-- The loop of `_pcm_has_local_barge_in_signal`, with its two accumulators.
abbrev pub peak_and_energy : ℕ → ℕ → List ℤ → ℕ × ℕ
peak_and_energy peak energy [] = (peak, energy)
peak_and_energy peak energy (s ∷ ss) =
    peak_and_energy (max peak (abs s)) (energy + abs s * abs s) ss

unfoldable pub pcm_has_local_barge_in_signal : List ℕ → Bool
unfolding samples_of
pcm_has_local_barge_in_signal value =
    let count = length value / 2 in
    let (peak, energy) = peak_and_energy 0 0 (samples_of value) in
    if count == 0
    then false
    else leb local_barge_in_signal_peak peak
      && leb (local_barge_in_signal_rms * local_barge_in_signal_rms * count) energy
