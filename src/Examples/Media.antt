-- ===== src/Examples/Media.antt =====
-- Tests of the resampler, the input track and the receive queues, and their theorems at concrete
-- inputs.
use ha_codex_voice.Prelude.{
  ℕ, zero, ◌+◌, ◌-◌, ◌*◌, ◌/◌, ◌≤◌, ◌<◌, ◌≡◌, refl, true, List, [], ◌∷◌, ◌++◌, length, All, arith,
}
use ha_codex_voice.Prelude.Action.{returned, and_then}
use ha_codex_voice.Prelude.Ints.{ℤ, pos}
use ha_codex_voice.Pcm.{samples_of, bytes_of}
use ha_codex_voice.Bridge.Audio.Resampler.{
  resampler, clamp, feed, drain, drain_loop, is_over, value_at, buffered, finish, round_div,
}
use ha_codex_voice.Bridge.Audio.Positions.{total_frames}
use ha_codex_voice.Bridge.Audio.Drain.{frames}
use ha_codex_voice.Bridge.Audio.Streams.{stream, whole, stream-frames}
use ha_codex_voice.Bridge.WebRtc.Transport
use ha_codex_voice.Bridge.WebRtc.Transport.{
  Event, puts, begins, wins, cancels, resumes, drains, transport, put_transport_item, begin_receive,
  win, restore_cancelled_receive, drain_nowait, accepted,
}
use ha_codex_voice.Bridge.WebRtc.Fifo.{AllBetween, held, is_open, run-transport-Fifo}
use ha_codex_voice.Bridge.WebRtc.Track
use ha_codex_voice.Bridge.WebRtc.Track.{
  Operation, AudioFrame, feeds, recvs, discards, limits, track,
}
use ha_codex_voice.Bridge.WebRtc.Validity.{IsValid}
use ha_codex_voice.Bridge.WebRtc.Playout.{
  Renders, stretches, input_of, IsShort, IsFrame, run-track-Plays,
}

-- An interpolation of samples that are not negative, in whole numbers.
abbrev even_blend : ℤ → ℤ → ℕ → ℕ → ℤ
even_blend l r zero rate = l
even_blend (pos l) (pos r) numerator rate = pos ((l * (rate - numerator) + r * numerator) / rate)
even_blend l r numerator rate = l

-- Three samples at 8 kHz in two chunks.
abbrev ramp : List (List ℕ)
ramp = (0 ∷ 0 ∷ 30 ∷ 0 ∷ []) ∷ (60 ∷ 0 ∷ []) ∷ []

ramp_doubled :
    and_then (resampler 8000 16000) (stream even_blend ramp)
    ≡ returned (0 ∷ 0 ∷ 15 ∷ 0 ∷ 30 ∷ 0 ∷ 45 ∷ 0 ∷ 60 ∷ 0 ∷ 60 ∷ 0 ∷ [])
unfolding resampler feed samples_of bytes_of drain drain_loop is_over value_at buffered finish clamp
    round_div
ramp_doubled = refl

stream-frames_example :
    and_then (resampler 8000 16000) (stream even_blend ramp)
    ≡ returned (
        bytes_of (
          frames even_blend 8000 16000
            (whole ramp)
            0
            (total_frames 8000 16000 (length (whole ramp)))))
unfolding samples_of
stream-frames_example =
    stream-frames even_blend 8000 16000 (λ l r. refl) refl refl ramp (refl, (refl, tt))
      (omega arith)

-- A receive wins the first item and is cancelled; the item comes first again.
abbrev cancelled_run : List (Event ℕ)
cancelled_run = begins ∷ puts 1 ∷ puts 2 ∷ wins ∷ cancels ∷ begins ∷ drains ∷ []

cancelled_run_order : (Transport.run cancelled_run (transport 4)).0 ≡ 1 ∷ 2 ∷ []
unfolding Transport.run Transport.step transport put_transport_item begin_receive win
    restore_cancelled_receive drain_nowait
cancelled_run_order = refl

run-transport-Fifo_example :
    let (outs, t) = Transport.run cancelled_run (transport 4) in
    (is_open t ≡ true
      → accepted cancelled_run (transport 4) ≡ outs ++ (held t.receiver ++ (t.replay ++ t.queue)))
    × (0 < t.maxsize → length t.replay + length t.queue ≤ t.maxsize)
    × (length t.replay ≤ 1)
unfolding AllBetween Transport.step transport put_transport_item begin_receive win
    restore_cancelled_receive drain_nowait
run-transport-Fifo_example =
    run-transport-Fifo 4 cancelled_run (tt, (tt, (tt, (tt, (tt, (tt, (refl, tt)))))))

abbrev speech : List Operation
speech = feeds (1 ∷ 2 ∷ 3 ∷ 4 ∷ []) ∷ recvs ∷ feeds (5 ∷ 6 ∷ []) ∷ discards ∷ recvs ∷ []

speech_taken_in : Track.accepted speech track ≡ 1 ∷ 2 ∷ 3 ∷ 4 ∷ 5 ∷ 6 ∷ []
unfolding Track.accepted Track.step track Track.feed Track.recv Track.discard_pending
speech_taken_in = refl

run-track-Plays_example :
    let (frames, t) = Track.run speech track in
    let segments = stretches speech track in
    Renders 0 segments frames
    × (Track.accepted speech track ≡ input_of segments ++ t.buffer)
    × All IsShort segments
    × All IsFrame frames
    × IsValid t
run-track-Plays_example = run-track-Plays speech
