-- ===== src/Bridge/WebRtc/Track.antt =====
-- `PcmAudioTrack` of bridge/webrtc.py. Times are natural numbers, in units of 1/48000 of a second, the
-- clock of the frames.
use ha_codex_voice.Prelude.{
  ℕ, ◌+◌, ◌-◌, ◌*◌, ◌/◌, ◌%◌, Bool, true, false, not, Option, none, some, List, [], ◌∷◌, ◌++◌,
  is_empty, ltb, ◌==◌, if◌then◌else◌, length, take, drop, replicate, min,
}
use ha_codex_voice.Prelude.Action.{Outcome, returned, raised}
use ha_codex_voice.Prelude.Ints.{ℤ, pos, leb_ℤ, pos_part}

abbrev pub input_frame_bytes : ℕ
input_frame_bytes = 960

abbrev pub rtp_frame_samples : ℕ
rtp_frame_samples = 960

abbrev pub max_input_buffer_milliseconds : ℕ
max_input_buffer_milliseconds = 300000

-- `ProtocolError`s and the `ValueError` by their messages.
pub data TrackFault : Type 0 where
  not_aligned buffer_exceeded not_positive queued_exceeds : TrackFault

pub record Track : Type 0 where
  pub buffer : List ℕ
  pub maximum_buffer_milliseconds : ℕ
  pub maximum_buffer_bytes : ℕ
  pub pts : ℕ
  pub started_at : Option ℕ
  pub drained : Bool

-- milliseconds of 24 kHz mono PCM16
abbrev pub bytes_for : ℕ → ℕ
bytes_for milliseconds = 24000 * 2 * milliseconds / 1000

unfoldable pub track : Track
track = record {
  buffer = [];
  maximum_buffer_milliseconds = max_input_buffer_milliseconds;
  maximum_buffer_bytes = bytes_for max_input_buffer_milliseconds;
  pts = 0;
  started_at = none;
  drained = true;
}

unfoldable pub feed : List ℕ → Track → Outcome TrackFault (Unit {0}) × Track
feed pcm t =
    if not (length pcm % 2 == 0)
    then (raised not_aligned, t)
    else if ltb t.maximum_buffer_bytes (length t.buffer + length pcm)
    then (raised buffer_exceeded, t)
    else if is_empty pcm
    then (returned tt, t)
    else (returned tt, record t { buffer = t.buffer ++ pcm; drained = false })

unfoldable pub set_maximum_buffer_milliseconds : ℤ → Track → Outcome TrackFault (Unit {0}) × Track
set_maximum_buffer_milliseconds maximum t =
    if leb_ℤ maximum (pos 0)
    then (raised not_positive, t)
    else if ltb (bytes_for (pos_part maximum)) (length t.buffer)
    then (raised queued_exceeds, t)
    else (
      returned tt,
      record t {
        maximum_buffer_milliseconds = pos_part maximum;
        maximum_buffer_bytes = bytes_for (pos_part maximum);
      },
    )

unfoldable pub discard_pending : Track → Track
discard_pending t = record t { buffer = []; drained = true }

pub record AudioFrame : Type 0 where
  pub samples : List ℕ
  pub pts : ℕ

-- Each sample of two bytes twice.
unfoldable pub upsample : List ℕ → List ℕ
upsample [] = []
upsample (low ∷ []) = low ∷ low ∷ []
upsample (low ∷ high ∷ rest) = low ∷ high ∷ low ∷ high ∷ upsample rest

abbrev pub started : Option ℕ → ℕ → ℕ
started none now = now
started (some at) now = at

-- `recv` up to its sleep, and how long that is
unfoldable pub begin_recv : ℕ → Track → ℕ × Track
begin_recv now t =
    let at = started t.started_at now in (at + t.pts - now, record t { started_at = some at })

-- `chunk`, filled up with silence
abbrev pub padded : List ℕ → List ℕ
padded chunk = chunk ++ replicate (input_frame_bytes - length chunk) 0

-- `recv` from its sleep on
unfoldable pub recv : Track → AudioFrame × Track
recv t =
    let available = min (length t.buffer) input_frame_bytes in
    let rest = drop available t.buffer in
    (
      record { samples = upsample (padded (take available t.buffer)); pts = t.pts },
      record t {
        buffer = rest;
        pts = t.pts + rtp_frame_samples;
        drained = (if is_empty rest then true else t.drained);
      },
    )

pub data Operation : Type 0 where
  feeds : List ℕ → Operation
  limits : ℤ → Operation
  discards : Operation
  begins_recv : ℕ → Operation
  recvs : Operation

unfoldable pub step : Operation → Track → List AudioFrame × Track
step (feeds pcm) t = ([], (feed pcm t).1)
step (limits maximum) t = ([], (set_maximum_buffer_milliseconds maximum t).1)
step discards t = ([], discard_pending t)
step (begins_recv now) t = ([], (begin_recv now t).1)
step recvs t = let (frame, t') = recv t in (frame ∷ [], t')

-- The frames of a run, and its end.
unfoldable pub run : List Operation → Track → List AudioFrame × Track
run [] t = ([], t)
run (o ∷ os) t = let (out, t') = step o t in let (later, t'') = run os t' in (out ++ later, t'')

abbrev pub was_fed : List ℕ → Outcome TrackFault (Unit {0}) → List ℕ
was_fed pcm (returned _) = pcm
was_fed pcm (raised e) = []

abbrev pub accepted_by : Operation → Track → List ℕ
accepted_by (feeds pcm) t = was_fed pcm (feed pcm t).0
accepted_by _ t = []

-- The bytes that a run takes in.
unfoldable pub accepted : List Operation → Track → List ℕ
accepted [] t = []
accepted (o ∷ os) t = accepted_by o t ++ accepted os (step o t).1
