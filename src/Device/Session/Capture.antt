-- ===== src/Device/Session/Capture.antt =====
-- About `submit_audio` of session.py, which the capture thread calls.
use ha_codex_voice.Prelude.{
  ℕ, ◌≤◌, none, some, ◌+◌, ◌%◌, ◌≡◌, Bool, true, false, not, ◌&&◌, List, length, is_empty, leb,
  ◌==◌,
}
use ha_codex_voice.Device.Session.Audio.{AudioPacket, pcm_has_local_barge_in_signal}
use ha_codex_voice.Device.Session.Queue.{total}
use ha_codex_voice.Device.Session.State.{SubmitResult, accepted, Session, is_open}

-- Exactly which frames are accepted: whole samples within the message bound, while the session is
-- open, not during output in half-duplex, and while the queue has room.
abbrev pub accepts : List ℕ → Session → Bool
accepts value s =
    not (is_empty value)
    && ((length value % 2 == 0)
        && (leb (length value) s.config.max_message_bytes
            && (is_open s.state
                && (not (s.output_active && not s.config.full_duplex)
                    && leb (total s.audio.items + length value) s.audio.maximum_bytes))))

abbrev pub is_accepted : SubmitResult → Bool
is_accepted accepted = true
is_accepted _ = false

abbrev pub queued : List ℕ → ℕ → AudioPacket
queued value clock = record { samples = value; captured_at = clock }

-- What an accepted frame does to the detection of local speech: nothing without full duplex; without
-- an output the count starts again; while a flush is requested nothing; otherwise a quiet frame starts
-- the count again, and the second loud frame in a row requests the flush of the epoch.
pub record Hears (value : List ℕ) (s t : Session) : Type 0 where
  pub half_duplex :
      s.config.full_duplex ≡ false
      → (t.barge_in_frames ≡ s.barge_in_frames)
        × (t.barge_in_requested_epoch ≡ s.barge_in_requested_epoch)
  pub idle :
      s.config.full_duplex ≡ true
      → s.local_output_epoch ≡ none
      → (t.barge_in_frames ≡ 0) × (t.barge_in_requested_epoch ≡ s.barge_in_requested_epoch)
  pub asked :
      (e r : ℕ)
      → s.config.full_duplex ≡ true
      → s.local_output_epoch ≡ some e
      → s.barge_in_requested_epoch ≡ some r
      → (t.barge_in_frames ≡ s.barge_in_frames) × (t.barge_in_requested_epoch ≡ some r)
  pub still :
      (e : ℕ)
      → s.config.full_duplex ≡ true
      → s.local_output_epoch ≡ some e
      → s.barge_in_requested_epoch ≡ none
      → pcm_has_local_barge_in_signal value ≡ false
      → (t.barge_in_frames ≡ 0) × (t.barge_in_requested_epoch ≡ none)
  pub counted :
      (e : ℕ)
      → s.config.full_duplex ≡ true
      → s.local_output_epoch ≡ some e
      → s.barge_in_requested_epoch ≡ none
      → pcm_has_local_barge_in_signal value ≡ true
      → s.barge_in_frames ≡ 0
      → (t.barge_in_frames ≡ 1) × (t.barge_in_requested_epoch ≡ none)
  pub requested :
      (e : ℕ)
      → s.config.full_duplex ≡ true
      → s.local_output_epoch ≡ some e
      → s.barge_in_requested_epoch ≡ none
      → pcm_has_local_barge_in_signal value ≡ true
      → 1 ≤ s.barge_in_frames
      → (t.barge_in_frames ≡ 0) × (t.barge_in_requested_epoch ≡ some e)

-- The fields that a submission may change.
abbrev pub resumed_with : Session → Session → Session
resumed_with s t = record s {
  audio = t.audio;
  barge_in_frames = t.barge_in_frames;
  barge_in_requested_epoch = t.barge_in_requested_epoch;
}
