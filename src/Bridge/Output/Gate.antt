-- ===== src/Bridge/Output/Gate.antt =====
-- The output gate of `_run_realtime_socket` of bridge/service.py: its variables, the sections that
-- hold `output_state_lock`, cut where they await a send, and `audio`, for a device that takes binary
-- audio. Times are milliseconds of the monotonic clock.
use ha_codex_voice.Prelude.{
  ℕ, ◌+◌, ◌-◌, ◌%◌, Bool, true, false, not, ◌&&◌, ◌||◌, Option, none, some, is_some, List, [], ◌∷◌,
  ◌++◌, leb, ltb, ◌==◌, any, is_empty, length, if◌then◌else◌,
}
use ha_codex_voice.Prelude.Ints.{abs}
use ha_codex_voice.Pcm.{samples_of}

abbrev pub output_preroll_max_bytes : ℕ
output_preroll_max_bytes = 9600

abbrev pub output_preroll_ttl : ℕ
output_preroll_ttl = 500

abbrev pub output_signal_peak : ℕ
output_signal_peak = 256

-- `_realtime_pcm_has_signal`
unfoldable pub pcm_has_signal : List ℕ → Bool
pcm_has_signal chunk =
    if is_empty chunk || not (length chunk % 2 == 0)
    then false
    else any (λ sample. leb output_signal_peak (abs sample)) (samples_of chunk)

pub record Entry : Type 0 where
  pub generation : ℕ
  pub time : ℕ
  pub chunk : List ℕ

-- What the device is sent: the controls of the gate, binary audio, and the
-- `input_audio_buffer.speech_started` that is passed on.
pub data Sent : Type 0 where
  says_started says_stopped : ℕ → Sent
  says_audio : List ℕ → Sent
  says_speech : Sent

-- Where the task that holds the lock awaits: before `speaking.started`, after it, before the audio
-- of the preroll or of one chunk, before `speaking.stopped`.
pub data Holder : Type 0 where
  free stopping : Holder
  starting opening : Option ℕ → Holder
  delivering streaming : Option ℕ → List ℕ → Holder

pub record Gate : Type 0 where
  -- `bridge_managed_realtime`
  pub managed : Bool
  -- `backend_output_generation`
  pub output_generation : Option ℕ
  pub background_generation : ℕ
  -- `stop.is_set()`
  pub is_stopped : Bool
  pub armed : Bool
  pub arm_generation : ℕ
  -- the generation of the timer that runs
  pub arm_task : Option ℕ
  pub preroll : List Entry
  pub preroll_bytes : ℕ
  pub speaking : Bool
  pub epoch : ℕ
  pub last_pcm_at : Option ℕ
  pub holder : Holder
  -- the chunk with which `audio` waits for the lock
  pub heard : Option (Option ℕ × List ℕ)

unfoldable pub new_gate : Bool → Gate
new_gate managed = record {
  managed = managed;
  output_generation = none;
  background_generation = 0;
  is_stopped = false;
  armed = false;
  arm_generation = 0;
  arm_task = none;
  preroll = [];
  preroll_bytes = 0;
  speaking = false;
  epoch = 0;
  last_pcm_at = none;
  holder = free;
  heard = none;
}

abbrev pub is_generation : ℕ → Option ℕ → Bool
is_generation n none = false
is_generation n (some m) = m == n

-- Both generations are still the expected one, where one is expected.
abbrev pub is_authorized : Option ℕ → Gate → Bool
is_authorized none g = true
is_authorized (some n) g = is_generation n g.output_generation && g.background_generation == n

abbrev pub clear_preroll : Gate → Gate
clear_preroll g = record g { preroll = []; preroll_bytes = 0 }

abbrev pub with_preroll : List Entry × ℕ → Gate → Gate
with_preroll (entries, bytes) g = record g { preroll = entries; preroll_bytes = bytes }

unfoldable pub prune_loop : ℕ → ℕ → List Entry → ℕ → List Entry × ℕ
prune_loop generation now [] bytes = ([], bytes)
prune_loop generation now (e ∷ es) bytes =
    if not (e.generation == generation) || ltb (e.time + output_preroll_ttl) now
    then prune_loop generation now es (bytes - length e.chunk)
    else (e ∷ es, bytes)

-- `prune_output_preroll_locked`
unfoldable pub prune_output_preroll : ℕ → Gate → Gate
prune_output_preroll now g =
    with_preroll (prune_loop g.arm_generation now g.preroll g.preroll_bytes) g

-- The loop at the end of `quarantine_output`. With no entries there are no bytes.
unfoldable pub shed_loop : List Entry → ℕ → List Entry × ℕ
shed_loop [] bytes = ([], bytes)
shed_loop (e ∷ es) bytes =
    if ltb output_preroll_max_bytes bytes
    then shed_loop es (bytes - length e.chunk)
    else (e ∷ es, bytes)

abbrev pub shed : Gate → Gate
shed g = with_preroll (shed_loop g.preroll g.preroll_bytes) g

abbrev pub append_preroll : ℕ → List ℕ → Gate → Gate
append_preroll now chunk g = record g {
  preroll = g.preroll ++ (record { generation = g.arm_generation; time = now; chunk = chunk } ∷ []);
  preroll_bytes = g.preroll_bytes + length chunk;
}

unfoldable pub quarantine_output : ℕ → List ℕ → Gate → Gate
quarantine_output now chunk g =
    if not g.armed || not (pcm_has_signal chunk)
    then g
    else shed (append_preroll now chunk (prune_output_preroll now g))

-- `begin_output_locked` up to its first send
unfoldable pub begin_output : Option ℕ → Gate → Gate
begin_output expected g = if g.speaking || g.is_stopped then g else record g {
  armed = false;
  arm_task = none;
  epoch = g.epoch + 1;
  speaking = true;
  holder = starting expected;
}

-- `b"".join(entry[2] for entry in output_preroll)`
abbrev pub joined : List Entry → List ℕ
joined [] = []
joined (e ∷ es) = e.chunk ++ joined es

abbrev pub last_time : List Entry → Option ℕ
last_time [] = none
last_time (e ∷ []) = some e.time
last_time (_ ∷ (e ∷ es)) = last_time (e ∷ es)

abbrev pub release : Gate → Gate
release g = record g { holder = free }

abbrev pub deliver_preroll : Option ℕ → Gate → Gate
deliver_preroll expected g = if is_empty g.preroll then release g else record g {
  last_pcm_at = last_time g.preroll;
  holder = delivering expected (joined g.preroll);
}

-- `begin_output_locked` after `speaking.started`, up to the audio
unfoldable pub open_output : Option ℕ → ℕ → Gate → Gate
open_output expected now g =
    if not (is_authorized expected g)
    then release (clear_preroll g)
    else deliver_preroll expected (prune_output_preroll now g)

-- `send_audio` with its guard
unfoldable pub send_audio : Option ℕ → List ℕ → Gate → List Sent
send_audio expected chunk g = if is_authorized expected g then says_audio chunk ∷ [] else []

-- The task that holds the lock goes on: what it sends, and the gate.
unfoldable pub proceed : Holder → ℕ → Gate → List Sent × Gate
proceed free now g = ([], g)
proceed (starting expected) now g =
    (says_started g.epoch ∷ [], record g { holder = opening expected })
proceed (opening expected) now g = ([], open_output expected now g)
proceed (delivering expected bytes) now g = (send_audio expected bytes g, release (clear_preroll g))
proceed (streaming expected chunk) now g = (send_audio expected chunk g, release g)
proceed stopping now g = (says_stopped g.epoch ∷ [], release g)

abbrev pub arm : Option ℕ → Gate → Gate
arm expected g =
    if not (is_empty g.preroll)
    then begin_output expected g
    else record g { arm_task = some g.arm_generation }

unfoldable pub arm_output : Option ℕ → Gate → Gate
arm_output expected g =
    if not (is_authorized expected g) || (g.speaking || g.is_stopped) || g.armed
    then g
    else arm expected (record g { armed = true; arm_generation = g.arm_generation + 1 })

-- `expire_arm`; a timer that has ended is as none.
unfoldable pub expire_arm : Option ℕ → Gate → Gate
expire_arm none g = g
expire_arm (some generation) g =
    if not (g.arm_generation == generation) || g.speaking
    then record g { arm_task = none }
    else clear_preroll (record g { armed = false; arm_task = none })

abbrev pub is_epoch : Option ℕ → ℕ → Bool
is_epoch none epoch = true
is_epoch (some e) epoch = epoch == e

abbrev pub disarm : Gate → Gate
disarm g = record g { armed = false; arm_generation = g.arm_generation + 1; arm_task = none }

-- The last section of `end_output`, with its expected epoch, up to the send
unfoldable pub end_output : Option ℕ → Gate → Gate
end_output expected g =
    if not g.speaking || not (is_epoch expected g.epoch)
    then clear_preroll (disarm g)
    else clear_preroll
        (record (disarm g) { speaking = false; last_pcm_at = none; holder = stopping })

-- `audio` with the chunk that it received, before the lock
unfoldable pub receive_audio : List ℕ → Gate → Gate
receive_audio chunk g =
    if not g.managed
    then record g { heard = some (none, chunk) }
    else if is_generation g.background_generation g.output_generation
    then record g { heard = some (g.output_generation, chunk) }
    else g

abbrev pub begin_if_quarantined : Option ℕ → Gate → Gate
begin_if_quarantined expected g =
    if g.armed && not (is_empty g.preroll) then begin_output expected g else g

abbrev pub admit : Option ℕ → List ℕ → ℕ → Gate → Gate
admit expected chunk now g =
    if g.managed && not (is_some expected && is_authorized expected g)
    then g
    else if g.speaking
    then record g { last_pcm_at = some now; holder = streaming expected chunk }
    else begin_if_quarantined expected (quarantine_output now chunk g)

-- `audio` with the lock, up to its send
unfoldable pub admit_audio : Option (Option ℕ × List ℕ) → ℕ → Gate → Gate
admit_audio none now g = g
admit_audio (some (expected, chunk)) now g = admit expected chunk now (record g { heard = none })

-- `authorize_backend_output`, before it arms
unfoldable pub authorize_output : ℕ → Gate → Gate
authorize_output generation g =
    if not (generation == g.background_generation)
    then g
    else record g { output_generation = some generation }

-- `invalidate_bridge_output`
unfoldable pub invalidate_output : Gate → Gate
invalidate_output g = record g { output_generation = none }

-- `begin_background_generation`
unfoldable pub begin_generation : Gate → Gate
begin_generation g =
    invalidate_output (record g { background_generation = g.background_generation + 1 })

pub data Event : Type 0 where
  receives : List ℕ → Event
  authorizes : ℕ → Event
  invalidates advances stops speaks : Event
  proceeds : ℕ → Event
  -- the sections that need the lock
  admits : ℕ → Event
  arms ends : Option ℕ → Event
  expires : Event

abbrev pub is_free : Holder → Bool
is_free free = true
is_free _ = false

-- A section that finds the lock taken waits.
abbrev pub locked : (Gate → Gate) → Gate → List Sent × Gate
locked section g = ([], if is_free g.holder then section g else g)

unfoldable pub step : Event → Gate → List Sent × Gate
step (receives chunk) g = ([], if is_some g.heard then g else receive_audio chunk g)
step (authorizes generation) g = ([], authorize_output generation g)
step invalidates g = ([], invalidate_output g)
step advances g = ([], begin_generation g)
step stops g = ([], record g { is_stopped = true })
step speaks g = (says_speech ∷ [], g)
step (proceeds now) g = proceed g.holder now g
step (admits now) g = locked (admit_audio g.heard now) g
step (arms expected) g = locked (arm_output expected) g
step (ends expected) g = locked (end_output expected) g
step expires g = locked (expire_arm g.arm_task) g

-- What a run sends, and its end.
unfoldable pub run : List Event → Gate → List Sent × Gate
run [] g = ([], g)
run (e ∷ es) g = let (out, g') = step e g in let (later, g'') = run es g' in (out ++ later, g'')
