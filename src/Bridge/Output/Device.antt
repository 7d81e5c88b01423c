-- ===== src/Bridge/Output/Device.antt =====
-- About the output gate of bridge/service.py together with the device of session.py: what
-- `_handle_message` and `_flush_local_barge_in` make of the messages that the gate sends.
use ha_codex_voice.Prelude.{
  ℕ, zero, suc, String, ◌<◌, ◌≡◌, refl, Bool, Option, none, some, List, [], ◌∷◌, arith, ◌⊎◌,
}
use ha_codex_voice.Prelude.Action.{Outcome, returned, raised, resume, ◌>>=◌}
use ha_codex_voice.Prelude.Hoare.{Post}
use ha_codex_voice.Prelude.Ints.{pos}
use ha_codex_voice.Json.{Fields, end, field, int, text, get, member}
use ha_codex_voice.Device.Session.State.{set_local_output_epoch}
use ha_codex_voice.Device.Session.Protocol.{output_epoch_of}
use ha_codex_voice.Device.Session.Messages.{
  SessionFault, player_error, guard_refused, Desk, DeskMethod, Reply, Speaker, handle_binary,
  start_speaking, speaking_started, speaking_stopped, speech_started,
}
use ha_codex_voice.Device.Session.Dispatch.{on_control, on_json, flush_local_barge_in}
use ha_codex_voice.Bridge.Output.Gate.{
  Sent, says_started, says_stopped, says_audio, says_speech, Event, new_gate, run,
}
use ha_codex_voice.Bridge.Output.Talk.{Talks, told, run-new_gate-Talks}

abbrev pub control : String → Fields → Fields
control event_type rest = field "type" (text "control") (field "event_type" (text event_type) rest)

-- The JSON object of a control.
abbrev pub sent_fields : Sent → Fields
sent_fields (says_started e) = control "speaking.started" (field "output_epoch" (int (pos e)) end)
sent_fields (says_stopped e) = control "speaking.stopped" (field "output_epoch" (int (pos e)) end)
sent_fields (says_audio bytes) = end
sent_fields says_speech = control "input_audio_buffer.speech_started" end

-- What happens to the network loop of the device: a message, or a flush with the request that the
-- capture thread left.
pub data Turn : Type 0 where
  takes : Sent → Turn
  flushes : Option ℕ → Turn

abbrev pub messages : List Turn → List Sent
messages [] = []
messages (takes m ∷ ts) = m ∷ messages ts
messages (flushes _ ∷ ts) = messages ts

abbrev pub request_flush : Option ℕ → Desk → Desk
request_flush r d = record d { session = record d.session { barge_in_requested_epoch = r } }

module _ (speaker : Speaker) where
  unfoldable pub take_message : Option ℕ → ℕ → Sent → DeskMethod Reply
  take_message output_epoch last (says_audio bytes) = handle_binary output_epoch last bytes
  take_message output_epoch last m = on_json speaker output_epoch last (sent_fields m)

  -- The epochs at the end, unless the session ends before.
  unfoldable pub hear : List Turn → Option ℕ → ℕ → DeskMethod (Option ℕ × ℕ)
  hear [] output_epoch last d = (returned (output_epoch, last), d)
  hear (takes m ∷ ts) output_epoch last d =
      (take_message output_epoch last m >>= λ r. hear ts r.output_epoch r.last_output_epoch) d
  hear (flushes r ∷ ts) output_epoch last d =
      let (output_epoch', d') = flush_local_barge_in output_epoch last (request_flush r d) in
      hear ts output_epoch' last d'

-- A fault of the player, or a refusal of the volume guard.
abbrev pub IsOutside : SessionFault → Type 0
IsOutside (player_error _) = Unit
IsOutside guard_refused = Unit
IsOutside _ = ⊥

-- The device with the epoch that the gate has on: it plays it, or has flushed it.
abbrev pub Agrees : Option ℕ → ℕ → Option ℕ → Desk → Type 0
Agrees none last output_epoch d = output_epoch ≡ none
Agrees (some e) last output_epoch d =
    (last ≡ e)
    × ((0 < e)
        × ((output_epoch ≡ some e)
            ⊎ ((output_epoch ≡ none) × (d.session.suppressed_output_epoch ≡ some e))))

abbrev Answers : Option ℕ → ℕ → Reply → Desk → Type 0
Answers current last r d = (r.last_output_epoch ≡ last) × Agrees current last r.output_epoch d

abbrev Meets : Option ℕ → ℕ → Outcome SessionFault Reply × Desk → Type 0
Meets current last = Post (Answers current last) (λ e _. IsOutside e)

audio-Agrees :
    (e last : ℕ) (o : Option ℕ) (bytes : List ℕ) (d : Desk)
    → Agrees (some e) last o d
    → Meets (some e) last (handle_binary o last bytes d)
unfolding handle_binary
audio-Agrees e last none bytes d h = ground (arith, h)
audio-Agrees e last (some c) bytes d h = ground (arith, h)

started-Agrees :
    (speaker : Speaker) (k last : ℕ) (d : Desk)
    → last < suc k
    → Meets (some (suc k)) (suc k) (speaking_started speaker none last (suc k) d)
unfolding speaking_started start_speaking set_local_output_epoch
started-Agrees speaker k last d h = ground (arith, h)

stopped-Agrees :
    (speaker : Speaker) (e last : ℕ) (o : Option ℕ) (d : Desk)
    → Agrees (some e) last o d
    → Meets none last (speaking_stopped speaker o last e d)
unfolding speaking_stopped
stopped-Agrees speaker e last none d h = ground (arith, h)
stopped-Agrees speaker e last (some c) d h = ground (arith, h)

speech-Agrees :
    (current : Option ℕ) (last : ℕ) (o : Option ℕ) (d : Desk)
    → Agrees current last o d
    → let (r, d') = speech_started o last d in Answers current last r d'
unfolding speech_started set_local_output_epoch
speech-Agrees none last none d h = ground (arith, h)
speech-Agrees none last (some c) d h = ground (arith, h)
speech-Agrees (some e) last none d h = ground (arith, h)
speech-Agrees (some e) last (some c) d h = ground (arith, h)

flush-Agrees :
    (current : Option ℕ) (last : ℕ) (r o : Option ℕ) (d : Desk)
    → Agrees current last o d
    → let (o', d') = flush_local_barge_in o last (request_flush r d) in Agrees current last o' d'
unfolding flush_local_barge_in
flush-Agrees none last none o d h = h
flush-Agrees none last (some r) o d h = ground (arith, h)
flush-Agrees (some e) last none o d h = h
flush-Agrees (some e) last (some r) none d h = ground (arith, h)
flush-Agrees (some e) last (some r) (some c) d h = ground (arith, h)

-- The session ended by such a fault, or it agrees with the gate's end.
abbrev pub Settles : Option ℕ × ℕ → Outcome SessionFault (Option ℕ × ℕ) × Desk → Type 0
Settles ending = Post (λ r d. (r.1 ≡ ending.1) × Agrees ending.0 ending.1 r.0 d) λ e _. IsOutside e

module _ (speaker : Speaker) (ending : Option ℕ × ℕ) where
  -- The rest settles after a message that is answered.
  then_hear :
      (current : Option ℕ) (last : ℕ) (m : DeskMethod Reply) (ts : List Turn) (d : Desk)
      → Meets current last (m d)
      → ((o : Option ℕ) (d : Desk)
          → Agrees current last o d
          → Settles ending (hear speaker ts o last d))
      → Settles ending ((m >>= λ r. hear speaker ts r.output_epoch r.last_output_epoch) d)
  then_hear current last m ts d h rest = at (m d) h
    where
      at :
          (p : Outcome SessionFault Reply × Desk)
          → Meets current last p
          → Settles ending
              (resume p.0 (λ r. hear speaker ts r.output_epoch r.last_output_epoch) p.1)
      at (returned r, d') h = rw h.0 (rest r.output_epoch d' h.1)
      at (raised e, d') h = h

  hear-Settles :
      (ts : List Turn) (current : Option ℕ) (last : ℕ) (o : Option ℕ) (d : Desk)
      → Talks ending current last (messages ts)
      → Agrees current last o d
      → Settles ending (hear speaker ts o last d)
  unfolding hear take_message on_json on_control output_epoch_of get member
  hear-Settles [] current last o d t a = (t.1, rw (← t.0, ← t.1) a)
  hear-Settles (flushes r ∷ ts) current last o d t a =
      hear-Settles ts current last _ _ t (flush-Agrees current last r o d a)
  hear-Settles (takes says_speech ∷ ts) current last o d t a =
      let answer = speech-Agrees current last o d a in
      rw answer.0 (hear-Settles ts current last _ _ t answer.1)
  hear-Settles (takes (says_audio bytes) ∷ ts) (some e) last o d t a =
      then_hear (some e) last (handle_binary o last bytes) ts d (audio-Agrees e last o bytes d a)
        λ o' d' a'. hear-Settles ts (some e) last o' d' t a'
  hear-Settles (takes (says_started (suc k)) ∷ ts) none last o d t a = rw a (
      then_hear (some (suc k)) (suc k) (speaking_started speaker none last (suc k)) ts d
        (started-Agrees speaker k last d t.0)
        λ o' d' a'. hear-Settles ts (some (suc k)) (suc k) o' d' t.1 a')
  hear-Settles (takes (says_started zero) ∷ ts) none last o d t a = ground (arith, t)
  hear-Settles (takes (says_stopped (suc k)) ∷ ts) (some e) last o d t a =
      then_hear none last (speaking_stopped speaker o last (suc k)) ts d
        (stopped-Agrees speaker (suc k) last o d (rw t.0 a))
        λ o' d' a'. hear-Settles ts none last o' d' t.1 a'
  hear-Settles (takes (says_stopped zero) ∷ ts) (some e) last o d t a = ground (arith, t, a)
  hear-Settles (takes (says_started n) ∷ ts) (some e) last o d t a = elim t [ ]
  hear-Settles (takes (says_stopped n) ∷ ts) none last o d t a = elim t [ ]
  hear-Settles (takes (says_audio bytes) ∷ ts) none last o d t a = elim t [ ]

-- In every run of the gate from its start, a device that takes its messages in order, with flushes of
-- its own anywhere between them, never ends the session with an error of the protocol: what is raised
-- is a fault of the player or a refusal of the volume guard. If the session goes on, its last epoch is
-- the one that was last announced, and it plays the epoch that is announced as on, or has flushed it,
-- and none if none is.
pub run-hear-Settles :
    (speaker : Speaker) (managed : Bool) (es : List Event) (ts : List Turn) (d : Desk)
    → messages ts ≡ (run es (new_gate managed)).0
    → Settles (told (run es (new_gate managed)).1) (hear speaker ts none 0 d)
run-hear-Settles speaker managed es ts d h =
    hear-Settles speaker (told (run es (new_gate managed)).1) ts none 0 none d
      (rw h (run-new_gate-Talks managed es)) refl
