-- ===== src/Examples/Output.antt =====
-- Tests of the output gate, and its theorems at concrete inputs.
use ha_codex_voice.Prelude.{ℕ, ◌+◌, ◌*◌, ◌≡◌, refl, true, none, some, List, [], ◌∷◌}
use ha_codex_voice.Device.Session.Messages.{Desk, Speaker}
use ha_codex_voice.Bridge.Output.Gate.{
  Gate, Sent, says_started, says_stopped, says_audio, says_speech, Event, receives, authorizes,
  speaks, proceeds, admits, arms, ends, advances, new_gate, run, step, proceed, pcm_has_signal,
  arm_output, end_output, receive_audio, admit_audio, quarantine_output, prune_output_preroll,
  prune_loop, shed_loop, begin_output, open_output, send_audio, authorize_output, begin_generation,
  invalidate_output,
}
use ha_codex_voice.Bridge.Output.Preroll.{IsValid, run-new_gate-IsValid}
use ha_codex_voice.Bridge.Output.Talk.{told}
use ha_codex_voice.Bridge.Output.Device.{Turn, takes, flushes, hear, Settles, run-hear-Settles}
use ha_codex_voice.Bridge.Output.Tail.{sleeps, closes, tail_pass, wait_tail, await_tail}
use ha_codex_voice.Pcm.{samples_of}
use ha_codex_voice.Examples.Device.{capturing, playing, leaving_child}

abbrev speaker : Speaker
speaker = record { child = leaving_child; volume_ok = λ _. true }

abbrev desk : Desk
desk = record { session = capturing; player = playing }

abbrev loud : List ℕ
loud = 0 ∷ 4 ∷ []

abbrev silence : List ℕ
silence = 1 ∷ 0 ∷ []

-- The bridge manages the output: an answer is authorized, its first sound opens the epoch, the user
-- interrupts, and sound of the retired generation is dropped.
abbrev answered : List Event
answered =
    authorizes 0
    ∷ arms (some 0)
    ∷ receives silence
    ∷ admits 10
    ∷ receives loud
    ∷ admits 20
    ∷ proceeds 20
    ∷ proceeds 21
    ∷ proceeds 22
    ∷ speaks
    ∷ receives loud
    ∷ advances
    ∷ admits 30
    ∷ receives loud
    ∷ ends (some 1)
    ∷ proceeds 40
    ∷ []

abbrev answered_sent : List Sent
answered_sent = says_started 1 ∷ says_audio loud ∷ says_speech ∷ says_stopped 1 ∷ []

answered_sends : (run answered (new_gate true)).0 ≡ answered_sent
unfolding run step new_gate authorize_output arm_output receive_audio admit_audio quarantine_output
    prune_output_preroll prune_loop shed_loop pcm_has_signal samples_of begin_output proceed
    open_output send_audio begin_generation invalidate_output end_output
answered_sends = refl

run-new_gate-IsValid_example : IsValid (run answered (new_gate true)).1
run-new_gate-IsValid_example = run-new_gate-IsValid true answered

-- The device flushes on its own after the first sound.
abbrev flushed : List Turn
flushed =
    takes (says_started 1)
    ∷ takes (says_audio loud)
    ∷ flushes (some 1)
    ∷ takes says_speech
    ∷ takes (says_stopped 1)
    ∷ []

run-hear-Settles_example :
    Settles (told (run answered (new_gate true)).1) (hear speaker flushed none 0 desk)
unfolding run step new_gate authorize_output arm_output receive_audio admit_audio quarantine_output
    prune_output_preroll prune_loop shed_loop pcm_has_signal samples_of begin_output proceed
    open_output send_audio begin_generation invalidate_output end_output
run-hear-Settles_example = run-hear-Settles speaker true answered flushed desk refl

-- The output goes on for 50 ms after the terminal event and is quiet then.
abbrev ticking : ℕ → ℕ
ticking k = 1000 + 200 * k

abbrev speaking_gate : Gate
speaking_gate = record (new_gate true) { speaking = true; epoch = 4; last_pcm_at = some 1050 }

tail_sleeps : tail_pass 1000 4 1100 speaking_gate ≡ sleeps 70
unfolding tail_pass new_gate
tail_sleeps = refl

tail_is_over : await_tail 1000 ticking (λ _. speaking_gate) true 5 ≡ some (closes (some 4))
unfolding await_tail wait_tail tail_pass new_gate
tail_is_over = refl
