-- ===== src/Bridge/Output/Tail.antt =====
-- `end_output` of bridge/service.py up to its last section: the wait for the tail of the output. Of
-- the clock and of the other tasks enters what each section finds: the time and the gate.
use ha_codex_voice.Prelude.{
  ℕ, zero, suc, ◌+◌, ◌-◌, ◌≤◌, max, min, ◌≡◌, Bool, true, false, not, ◌||◌, Option, none, some, leb,
  ◌==◌, if◌then◌else◌, ◌⊎◌,
}
use ha_codex_voice.Bridge.Output.Gate.{Gate}

abbrev pub output_tail : ℕ
output_tail = 120

abbrev pub output_tail_hard_cap : ℕ
output_tail_hard_cap = 1000

-- `output_last_pcm_at if output_last_pcm_at is not None else terminal_at`
abbrev pub or_terminal : Option ℕ → ℕ → ℕ
or_terminal none terminal_at = terminal_at
or_terminal (some t) terminal_at = t

abbrev pub last_activity : ℕ → Gate → ℕ
last_activity terminal_at g = max terminal_at (or_terminal g.last_pcm_at terminal_at)

-- One pass of the loop: it returns from `end_output`, leaves the loop, or sleeps.
pub data Pass : Type 0 where
  gone over : Pass
  sleeps : ℕ → Pass

-- What `end_output` comes to: it returns early, or it goes on to its last section with the expected
-- epoch.
pub data Ended : Type 0 where
  returns : Ended
  closes : Option ℕ → Ended

module _ (terminal_at : ℕ) where
  unfoldable pub tail_pass : ℕ → ℕ → Gate → Pass
  tail_pass expected now g =
      if not g.speaking || (not (g.epoch == expected) || g.is_stopped)
      then gone
      else if leb (last_activity terminal_at g + output_tail) now
          || leb (terminal_at + output_tail_hard_cap) now
      then over
      else sleeps (
          min (last_activity terminal_at g + output_tail - now)
            (terminal_at + output_tail_hard_cap - now))

  module _ (time : ℕ → ℕ) (seen : ℕ → Gate) where
    abbrev pub after_pass : Pass → ℕ → Option Ended → Option Ended
    after_pass gone expected rest = some returns
    after_pass over expected rest = some (closes (some expected))
    after_pass (sleeps _) expected rest = rest

    -- The loop from its n-th section on; `none` is out of fuel.
    unfoldable pub wait_tail : ℕ → ℕ → ℕ → Option Ended
    wait_tail zero expected n = none
    wait_tail (suc fuel) expected n =
        let rest = wait_tail fuel expected (n + 1) in
        after_pass (tail_pass expected (time n) (seen n)) expected rest

    abbrev pub tail_if_speaking : ℕ → ℕ → Option Ended
    tail_if_speaking fuel n =
        if (seen n).speaking then wait_tail fuel (seen n).epoch (n + 1) else some (closes none)

    -- An arm without media is given one tail's time.
    unfoldable pub await_tail : Bool → ℕ → Option Ended
    await_tail after_tail fuel =
        if not after_tail
        then some (closes none)
        else if (seen 0).speaking
        then wait_tail fuel (seen 0).epoch 1
        else if (seen 0).armed
        then tail_if_speaking fuel 1
        else some (closes none)

    -- Neither the terminal event nor the last PCM, if there was any, is less than 120 ms ago.
    abbrev pub HasBeenQuiet : ℕ → Type 0
    HasBeenQuiet n =
        (terminal_at + 120 ≤ time n)
        × ((heard : ℕ) → (seen n).last_pcm_at ≡ some heard → heard + 120 ≤ time n)

    -- The epoch is still on, and it has been quiet for 120 ms or ends for a second.
    pub record IsOver (expected n : ℕ) : Type 0 where
      pub on : (seen n).speaking ≡ true
      pub same : (seen n).epoch ≡ expected
      pub due : HasBeenQuiet n ⊎ (terminal_at + 1000 ≤ time n)

    abbrev pub IsGone : ℕ → ℕ → Type 0
    IsGone expected n =
        not (seen n).speaking || (not ((seen n).epoch == expected) || (seen n).is_stopped) ≡ true

    -- The epoch whose tail is waited for: the one that is on at once, or, with an arm pending, at the
    -- second section.
    abbrev pub IsWaited : ℕ → Type 0
    IsWaited e =
        (((seen 0).speaking ≡ true) × (e ≡ (seen 0).epoch))
        ⊎ (((seen 0).speaking ≡ false)
            × (((seen 0).armed ≡ true) × (((seen 1).speaking ≡ true) × (e ≡ (seen 1).epoch))))

    -- There is no output to wait for: none is on, and no arm is pending, or it brings none.
    abbrev pub IsQuiet : Type 0
    IsQuiet = ((seen 0).speaking ≡ false) × (((seen 0).armed ≡ false) ⊎ ((seen 1).speaking ≡ false))

    -- A sleep lasts at least as long as the pass asks for.
    abbrev pub Slept : Pass → ℕ → Type 0
    Slept (sleeps d) n = time n + d ≤ time (n + 1)
    Slept _ n = Unit

    -- Why `end_output` comes to what it does.
    abbrev pub IsJust : Bool → Ended → Type 0
    IsJust after_tail returns = (e : ℕ) × (IsWaited e × ((n : ℕ) × IsGone e n))
    IsJust after_tail (closes none) = (after_tail ≡ false) ⊎ IsQuiet
    IsJust after_tail (closes (some e)) = IsWaited e × ((n : ℕ) × IsOver e n)

    abbrev pub Ends : Bool → Option Ended → Type 0
    Ends after_tail o = (r : Ended) × ((o ≡ some r) × IsJust after_tail r)
