-- ===== src/Bridge/Output/Preroll.antt =====
-- About the preroll of the output gate of bridge/service.py: what is held back, and how much.
use ha_codex_voice.Prelude.{
  if_elim, ℕ, ◌+◌, ◌-◌, ◌≤◌, ◌≡◌, refl, Bool, true, false, not, ◌&&◌, ◌||◌, Option, none, some,
  is_some, List, [], ◌∷◌, ◌++◌, is_empty, ltb, ◌==◌, length, length-append, All, All-append,
  if◌then◌else◌, arith, ap, sym, ◌∙◌, append_assoc,
}
use ha_codex_voice.Bridge.Output.Gate.{
  Entry, Holder, free, stopping, starting, opening, delivering, streaming, Gate, new_gate,
  pcm_has_signal, is_authorized, is_generation, is_epoch, is_free, prune_loop, prune_output_preroll,
  shed_loop, quarantine_output, begin_output, joined, deliver_preroll, open_output, proceed,
  arm_output, expire_arm, end_output, receive_audio, begin_if_quarantined, admit, admit_audio,
  authorize_output, invalidate_output, begin_generation, output_preroll_max_bytes,
  output_preroll_ttl, Event, receives, authorizes, invalidates, advances, stops, speaks, proceeds,
  admits, arms, ends, expires, step, run,
}

-- An entry of the current arm that is not silence.
pub record IsCurrent (generation : ℕ) (e : Entry) : Type 0 where
  pub bound : e.generation ≡ generation
  pub signal : pcm_has_signal e.chunk ≡ true

-- The bytes are counted exactly, and every entry is of the current arm.
pub record Counts (generation : ℕ) (entries : List Entry) (bytes : ℕ) : Type 0 where
  pub exact : bytes ≡ length (joined entries)
  pub current : All (IsCurrent generation) entries

prune-Counts :
    (g generation now : ℕ) (es : List Entry) (bytes : ℕ)
    → Counts g es bytes
    → Counts g (prune_loop generation now es bytes).0 (prune_loop generation now es bytes).1
unfolding prune_loop
prune-Counts g generation now [] bytes h = h
prune-Counts g generation now (e ∷ es) bytes h =
    if_elim (λ (p : List Entry × ℕ). Counts g p.0 p.1)
      (not (e.generation == generation) || ltb (e.time + output_preroll_ttl) now) _ _
      (λ _. prune-Counts g generation now es (bytes - length e.chunk) record {
        exact = omega (arith, h.exact, length-append e.chunk (joined es));
        current = h.current.1;
      })
      λ _. h

prune_le :
    (generation now : ℕ) (es : List Entry) (bytes : ℕ)
    → (prune_loop generation now es bytes).1 ≤ bytes
unfolding prune_loop
prune_le generation now [] bytes = omega arith
prune_le generation now (e ∷ es) bytes =
    if_elim (λ (p : List Entry × ℕ). p.1 ≤ bytes)
      (not (e.generation == generation) || ltb (e.time + output_preroll_ttl) now) _ _
      (λ _. omega (arith, prune_le generation now es (bytes - length e.chunk))) λ _. omega arith

shed-Counts :
    (g : ℕ) (es : List Entry) (bytes : ℕ)
    → Counts g es bytes
    → Counts g (shed_loop es bytes).0 (shed_loop es bytes).1
      × ((shed_loop es bytes).1 ≤ output_preroll_max_bytes)
unfolding shed_loop
shed-Counts g [] bytes h = (h, omega (arith, h.exact))
shed-Counts g (e ∷ es) bytes h =
    if_elim (λ (p : List Entry × ℕ). Counts g p.0 p.1 × (p.1 ≤ output_preroll_max_bytes))
      (ltb output_preroll_max_bytes bytes) _ _
      (λ _. shed-Counts g es (bytes - length e.chunk) record {
        exact = omega (arith, h.exact, length-append e.chunk (joined es));
        current = h.current.1;
      })
      λ b. (h, ground (arith, b))

joined-append : (a b : List Entry) → joined (a ++ b) ≡ joined a ++ joined b
joined-append [] b = refl
joined-append (e ∷ a) b =
    ap (λ l. e.chunk ++ l) (joined-append a b) ∙ sym (append_assoc e.chunk (joined a) (joined b))

append-Counts :
    (g now : ℕ) (chunk : List ℕ) (es : List Entry) (bytes : ℕ)
    → pcm_has_signal chunk ≡ true
    → Counts g es bytes
    → Counts g
        (es ++ (record { generation = g; time = now; chunk = chunk } ∷ []))
        (bytes + length chunk)
append-Counts g now chunk es bytes s h = record {
  exact = omega (
    arith,
    h.exact,
    ap length (joined-append es (record { generation = g; time = now; chunk = chunk } ∷ [])),
    length-append (joined es) (chunk ++ []),
    length-append chunk [],
  );
  current = All-append (IsCurrent g) es _ h.current (record { bound = refl; signal = s }, tt);
}

-- The preroll is on its way to the device.
abbrev pub is_handing_over : Holder → Bool
is_handing_over (starting _) = true
is_handing_over (opening _) = true
is_handing_over (delivering _ _) = true
is_handing_over _ = false

pub record IsValid (g : Gate) : Type 0 where
  pub counts : Counts g.arm_generation g.preroll g.preroll_bytes
  pub within : g.preroll_bytes ≤ output_preroll_max_bytes
  -- an arm is over when the output begins
  pub exclusive : g.armed ≡ true → g.speaking ≡ false
  -- nothing is kept without an arm
  pub pending : g.armed || is_handing_over g.holder ≡ false → g.preroll ≡ []

-- The fields that the invariant reads are kept.
kept :
    (g g' : Gate)
    → g'.arm_generation ≡ g.arm_generation
    → g'.preroll ≡ g.preroll
    → g'.preroll_bytes ≡ g.preroll_bytes
    → g'.armed ≡ g.armed
    → g'.speaking ≡ g.speaking
    → is_handing_over g'.holder ≡ is_handing_over g.holder
    → IsValid g
    → IsValid g'
kept g g' a p b r s o h = record {
  counts = rw (a, p, b) h.counts;
  within = rw b h.within;
  exclusive = rw (r, s) h.exclusive;
  pending = rw (r, o, p) h.pending;
}

-- Without a preroll only the arm is left to see to.
emptied :
    (g : Gate)
    → g.preroll ≡ []
    → g.preroll_bytes ≡ 0
    → (g.armed ≡ true → g.speaking ≡ false)
    → IsValid g
emptied g p b x = record {
  counts = rw (p, b) (record { exact = refl; current = tt });
  within = omega (arith, b);
  exclusive = x;
  pending = λ _. p;
}

is_empty→nil : (es : List Entry) → is_empty es ≡ true → es ≡ []
is_empty→nil es h = ground (arith, h)

prune-IsValid : (now : ℕ) (g : Gate) → IsValid g → IsValid (prune_output_preroll now g)
unfolding prune_output_preroll prune_loop
prune-IsValid now g h = record {
  counts = prune-Counts g.arm_generation g.arm_generation now g.preroll g.preroll_bytes h.counts;
  within = omega (arith, h.within, prune_le g.arm_generation now g.preroll g.preroll_bytes);
  exclusive = h.exclusive;
  pending = λ p. rw (h.pending p) (pruned_nil g.arm_generation now g.preroll_bytes);
}
  where
    pruned_nil : (generation now bytes : ℕ) → (prune_loop generation now [] bytes).0 ≡ []
    pruned_nil generation now bytes = refl

quarantine-IsValid :
    (now : ℕ) (chunk : List ℕ) (g : Gate) → IsValid g → IsValid (quarantine_output now chunk g)
unfolding quarantine_output prune_output_preroll
quarantine-IsValid now chunk g h =
    if_elim IsValid (not g.armed || not (pcm_has_signal chunk)) _ _ (λ _. h)
      λ taken.
        let counted =
          append-Counts g.arm_generation now chunk (prune_output_preroll now g).preroll
            (prune_output_preroll now g).preroll_bytes
            (signal_of g.armed (pcm_has_signal chunk) taken) (prune-IsValid now g h).counts in
        let shedded = shed-Counts g.arm_generation _ _ counted in
        record {
          counts = shedded.0;
          within = shedded.1;
          exclusive = h.exclusive;
          pending = λ p. ground (arith, p, taken);
        }
  where
    signal_of : (a s : Bool) → not a || not s ≡ false → s ≡ true
    signal_of a s p = ground (arith, p)

begin-IsValid : (expected : Option ℕ) (g : Gate) → IsValid g → IsValid (begin_output expected g)
unfolding begin_output
begin-IsValid expected g h =
    if_elim IsValid (g.speaking || g.is_stopped) _ _ (λ _. h)
      λ _. record {
        counts = h.counts;
        within = h.within;
        exclusive = λ p. ground (arith, p);
        pending = λ p. ground (arith, p);
      }

open-IsValid :
    (expected : Option ℕ) (now : ℕ) (g : Gate) → IsValid g → IsValid (open_output expected now g)
unfolding open_output
open-IsValid expected now g h =
    if_elim IsValid (not (is_authorized expected g)) _ _ (λ _. emptied _ refl refl h.exclusive)
      λ _. delivered (prune_output_preroll now g) (prune-IsValid now g h)
  where
    delivered : (g : Gate) → IsValid g → IsValid (deliver_preroll expected g)
    delivered g h =
        if_elim IsValid (is_empty g.preroll) _ _
          (λ e. record {
            counts = h.counts;
            within = h.within;
            exclusive = h.exclusive;
            pending = λ _. is_empty→nil g.preroll e;
          })
          λ _. record {
            counts = h.counts;
            within = h.within;
            exclusive = h.exclusive;
            pending = λ p. ground (arith, p);
          }

proceed-IsValid :
    (holder : Holder) (now : ℕ) (g : Gate)
    → g.holder ≡ holder
    → IsValid g
    → IsValid (proceed holder now g).1
unfolding proceed
proceed-IsValid free now g p h = h
proceed-IsValid (starting expected) now g p h =
    kept g _ refl refl refl refl refl (sym (ap is_handing_over p)) h
proceed-IsValid (opening expected) now g p h = open-IsValid expected now g h
proceed-IsValid (delivering expected bytes) now g p h = emptied _ refl refl h.exclusive
proceed-IsValid (streaming expected chunk) now g p h =
    kept g _ refl refl refl refl refl (sym (ap is_handing_over p)) h
proceed-IsValid stopping now g p h =
    kept g _ refl refl refl refl refl (sym (ap is_handing_over p)) h

-- Without an arm and with the lock free nothing is held back.
free-nil : (g : Gate) → is_free g.holder ≡ true → g.armed ≡ false → IsValid g → g.preroll ≡ []
free-nil g f a h = h.pending (rw a (handing g.holder f))
  where
    handing : (holder : Holder) → is_free holder ≡ true → is_handing_over holder ≡ false
    handing free f = refl
    handing stopping f = refl
    handing (starting _) f = ground (arith, f)
    handing (opening _) f = ground (arith, f)
    handing (delivering _ _) f = ground (arith, f)
    handing (streaming _ _) f = refl

arm-IsValid :
    (expected : Option ℕ) (g : Gate)
    → is_free g.holder ≡ true
    → IsValid g
    → IsValid (arm_output expected g)
unfolding arm_output
arm-IsValid expected g f h =
    if_elim IsValid (not (is_authorized expected g) || (g.speaking || g.is_stopped) || g.armed) _ _
      (λ _. h)
      λ idle.
        let nil = free-nil g f (ground (arith, idle)) h in
        let zero_bytes = h.counts.exact ∙ ap (λ es. length (joined es)) nil in
        let quiet =
          quiet_of (not (is_authorized expected g)) g.speaking g.is_stopped g.armed idle in
        if_elim IsValid (not (is_empty g.preroll)) _ _
          (λ _. begin-IsValid expected _ (emptied _ nil zero_bytes λ _. quiet))
          λ _. emptied _ nil zero_bytes λ _. quiet
  where
    quiet_of : (a s t r : Bool) → a || (s || t) || r ≡ false → s ≡ false
    quiet_of a s t r p = ground (arith, p)

expire-IsValid : (timer : Option ℕ) (g : Gate) → IsValid g → IsValid (expire_arm timer g)
unfolding expire_arm
expire-IsValid none g h = h
expire-IsValid (some generation) g h =
    if_elim IsValid (not (g.arm_generation == generation) || g.speaking) _ _
      (λ _. kept g _ refl refl refl refl refl refl h)
      λ _. emptied _ refl refl λ p. ground (arith, p)

end-IsValid : (expected : Option ℕ) (g : Gate) → IsValid g → IsValid (end_output expected g)
unfolding end_output
end-IsValid expected g h =
    if_elim IsValid (not g.speaking || not (is_epoch expected g.epoch)) _ _
      (λ _. emptied _ refl refl λ p. ground (arith, p)) λ _. emptied _ refl refl λ p. refl

receive-IsValid : (chunk : List ℕ) (g : Gate) → IsValid g → IsValid (receive_audio chunk g)
unfolding receive_audio
receive-IsValid chunk g h =
    if_elim IsValid (not g.managed) _ _ (λ _. kept g _ refl refl refl refl refl refl h)
      λ _.
        if_elim IsValid (is_generation g.background_generation g.output_generation) _ _
          (λ _. kept g _ refl refl refl refl refl refl h) λ _. h

admit-IsValid :
    (heard : Option (Option ℕ × List ℕ)) (now : ℕ) (g : Gate)
    → is_free g.holder ≡ true
    → IsValid g
    → IsValid (admit_audio heard now g)
unfolding admit_audio
admit-IsValid none now g f h = h
admit-IsValid (some (expected, chunk)) now g f h =
    admitted (record g { heard = none }) f (kept g _ refl refl refl refl refl refl h)
  where
    unarmed_of : (a b : Bool) → (a ≡ true → b ≡ false) → b ≡ true → a ≡ false
    unarmed_of true b x s = ground (arith, x refl, s)
    unarmed_of false b x s = refl

    opened : (g : Gate) → IsValid g → IsValid (begin_if_quarantined expected g)
    opened g h =
        if_elim IsValid (g.armed && not (is_empty g.preroll)) _ _ (λ _. begin-IsValid expected g h)
          λ _. h

    streamed :
        (g : Gate)
        → is_free g.holder ≡ true
        → g.speaking ≡ true
        → IsValid g
        → IsValid (record g { last_pcm_at = some now; holder = streaming expected chunk })
    streamed g f s h =
        let unarmed = unarmed_of g.armed g.speaking h.exclusive s in
        record {
          counts = h.counts;
          within = h.within;
          exclusive = h.exclusive;
          pending = λ _. free-nil g f unarmed h;
        }

    admitted :
        (g : Gate) → is_free g.holder ≡ true → IsValid g → IsValid (admit expected chunk now g)
    admitted g f h =
        if_elim IsValid (g.managed && not (is_some expected && is_authorized expected g)) _ _
          (λ _. h)
          λ _.
            if_elim IsValid g.speaking _ _ (λ s. streamed g f s h)
              λ _. opened _ (quarantine-IsValid now chunk g h)

locked-IsValid :
    (section : Gate → Gate) (g : Gate)
    → (is_free g.holder ≡ true → IsValid g → IsValid (section g))
    → IsValid g
    → IsValid (if is_free g.holder then section g else g)
locked-IsValid section g keeps h = if_elim IsValid (is_free g.holder) _ _ (λ f. keeps f h) λ _. h

step-IsValid : (e : Event) (g : Gate) → IsValid g → IsValid (step e g).1
unfolding step authorize_output invalidate_output begin_generation
step-IsValid (receives chunk) g h =
    if_elim IsValid (is_some g.heard) _ _ (λ _. h) λ _. receive-IsValid chunk g h
step-IsValid (authorizes generation) g h =
    if_elim IsValid (not (generation == g.background_generation)) _ _ (λ _. h)
      λ _. kept g _ refl refl refl refl refl refl h
step-IsValid invalidates g h = kept g _ refl refl refl refl refl refl h
step-IsValid advances g h = kept g _ refl refl refl refl refl refl h
step-IsValid stops g h = kept g _ refl refl refl refl refl refl h
step-IsValid speaks g h = h
step-IsValid (proceeds now) g h = proceed-IsValid g.holder now g refl h
step-IsValid (admits now) g h =
    locked-IsValid (admit_audio g.heard now) g (admit-IsValid g.heard now g) h
step-IsValid (arms expected) g h = locked-IsValid (arm_output expected) g (arm-IsValid expected g) h
step-IsValid (ends expected) g h =
    locked-IsValid (end_output expected) g (λ _. end-IsValid expected g) h
step-IsValid expires g h =
    locked-IsValid (expire_arm g.arm_task) g (λ _. expire-IsValid g.arm_task g) h

keep-IsValid : (es : List Event) (g : Gate) → IsValid g → IsValid (run es g).1
unfolding run
keep-IsValid [] g h = h
keep-IsValid (e ∷ es) g h = keep-IsValid es (step e g).1 (step-IsValid e g h)

-- In every run of the gate from its start the preroll is at most 200 ms of audio (9600 bytes), its
-- bytes are counted exactly, it holds only chunks with signal of the current arm, no arm is pending
-- while the output is on, and the preroll is empty unless an arm is pending or it is being sent.
pub run-new_gate-IsValid :
    (managed : Bool) (es : List Event) → IsValid (run es (new_gate managed)).1
unfolding new_gate
run-new_gate-IsValid managed es = keep-IsValid es (new_gate managed) (emptied _ refl refl λ _. refl)
