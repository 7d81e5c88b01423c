-- ===== src/Bridge/Output/Talk.antt =====
-- About what the output gate of bridge/service.py sends: the order of its messages.
use ha_codex_voice.Prelude.{
  if_elim, ℕ, ◌+◌, ◌-◌, ◌<◌, ◌≡◌, refl, Bool, true, false, not, ◌&&◌, ◌||◌, Option, none, some,
  is_some, List, [], ◌∷◌, ◌++◌, is_empty, ◌==◌, if◌then◌else◌, arith, sym, ◌∙◌, ◌⊎◌, inl, inr,
  subst,
}
use ha_codex_voice.Bridge.Output.Gate.{
  Sent, says_started, says_stopped, says_audio, says_speech, Holder, free, stopping, starting,
  opening, delivering, streaming, Gate, new_gate, pcm_has_signal, is_authorized, is_generation,
  is_epoch, is_free, prune_output_preroll, quarantine_output, begin_output, open_output, send_audio,
  proceed, arm_output, expire_arm, end_output, receive_audio, begin_if_quarantined, admit,
  admit_audio, authorize_output, invalidate_output, begin_generation, Event, receives, authorizes,
  invalidates, advances, stops, speaks, proceeds, admits, arms, ends, expires, step, run,
}

-- The protocol of the speaking epochs: with the epoch that is on, if one is, and the last one, up to what
-- these are in the end.
abbrev pub Talks : Option ℕ × ℕ → Option ℕ → ℕ → List Sent → Type 0
Talks ending current last [] = (current ≡ ending.0) × (last ≡ ending.1)
Talks ending current last (says_speech ∷ ms) = Talks ending current last ms
Talks ending none last (says_started e ∷ ms) = (last < e) × Talks ending (some e) e ms
Talks ending none last (says_stopped e ∷ ms) = ⊥
Talks ending none last (says_audio bytes ∷ ms) = ⊥
Talks ending (some c) last (says_started e ∷ ms) = ⊥
Talks ending (some c) last (says_stopped e ∷ ms) = (e ≡ c) × Talks ending none last ms
Talks ending (some c) last (says_audio bytes ∷ ms) = Talks ending (some c) last ms

-- The epoch that the device was told of.
abbrev pub announced : Holder → Bool → ℕ → Option ℕ
announced free speaking epoch = if speaking then some epoch else none
announced (starting _) speaking epoch = none
announced _ speaking epoch = some epoch

abbrev pub last_of : Holder → ℕ → ℕ
last_of (starting _) epoch = epoch - 1
last_of _ epoch = epoch

abbrev pub current : Gate → Option ℕ
current g = announced g.holder g.speaking g.epoch

abbrev pub last : Gate → ℕ
last g = last_of g.holder g.epoch

abbrev FitsAt : Holder → Bool → ℕ → Type 0
FitsAt free speaking epoch = Unit
FitsAt stopping speaking epoch = speaking ≡ false
FitsAt (starting _) speaking epoch = (speaking ≡ true) × (0 < epoch)
FitsAt _ speaking epoch = speaking ≡ true

abbrev Fits : Gate → Type 0
Fits g = FitsAt g.holder g.speaking g.epoch

-- A section that sends nothing, as the device sees it.
record IsSilent (g g' : Gate) : Type 0 where
  fits : Fits g'
  same_current : current g' ≡ current g
  same_last : last g' ≡ last g

still :
    (g g' : Gate)
    → g'.holder ≡ g.holder
    → g'.speaking ≡ g.speaking
    → g'.epoch ≡ g.epoch
    → Fits g
    → IsSilent g g'
still g g' h s e fits = record {
  fits = rw (h, s, e) fits;
  same_current = rw (h, s, e) refl;
  same_last = rw (h, e) refl;
}

free_lem : (holder : Holder) → is_free holder ≡ true → holder ≡ free
free_lem free f = refl
free_lem stopping f = ground (arith, f)
free_lem (starting _) f = ground (arith, f)
free_lem (opening _) f = ground (arith, f)
free_lem (delivering _ _) f = ground (arith, f)
free_lem (streaming _ _) f = ground (arith, f)

-- A gate with the lock free and the output on, that stops or streams.
goes_on :
    (g g' : Gate)
    → g.holder ≡ free
    → g.speaking ≡ true
    → g'.epoch ≡ g.epoch
    → ((g'.holder ≡ stopping) × (g'.speaking ≡ false))
      ⊎ ((e : Option ℕ) × ((c : List ℕ) × ((g'.holder ≡ streaming e c) × (g'.speaking ≡ true))))
    → IsSilent g g'
goes_on g g' f s e (inl (h, s')) = record {
  fits = rw (h, s') refl;
  same_current = rw (h, f, s, e) refl;
  same_last = rw (h, f, e) refl;
}
goes_on g g' f s e (inr (x, (c, (h, s')))) = record {
  fits = rw (h, s') refl;
  same_current = rw (h, f, s, e) refl;
  same_last = rw (h, f, e) refl;
}

begin-IsSilent :
    (expected : Option ℕ) (g : Gate) → g.holder ≡ free → IsSilent g (begin_output expected g)
unfolding begin_output
begin-IsSilent expected g f =
    if_elim (IsSilent g) (g.speaking || g.is_stopped) _ _ (λ _. still g g refl refl refl (rw f tt))
      λ quiet. record {
        fits = (refl, omega arith);
        same_current = rw (f, silent g.speaking g.is_stopped quiet) refl;
        same_last = rw f (omega arith);
      }
  where
    silent : (s t : Bool) → s || t ≡ false → s ≡ false
    silent s t p = ground (arith, p)

then_silent : (a b c : Gate) → IsSilent a b → IsSilent b c → IsSilent a c
then_silent a b c x y = record {
  fits = y.fits;
  same_current = y.same_current ∙ x.same_current;
  same_last = y.same_last ∙ x.same_last;
}

arm-IsSilent :
    (expected : Option ℕ) (g : Gate) → g.holder ≡ free → IsSilent g (arm_output expected g)
unfolding arm_output
arm-IsSilent expected g f =
    if_elim (IsSilent g) (not (is_authorized expected g) || (g.speaking || g.is_stopped) || g.armed)
      _ _ (λ _. still g g refl refl refl (rw f tt))
      λ _.
        if_elim (IsSilent g) (not (is_empty g.preroll)) _ _
          (λ _.
            then_silent g armed _ (still g armed refl refl refl (rw f tt))
              (begin-IsSilent expected armed f))
          λ _. still g _ refl refl refl (rw f tt)
  where
    armed : Gate
    armed = record g { armed = true; arm_generation = g.arm_generation + 1 }

expire-IsSilent : (timer : Option ℕ) (g : Gate) → g.holder ≡ free → IsSilent g (expire_arm timer g)
unfolding expire_arm
expire-IsSilent none g f = still g g refl refl refl (rw f tt)
expire-IsSilent (some generation) g f =
    if_elim (IsSilent g) (not (g.arm_generation == generation) || g.speaking) _ _
      (λ _. still g _ refl refl refl (rw f tt)) λ _. still g _ refl refl refl (rw f tt)

end-IsSilent :
    (expected : Option ℕ) (g : Gate) → g.holder ≡ free → IsSilent g (end_output expected g)
unfolding end_output
end-IsSilent expected g f =
    if_elim (IsSilent g) (not g.speaking || not (is_epoch expected g.epoch)) _ _
      (λ _. still g _ refl refl refl (rw f tt))
      λ on. goes_on g _ f (on_of g.speaking (is_epoch expected g.epoch) on) refl (inl (refl, refl))
  where
    on_of : (s e : Bool) → not s || not e ≡ false → s ≡ true
    on_of s e p = ground (arith, p)

quarantine-IsSilent :
    (now : ℕ) (chunk : List ℕ) (g : Gate)
    → g.holder ≡ free
    → IsSilent g (quarantine_output now chunk g) × ((quarantine_output now chunk g).holder ≡ free)
unfolding quarantine_output prune_output_preroll
quarantine-IsSilent now chunk g f =
    if_elim (λ g'. IsSilent g g' × (g'.holder ≡ free)) (not g.armed || not (pcm_has_signal chunk)) _
      _ (λ _. (still g g refl refl refl (rw f tt), f)) λ _. (still g _ refl refl refl (rw f tt), f)

admit-IsSilent :
    (expected : Option ℕ) (chunk : List ℕ) (now : ℕ) (g : Gate)
    → g.holder ≡ free
    → IsSilent g (admit expected chunk now g)
admit-IsSilent expected chunk now g f =
    if_elim (IsSilent g) (g.managed && not (is_some expected && is_authorized expected g)) _ _
      (λ _. still g g refl refl refl (rw f tt))
      λ _.
        if_elim (IsSilent g) g.speaking _ _
          (λ s. goes_on g _ f s refl (inr (expected, (chunk, (refl, s)))))
          λ _. then_silent g q _ quiet.0 (opened q quiet.1)
  where
    q : Gate
    q = quarantine_output now chunk g

    quiet : IsSilent g q × (q.holder ≡ free)
    quiet = quarantine-IsSilent now chunk g f

    opened : (g : Gate) → g.holder ≡ free → IsSilent g (begin_if_quarantined expected g)
    opened g f =
        if_elim (IsSilent g) (g.armed && not (is_empty g.preroll)) _ _
          (λ _. begin-IsSilent expected g f) λ _. still g g refl refl refl (rw f tt)

admit_audio-IsSilent :
    (heard : Option (Option ℕ × List ℕ)) (now : ℕ) (g : Gate)
    → g.holder ≡ free
    → IsSilent g (admit_audio heard now g)
unfolding admit_audio
admit_audio-IsSilent none now g f = still g g refl refl refl (rw f tt)
admit_audio-IsSilent (some (expected, chunk)) now g f =
    then_silent g (record g { heard = none }) _ (still g _ refl refl refl (rw f tt))
      (admit-IsSilent expected chunk now (record g { heard = none }) f)

-- A stretch that sends `out` keeps to the protocol, whatever follows.
record Keeps (g : Gate) (out : List Sent) (g' : Gate) : Type 0 where
  fits : Fits g'
  talks :
      (ending : Option ℕ × ℕ) (later : List Sent)
      → Talks ending (current g') (last g') later
      → Talks ending (current g) (last g) (out ++ later)

silently : (g g' : Gate) → IsSilent g g' → Keeps g [] g'
silently g g' s = record {
  fits = s.fits;
  talks = λ ending later t. rw (sym s.same_current, sym s.same_last) t;
}

open-Keeps :
    (expected : Option ℕ) (now : ℕ) (g : Gate)
    → g.holder ≡ opening expected
    → Fits g
    → Keeps g [] (open_output expected now g)
unfolding open_output prune_output_preroll
open-Keeps expected now g p fits =
    if_elim (Keeps g []) (not (is_authorized expected g)) _ _
      (λ _. silently g _ (released _ refl refl refl))
      λ _.
        let q = prune_output_preroll now g in
        if_elim (Keeps g []) (is_empty q.preroll) _ _
          (λ _. silently g _ (released _ refl refl refl))
          λ _. silently g _ record { fits = on; same_current = rw p refl; same_last = rw p refl }
  where
    on : g.speaking ≡ true
    on = subst (λ h. FitsAt h g.speaking g.epoch) p fits

    released :
        (g' : Gate)
        → g'.holder ≡ free
        → g'.speaking ≡ g.speaking
        → g'.epoch ≡ g.epoch
        → IsSilent g g'
    released g' h s e = record {
      fits = rw h tt;
      same_current = rw (h, s, on, e, p) refl;
      same_last = rw (h, e, p) refl;
    }

-- The epoch is on, the lock is let go, and audio was sent or was not.
audio-Keeps :
    (expected : Option ℕ) (bytes : List ℕ) (g g' : Gate)
    → current g ≡ some g.epoch
    → last g ≡ g.epoch
    → g'.holder ≡ free
    → g'.speaking ≡ true
    → g'.epoch ≡ g.epoch
    → Keeps g (send_audio expected bytes g) g'
unfolding send_audio
audio-Keeps expected bytes g g' c l h s e =
    if_elim (λ out. Keeps g out g') (is_authorized expected g) _ _
      (λ _. record { fits = rw h tt; talks = λ ending later t. rw (c, l) (onwards ending later t) })
      λ _. record { fits = rw h tt; talks = λ ending later t. rw (c, l) (onwards ending later t) }
  where
    onwards :
        (ending : Option ℕ × ℕ) (later : List Sent)
        → Talks ending (current g') (last g') later
        → Talks ending (some g.epoch) g.epoch later
    onwards ending later t = rw (h, s, e) at t

proceed-Keeps :
    (holder : Holder) (now : ℕ) (g : Gate)
    → g.holder ≡ holder
    → Fits g
    → Keeps g (proceed holder now g).0 (proceed holder now g).1
unfolding proceed
proceed-Keeps free now g p fits = silently g g (still g g refl refl refl fits)
proceed-Keeps (starting expected) now g p fits =
    let on = subst (λ h. FitsAt h g.speaking g.epoch) p fits in
    record { fits = on.0; talks = λ ending later t. rw p (omega (arith, on.1), t) }
proceed-Keeps (opening expected) now g p fits = open-Keeps expected now g p fits
proceed-Keeps (delivering expected bytes) now g p fits =
    audio-Keeps expected bytes g _ (rw p refl) (rw p refl) refl
      (subst (λ h. FitsAt h g.speaking g.epoch) p fits) refl
proceed-Keeps (streaming expected chunk) now g p fits =
    audio-Keeps expected chunk g _ (rw p refl) (rw p refl) refl
      (subst (λ h. FitsAt h g.speaking g.epoch) p fits) refl
proceed-Keeps stopping now g p fits = record {
  fits = tt;
  talks = λ ending later t. rw p (refl, ended ending later t);
}
  where
    off : g.speaking ≡ false
    off = subst (λ h. FitsAt h g.speaking g.epoch) p fits

    ended :
        (ending : Option ℕ × ℕ) (later : List Sent)
        → Talks ending (if g.speaking then some g.epoch else none) g.epoch later
        → Talks ending none g.epoch later
    ended ending later t =
        subst (λ s. Talks ending (if s then some g.epoch else none) g.epoch later) off t

locked-Keeps :
    (section : Gate → Gate) (g : Gate)
    → (g.holder ≡ free → IsSilent g (section g))
    → Fits g
    → Keeps g [] (if is_free g.holder then section g else g)
locked-Keeps section g silent fits =
    if_elim (Keeps g []) (is_free g.holder) _ _ (λ f. silently g _ (silent (free_lem g.holder f)))
      λ _. silently g g (still g g refl refl refl fits)

step-Keeps : (e : Event) (g : Gate) → Fits g → Keeps g (step e g).0 (step e g).1
unfolding step receive_audio authorize_output invalidate_output begin_generation
step-Keeps (receives chunk) g fits =
    if_elim (Keeps g []) (is_some g.heard) _ _ (λ _. silently g g (still g g refl refl refl fits))
      λ _.
        if_elim (Keeps g []) (not g.managed) _ _ (λ _. silently g _ (still g _ refl refl refl fits))
          λ _.
            if_elim (Keeps g []) (is_generation g.background_generation g.output_generation) _ _
              (λ _. silently g _ (still g _ refl refl refl fits))
              λ _. silently g g (still g g refl refl refl fits)
step-Keeps (authorizes generation) g fits =
    if_elim (Keeps g []) (not (generation == g.background_generation)) _ _
      (λ _. silently g g (still g g refl refl refl fits))
      λ _. silently g _ (still g _ refl refl refl fits)
step-Keeps invalidates g fits = silently g _ (still g _ refl refl refl fits)
step-Keeps advances g fits = silently g _ (still g _ refl refl refl fits)
step-Keeps stops g fits = silently g _ (still g _ refl refl refl fits)
step-Keeps speaks g fits = record { fits = fits; talks = λ ending later t. t }
step-Keeps (proceeds now) g fits = proceed-Keeps g.holder now g refl fits
step-Keeps (admits now) g fits =
    locked-Keeps (admit_audio g.heard now) g (admit_audio-IsSilent g.heard now g) fits
step-Keeps (arms expected) g fits =
    locked-Keeps (arm_output expected) g (arm-IsSilent expected g) fits
step-Keeps (ends expected) g fits =
    locked-Keeps (end_output expected) g (end-IsSilent expected g) fits
step-Keeps expires g fits =
    locked-Keeps (expire_arm g.arm_task) g (expire-IsSilent g.arm_task g) fits

abbrev pub told : Gate → Option ℕ × ℕ
told g = (current g, last g)

run-Talks :
    (es : List Event) (g : Gate)
    → Fits g
    → Talks (told (run es g).1) (current g) (last g) (run es g).0
unfolding run
run-Talks [] g fits = (refl, refl)
run-Talks (e ∷ es) g fits =
    let kept = step-Keeps e g fits in
    kept.talks _ (run es (step e g).1).0 (run-Talks es (step e g).1 kept.fits)

pub run-new_gate-Talks :
    (managed : Bool) (es : List Event)
    → let (out, g) = run es (new_gate managed) in Talks (told g) none 0 out
unfolding new_gate
run-new_gate-Talks managed es = run-Talks es (new_gate managed) tt
