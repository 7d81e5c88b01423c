-- ===== src/Device/Session/Playback.antt =====
-- About `_PcmPlayer` of session.py: its bound, its bytes and its child.
use ha_codex_voice.Prelude.{
  ℕ, ◌+◌, ◌≤◌, ◌≡◌, refl, Bool, true, false, Option, none, some, is_some, List, [], ◌∷◌, ◌++◌,
  length, take, drop, if◌then◌else◌, arith, length-append, length-drop, take-append-drop,
  append_assoc, ◌⊎◌, ap, ◌∙◌,
}
use ha_codex_voice.Prelude.Action.{Outcome, returned}
use ha_codex_voice.Prelude.Hoare.{Post, Meets, Meets-then}
use ha_codex_voice.Device.Session.Player.{
  Player, Paplay, PlayerError, Written, blocked, broken, wrote, active, abort, enqueue, after_write,
  close_if_drained, begin, reap_finished, write_pending, poll_and_reap, service_process, service,
  finish, player_write_bytes,
}

abbrev count_if : Bool → ℕ
count_if true = 1
count_if false = 0

-- The bytes queued since the child was started: those it took, then those still pending.
abbrev pub stream : Player → List ℕ
stream p = p.taken ++ p.pending

pub record IsOwned (p : Player) : Type 0 where
  pub bounded : length p.pending ≤ p.maximum_bytes
  -- every child but the current one was let go
  pub one_child : p.started ≡ p.reaped + count_if p.process
  pub epoch_process : is_some p.epoch ≡ p.process
  pub stdin_process : p.stdin ≡ true → p.process ≡ true

abbrev pub Keeps : ℕ → List ℕ → Player → Type 0
Keeps max bytes p = IsOwned p × (stream p ≡ bytes) × (p.maximum_bytes ≡ max)

abbrev Live : ℕ → List ℕ → Player → Type 0
Live max bytes p = Keeps max bytes p × (p.process ≡ true)

-- A method keeps the invariant and the stream, whether it returns or raises.
abbrev pub Serves : ℕ → List ℕ → (Player → Outcome PlayerError (Unit {0}) × Player) → Type 0
Serves max bytes m = Meets (Keeps max bytes) m (λ _. Keeps max bytes) (λ _. Keeps max bytes)

module _ (max : ℕ) (bytes : List ℕ) where
  -- moving a prefix of `pending` to `taken` leaves the stream as it was
  write-Live :
      (w : Written)
      → Meets (Live max bytes) (after_write w) (λ _. Live max bytes) (λ _. Keeps max bytes)
  write-Live blocked = record { at = λ p h. h }
  write-Live broken = record { at = λ p h. h.0 }
  write-Live (wrote n) = record {
    at = λ p (h, live). (
      (
        record {
          bounded = omega (arith, length-drop n p.pending, h.0.bounded);
          one_child = h.0.one_child;
          epoch_process = h.0.epoch_process;
          stdin_process = h.0.stdin_process;
        },
        append_assoc p.taken (take n p.pending) (drop n p.pending)
            ∙ ap (λ t. p.taken ++ t) (take-append-drop n p.pending)
            ∙ h.1,
        h.2,
      ),
      live,
    );
  }

  close-Live : (p : Player) → Live max bytes p → Live max bytes (close_if_drained p)
  unfolding close_if_drained
  close-Live p h = ground arith

  module _ (child : Paplay) where
    -- a call that only counts leaves all that matters
    counted : (p : Player) (n : ℕ) → Keeps max bytes p → Keeps max bytes (record p { calls = n })
    counted p n h = (
      record {
        bounded = h.0.bounded;
        one_child = h.0.one_child;
        epoch_process = h.0.epoch_process;
        stdin_process = h.0.stdin_process;
      },
      h.1,
      h.2,
    )

    reap-Keeps :
        (p : Player)
        → p.process ≡ true
        → Keeps max bytes p
        → Post (λ _. Keeps max bytes) (λ _. Keeps max bytes) (reap_finished child p)
    unfolding reap_finished
    reap-Keeps p e h = ground arith

    poll-Keeps :
        Meets (Live max bytes) (poll_and_reap child) (λ _. Keeps max bytes) (λ _. Keeps max bytes)
    poll-Keeps = record {
      at = λ p h. ground (
        arith,
        counted p (p.calls + 1) h.0,
        reap-Keeps (record p { calls = p.calls + 1 }) h.1 (counted p (p.calls + 1) h.0),
      );
    }

    write_pending-Live :
        Meets (Live max bytes) (write_pending child) (λ _. Live max bytes) (λ _. Keeps max bytes)
    write_pending-Live = record {
      at = λ p h. ground (
        arith,
        (write-Live (child.write p.calls (take player_write_bytes p.pending))).at
            (record p { calls = p.calls + 1 }) (counted p (p.calls + 1) h.0, h.1),
      );
    }

    close_step :
        Meets
          (Live max bytes)
          (λ s. (returned tt, close_if_drained s))
          (λ (_ : Unit {0}). Live max bytes)
          (λ (_ : PlayerError). Keeps max bytes)
    close_step = record { at = close-Live }

    service_process-Keeps :
        (p : Player)
        → Live max bytes p
        → Post (λ _. Keeps max bytes) (λ _. Keeps max bytes) (service_process child p)
    unfolding service_process
    service_process-Keeps p h =
        let q = record p { calls = p.calls + 1 } in
        let k = counted p (p.calls + 1) h.0 in
        ground (
          arith,
          k,
          reap-Keeps q h.1 k,
          (Meets-then _ _ _ write_pending-Live λ _. Meets-then _ _ _ close_step λ _. poll-Keeps).at
              q (k, h.1),
        )

    pub service-Serves : Serves max bytes (service child)
    unfolding service
    service-Serves = record { at = λ p h. go p h p.process refl }
      where
        go :
            (p : Player)
            → Keeps max bytes p
            → (live : Bool) → p.process ≡ live
            → Post
                (λ _. Keeps max bytes)
                (λ _. Keeps max bytes)
                (if live then service_process child p else (returned tt, p))
        go p h true e = service_process-Keeps p (h, e)
        go p h false e = h

    pub finish-Serves : (epoch : ℕ) → Serves max bytes (finish child epoch)
    unfolding finish
    finish-Serves epoch = record {
      at = λ p h.
          let q = record p { finish_when_drained = true } in
          ground (arith, service-Serves.at q (finishing p h));
    }
      where
        finishing :
            (p : Player)
            → Keeps max bytes p
            → Keeps max bytes (record p { finish_when_drained = true })
        finishing p h = ground (arith, h)

-- What a method leaves of a player: the invariant, the bytes in their places, the bound.
abbrev pub KeepsAll : Player → Player → Type 0
KeepsAll p q = IsOwned q × (stream q ≡ stream p) × (q.maximum_bytes ≡ p.maximum_bytes)

-- From a player that meets the invariant (the bound of the queue, at most one child that it has not
-- let go), `service` keeps it, and every byte in its place: what the child took and what is pending make
-- up the same stream as before. All this holds also when it raises.
pub service_lem :
    (child : Paplay) (p : Player)
    → IsOwned p
    → Post (λ _. KeepsAll p) (λ _. KeepsAll p) (service child p)
service_lem child p h = (service-Serves p.maximum_bytes (stream p) child).at p (h, refl, refl)

-- `finish` keeps the invariant and every byte in its place too, also when it raises.
pub finish_lem :
    (child : Paplay) (epoch : ℕ) (p : Player)
    → IsOwned p
    → Post (λ _. KeepsAll p) (λ _. KeepsAll p) (finish child epoch p)
finish_lem child epoch p h =
    (finish-Serves p.maximum_bytes (stream p) child epoch).at p (h, refl, refl)

-- From a player that meets the invariant, `enqueue` appends to the stream and keeps the invariant, or
-- raises and changes nothing.
pub enqueue_lem :
    (p : Player) (value : List ℕ)
    → IsOwned p
    → Post (λ _ q. IsOwned q × (stream q ≡ stream p ++ value)) (λ _ q. q ≡ p) (enqueue value p)
unfolding enqueue
enqueue_lem p value h =
    ground (arith, length-append p.pending value, append_assoc p.taken p.pending value)

-- From a player that meets the invariant, `begin` keeps it: a new child starts with an empty stream
-- and the given epoch; a failed start leaves no child and nothing pending.
pub begin_lem :
    (child : Paplay) (p : Player) (epoch : ℕ)
    → IsOwned p
    → Post
        (λ _ q. IsOwned q × (stream q ≡ []) × (q.epoch ≡ some epoch) × (q.process ≡ true))
        (λ _ q. IsOwned q × (q.process ≡ false) × (q.pending ≡ []))
        (begin child epoch p)
unfolding begin
begin_lem child p epoch h = ground arith

-- `abort` keeps the invariant and leaves the player inactive.
pub abort_lem : (p : Player) → IsOwned p → IsOwned (abort p) × (active (abort p) ≡ false)
unfolding abort active
abort_lem p h = ground arith

-- The player after the child has gone with output pending.
abbrev deserted : Player → Player
deserted p = record p {
  process = false;
  stdin = false;
  epoch = none;
  finish_when_drained = false;
  reaped = p.reaped + 1;
  calls = p.calls + 1 + 1 + 1;
}

module _ (child : Paplay) (p : Player) (b : ℕ) (bs : List ℕ) (live : p.process ≡ true)
    (open_stdin : p.stdin ≡ true) (queued : p.pending ≡ b ∷ bs)
    (first : child.exited p.calls ≡ false)
    (write : child.write (p.calls + 1) (take player_write_bytes p.pending) ≡ blocked)
    (second : child.exited (p.calls + 1 + 1) ≡ true) (wait : child.waited p.started ≡ true) where
  service-deserted : service child p ≡ (returned tt, deserted p)
  unfolding service service_process reap_finished close_if_drained
  service-deserted = ground arith

  -- When the child exits between the two `poll`s of one `service`, with output pending and the
  -- write blocked, nothing is raised: the child is gone, the output stays pending, the player
  -- stays active, and from then on `service` does nothing.
  service_stuck :
      let q = (service child p).1 in
      ((service child p).0 ≡ returned tt)
      × (q.process ≡ false)
      × (q.pending ≡ p.pending)
      × (active q ≡ true)
      × (service child q ≡ (returned tt, q))
  service_stuck = rw service-deserted (refl, refl, refl, still_active, unfold service in refl)
    where
      still_active : active (deserted p) ≡ true
      still_active = unfold active in rw queued refl

-- Whatever `service` and `finish` do, the epoch stays or is gone.
abbrev pub EpochFrom : Option ℕ → Option ℕ → Type 0
EpochFrom old new = (new ≡ old) ⊎ (new ≡ none)

service_process-epoch :
    (child : Paplay) (p : Player) → EpochFrom p.epoch (service_process child p).1.epoch
unfolding service_process reap_finished close_if_drained
service_process-epoch child p = ground arith

pub service-epoch : (child : Paplay) (p : Player) → EpochFrom p.epoch (service child p).1.epoch
unfolding service
service-epoch child p = ground (arith, service_process-epoch child p)

pub finish-epoch :
    (child : Paplay) (e : ℕ) (p : Player) → EpochFrom p.epoch (finish child e p).1.epoch
unfolding finish
finish-epoch child e p =
    ground (arith, service-epoch child (record p { finish_when_drained = true }))
