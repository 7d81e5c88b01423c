-- ===== src/Device/Session/Epochs.antt =====
-- About the speaking epochs in `_handle_message` and `_flush_local_barge_in` of session.py.
use ha_codex_voice.Prelude.{
  ℕ, ◌≤◌, ◌≡◌, refl, inl, inr, false, Option, none, some, is_some, ◌⊎◌, true, List, leb, arith,
  if_elim, not, ◌||◌, ◌&&◌, ◌==◌,
}
use ha_codex_voice.Prelude.Action.{Outcome, returned, raised, lift, ◌>>=◌}
use ha_codex_voice.Prelude.Hoare.{Post}
use ha_codex_voice.Json.{Value, Fields}
use ha_codex_voice.Device.WebSocket.Connection.{Message, text, binary, pong}
use ha_codex_voice.Device.Session.Player.{Player, Paplay, active, abort, enqueue, begin, finish}
use ha_codex_voice.Device.Session.Playback.{
  IsOwned, stream, EpochFrom, finish-epoch, finish-Serves, enqueue_lem, begin_lem, abort_lem,
}
use ha_codex_voice.Device.Session.State.{set_local_output_epoch}
use ha_codex_voice.Device.Session.Protocol.{SessionError, output_epoch_of, json_object}
use ha_codex_voice.Device.Session.Messages.{
  SessionFault, Desk, DeskMethod, Reply, Speaker, fail_session, handle_binary, start_speaking,
  speaking_started, speaking_stopped, speech_started, handle_stopped, stop_ending,
}
use ha_codex_voice.Device.Session.Dispatch.{
  on_control, on_json, handle_message, flush_local_barge_in, flush_requested, same_epoch, is_none,
}

-- An epoch, if there is one, is at most `n`.
abbrev pub UpTo : ℕ → Option ℕ → Type 0
UpTo n none = Unit
UpTo n (some e) = e ≤ n

-- An epoch, if there is one, is `n`.
abbrev pub Is : ℕ → Option ℕ → Type 0
Is n none = Unit
Is n (some e) = e ≡ n

pub record IsPlaying (output_epoch : Option ℕ) (last : ℕ) (d : Desk) : Type 0 where
  pub current : Is last output_epoch
  pub published : Is last d.session.local_output_epoch
  pub suppressed : UpTo last d.session.suppressed_output_epoch
  pub started : UpTo last d.player.epoch
  pub shown : d.session.output_active ≡ is_some d.session.local_output_epoch
  pub owned : IsOwned d.player

-- What a message leaves: the epochs are in order again, and no older than before.
abbrev pub Replies : ℕ → Reply → Desk → Type 0
Replies last r d = IsPlaying r.output_epoch r.last_output_epoch d × (last ≤ r.last_output_epoch)

-- After a raise the session ends; the player still owns at most one child.
abbrev pub Broken : SessionFault → Desk → Type 0
Broken e d = IsOwned d.player

-- What a player's method must leave of the player.
abbrev PlayerUpTo : ℕ → Player → Type 0
PlayerUpTo n p = IsOwned p × UpTo n p.epoch

UpTo-mono : (m n : ℕ) (o : Option ℕ) → m ≤ n → UpTo m o → UpTo n o
UpTo-mono m n none l h = tt
UpTo-mono m n (some e) l h = omega arith

enqueue-up_to :
    (n : ℕ) (bytes : List ℕ) (p : Player)
    → PlayerUpTo n p
    → Post (λ _. PlayerUpTo n) (λ _. IsOwned) (enqueue bytes p)
unfolding enqueue
enqueue-up_to n bytes p h = ground (arith, enqueue_lem p bytes h.0)

handle_binary-Replies :
    (output_epoch : Option ℕ) (last : ℕ) (bytes : List ℕ) (d : Desk)
    → IsPlaying output_epoch last d
    → Post (Replies last) Broken (handle_binary output_epoch last bytes d)
unfolding handle_binary
handle_binary-Replies none last bytes d h = ground arith
handle_binary-Replies (some e) last bytes d h =
    ground (arith, enqueue-up_to last bytes d.player (h.owned, h.started))

begin-up_to :
    (child : Paplay) (p : Player) (n epoch : ℕ)
    → IsOwned p
    → epoch ≤ n
    → Post (λ _. PlayerUpTo n) (λ _. IsOwned) (begin child epoch p)
begin-up_to child p n epoch h l = ground (arith, begin_lem child p epoch h)

pub EpochFrom-up_to : (n : ℕ) (old new : Option ℕ) → EpochFrom old new → UpTo n old → UpTo n new
EpochFrom-up_to n old new (inl e) h = rw e h
EpochFrom-up_to n old new (inr e) h = rw e tt

finish-up_to :
    (child : Paplay) (epoch n : ℕ) (p : Player)
    → PlayerUpTo n p
    → Post (λ _. PlayerUpTo n) (λ _. IsOwned) (finish child epoch p)
finish-up_to child epoch n p h = ground (
  arith,
  (finish-Serves p.maximum_bytes (stream p) child epoch).at p (h.0, refl, refl),
  EpochFrom-up_to n p.epoch (finish child epoch p).1.epoch (finish-epoch child epoch p) h.1,
)

module _ (speaker : Speaker) where
  start_speaking-Replies :
      (output_epoch : Option ℕ) (last epoch : ℕ) (d : Desk)
      → IsPlaying output_epoch last d
      → leb epoch last ≡ false
      → Post (Replies last) Broken (start_speaking speaker epoch d)
  unfolding start_speaking set_local_output_epoch
  start_speaking-Replies output_epoch last epoch d h l =
      ground (arith, l, begin-up_to speaker.child d.player epoch epoch h.owned (omega arith))

  speaking_started-Replies :
      (output_epoch : Option ℕ) (last epoch : ℕ) (d : Desk)
      → IsPlaying output_epoch last d
      → Post (Replies last) Broken (speaking_started speaker output_epoch last epoch d)
  unfolding speaking_started
  speaking_started-Replies output_epoch last epoch d h =
      ground (arith, start_speaking-Replies output_epoch last epoch d h)

  speaking_stopped-Replies :
      (output_epoch : Option ℕ) (last epoch : ℕ) (d : Desk)
      → IsPlaying output_epoch last d
      → Post (Replies last) Broken (speaking_stopped speaker output_epoch last epoch d)
  unfolding speaking_stopped
  speaking_stopped-Replies none last epoch d h = ground arith
  speaking_stopped-Replies (some e) last epoch d h =
      ground (arith, finish-up_to speaker.child epoch last d.player (h.owned, h.started))

speech_started-Replies :
    (output_epoch : Option ℕ) (last : ℕ) (d : Desk)
    → IsPlaying output_epoch last d
    → let (r, d') = speech_started output_epoch last d in Replies last r d'
unfolding speech_started set_local_output_epoch abort
speech_started-Replies none last d h = ground (arith, abort_lem d.player h.owned)
speech_started-Replies (some e) last d h = ground (arith, abort_lem d.player h.owned)

handle_stopped-Replies :
    (output_epoch : Option ℕ) (last : ℕ) (value : Fields) (d : Desk)
    → IsPlaying output_epoch last d
    → Post (Replies last) Broken (handle_stopped last value d)
unfolding handle_stopped stop_ending set_local_output_epoch abort
handle_stopped-Replies output_epoch last value d h = ground (arith, abort_lem d.player h.owned)

lift-Replies :
    {A : Type 0} (last : ℕ) (r : Outcome SessionError A) (f : A → DeskMethod Reply) (d : Desk)
    → IsOwned d.player
    → ((a : A) → Post (Replies last) Broken (f a d))
    → Post (Replies last) Broken ((lift (fail_session r) >>= f) d)
lift-Replies last (returned a) f d h k = k a
lift-Replies last (raised e) f d h k = h

module _ (speaker : Speaker) (output_epoch : Option ℕ) (last : ℕ) where
  on_control-Replies :
      (value : Fields) (d : Desk)
      → IsPlaying output_epoch last d
      → Post (Replies last) Broken (on_control speaker output_epoch last value d)
  unfolding on_control
  on_control-Replies value d h = ground (
    arith,
    lift-Replies last (output_epoch_of value) (speaking_started speaker output_epoch last) d h.owned
        λ e. speaking_started-Replies speaker output_epoch last e d h,
    lift-Replies last (output_epoch_of value) (speaking_stopped speaker output_epoch last) d h.owned
        λ e. speaking_stopped-Replies speaker output_epoch last e d h,
    speech_started-Replies output_epoch last d h,
  )

  on_json-Replies :
      (value : Fields) (d : Desk)
      → IsPlaying output_epoch last d
      → Post (Replies last) Broken (on_json speaker output_epoch last value d)
  unfolding on_json
  on_json-Replies value d h =
      ground
        (arith, on_control-Replies value d h, handle_stopped-Replies output_epoch last value d h)

  -- From epochs that are in order, a message that is handled without a raise keeps the epochs in order: the last epoch does not
  -- fall, the epoch that is playing and the published one are the last one, the suppressed epoch and
  -- the epoch of the child are no newer, output counts as active exactly while an epoch is published,
  -- and the player owns at most one child. When it raises, the player still owns at most one child.
  pub handle_message-Replies :
      (loads : List ℕ → Option Value) (message : Message) (d : Desk)
      → IsPlaying output_epoch last d
      → Post (Replies last) Broken (handle_message speaker output_epoch last loads message d)
  unfolding handle_message
  handle_message-Replies loads (binary bytes) d h =
      handle_binary-Replies output_epoch last bytes d h
  handle_message-Replies loads (pong _) d h = h.owned
  handle_message-Replies loads (text bytes) d h =
      lift-Replies last (json_object (loads bytes)) (on_json speaker output_epoch last) d h.owned
        λ value. on_json-Replies value d h

-- The request names the output that plays, or the last one while the child still plays it out, and that
-- is the one that is published.
pub record IsAsked (requested : ℕ) (output_epoch : Option ℕ) (last : ℕ) (d : Desk) : Type 0 where
  pub asked : d.session.barge_in_requested_epoch ≡ some requested
  pub named :
      (output_epoch ≡ some requested)
      ⊎ ((output_epoch ≡ none) × ((requested ≡ last) × (active d.player ≡ true)))
  pub published : d.session.local_output_epoch ≡ some requested

-- Nothing plays any more, nothing is published, and what still comes of the epoch is suppressed.
pub record IsFlushed (requested : ℕ) (output_epoch : Option ℕ) (d : Desk) : Type 0 where
  pub none_plays : output_epoch ≡ none
  pub silent : active d.player ≡ false
  pub unpublished : d.session.local_output_epoch ≡ none
  pub inactive : d.session.output_active ≡ false
  pub suppressed : d.session.suppressed_output_epoch ≡ some requested

-- The playback goes on as it was.
abbrev pub GoesOn : Option ℕ → Desk → Option ℕ → Desk → Type 0
GoesOn o d o' d' =
    (o' ≡ o)
    × (d'.player ≡ d.player)
    × (d'.session.local_output_epoch ≡ d.session.local_output_epoch)
    × (d'.session.output_active ≡ d.session.output_active)
    × (d'.session.suppressed_output_epoch ≡ d.session.suppressed_output_epoch)

flush-IsFlushed :
    (requested : ℕ) (output_epoch : Option ℕ) (last : ℕ) (d : Desk)
    → IsOwned d.player
    → IsAsked requested output_epoch last d
    → let (o, d') = flush_local_barge_in output_epoch last d in IsFlushed requested o d'
unfolding flush_local_barge_in
flush-IsFlushed requested output_epoch last d w h = record {
  none_plays = ground (arith, h.asked, h.named, h.published);
  silent = ground (arith, h.asked, h.named, h.published, abort_lem d.player w);
  unpublished = ground (arith, h.asked, h.named, h.published);
  inactive = ground (arith, h.asked, h.named, h.published);
  suppressed = ground (arith, h.asked, h.named, h.published);
}

flush-GoesOn :
    (output_epoch : Option ℕ) (last : ℕ) (d : Desk)
    → ((requested : ℕ) → ¬ IsAsked requested output_epoch last d)
    → let (o, d') = flush_local_barge_in output_epoch last d in GoesOn output_epoch d o d'
unfolding flush_local_barge_in
flush-GoesOn output_epoch last d h = go d.session.barge_in_requested_epoch refl
  where
    named_of :
        (r : ℕ)
        → d.session.barge_in_requested_epoch ≡ some r
        → not (
              same_epoch output_epoch r || (is_none output_epoch && (r == last && active d.player)))
            || not (same_epoch d.session.local_output_epoch r)
          ≡ false
        → IsAsked r output_epoch last d
    named_of r e g = record { asked = e; named = ground (arith, g); published = ground (arith, g) }

    go :
        (o : Option ℕ)
        → d.session.barge_in_requested_epoch ≡ o
        → let (o', d') = flush_requested o output_epoch last d in GoesOn output_epoch d o' d'
    go none e = (refl, refl, refl, refl, refl)
    go (some r) e =
        if_elim (λ (p : Option ℕ × Desk). GoesOn output_epoch d p.0 p.1)
          (not (
              same_epoch output_epoch r || (is_none output_epoch && (r == last && active d.player)))
            || not (same_epoch d.session.local_output_epoch r))
          _ _ (λ _. (refl, refl, refl, refl, refl)) λ g. absurd (h r (named_of r e g))

flush-IsPlaying :
    (output_epoch : Option ℕ) (last : ℕ) (d : Desk)
    → IsPlaying output_epoch last d
    → let (o, d') = flush_local_barge_in output_epoch last d in
      IsPlaying o last d' × (d'.session.barge_in_requested_epoch ≡ none)
unfolding flush_local_barge_in abort
flush-IsPlaying output_epoch last d h = ground (arith, abort_lem d.player h.owned)

-- From epochs that are in order the flush leaves them in order, with the last one unchanged, and it
-- leaves no request behind. When the request names the output that plays, or the last one while the
-- child plays it out, and that is published, the player is silenced, nothing is published any more and
-- the epoch is suppressed; in any other case the playback goes on as it was.
pub flush_local_barge_in-Flushes :
    (output_epoch : Option ℕ) (last : ℕ) (d : Desk)
    → IsPlaying output_epoch last d
    → let (o, d') = flush_local_barge_in output_epoch last d in
      IsPlaying o last d'
      × (d'.session.barge_in_requested_epoch ≡ none)
      × ((requested : ℕ) → IsAsked requested output_epoch last d → IsFlushed requested o d')
      × (((requested : ℕ) → ¬ IsAsked requested output_epoch last d) → GoesOn output_epoch d o d')
flush_local_barge_in-Flushes output_epoch last d h =
    let p = flush-IsPlaying output_epoch last d h in
    (
      p.0,
      p.1,
      λ requested. flush-IsFlushed requested output_epoch last d h.owned,
      flush-GoesOn output_epoch last d,
    )
