-- ===== src/Bridge/WebRtc/Playout.antt =====
-- About the runs of the input track of bridge/webrtc.py: what becomes of the bytes that are fed.
use ha_codex_voice.Prelude.{
  if_elim, ℕ, zero, suc, ◌+◌, ◌-◌, ◌*◌, ◌%◌, ◌≤◌, ◌<◌, ◌≡◌, refl, true, not, List, [], ◌∷◌, ◌++◌,
  append-nil, append_assoc, is_empty, ltb, ◌==◌, length, length-append, length-take,
  take-append-drop, take, drop, replicate, min, All, All-append, arith, ap, sym, ◌∙◌,
}
use ha_codex_voice.Prelude.Action.{Outcome}
use ha_codex_voice.Prelude.Ints.{ℤ, pos, leb_ℤ, pos_part}
use ha_codex_voice.Bridge.WebRtc.Track.{
  Track, track, TrackFault, AudioFrame, feed, set_maximum_buffer_milliseconds, discard_pending,
  upsample, padded, begin_recv, recv, bytes_for, Operation, feeds, limits, discards, begins_recv,
  recvs, step, run, was_fed, accepted_by, accepted,
}
use ha_codex_voice.Bridge.WebRtc.Validity.{IsValid, run-IsValid}

-- What became of a stretch of the input.
pub data Segment : Type 0 where
  played : List ℕ → Segment
  discarded : List ℕ → Segment

abbrev pub input_of : List Segment → List ℕ
input_of [] = []
input_of (played p ∷ segments) = p ++ input_of segments
input_of (discarded p ∷ segments) = p ++ input_of segments

-- The frames of the stretches that were played, 20 ms apart.
abbrev pub rendered : ℕ → List Segment → List AudioFrame
rendered pts [] = []
rendered pts (played p ∷ segments) =
    record { samples = upsample (padded p); pts = pts } ∷ rendered (pts + 960) segments
rendered pts (discarded p ∷ segments) = rendered pts segments

abbrev pub IsShort : Segment → Type 0
IsShort (played p) = length p ≤ 960
IsShort (discarded p) = Unit

length-upsample : (c : List ℕ) → length (upsample c) ≡ 2 * length c
unfolding upsample
length-upsample [] = refl
length-upsample (low ∷ []) = refl
length-upsample (low ∷ high ∷ rest) = omega (arith, length-upsample rest)

-- What an operation takes off the buffer: a reception plays at most 20 ms of it, the oldest first, and a
-- discard drops it.
abbrev pub taken_off : Operation → Track → List Segment
taken_off recvs t = played (take 960 t.buffer) ∷ []
taken_off discards t = discarded t.buffer ∷ []
taken_off (feeds _) t = []
taken_off (limits _) t = []
taken_off (begins_recv _) t = []

abbrev pub stretches : List Operation → Track → List Segment
stretches [] t = []
stretches (o ∷ os) t = taken_off o t ++ stretches os (step o t).1

-- The segment of an operation: its frames, the bytes that it takes off, those that it adds.
record Plays (t : Track) (fed : List ℕ) (frames : List AudioFrame) (t' : Track)
    (segments : List Segment) : Type 0 where
  frames_lem : frames ≡ rendered t.pts segments
  bytes_lem : t.buffer ++ fed ≡ input_of segments ++ t'.buffer
  short : All IsShort segments
  clock : (rest : List Segment) → rendered t.pts (segments ++ rest) ≡ frames ++ rendered t'.pts rest

nothing :
    (t t' : Track) (fed : List ℕ)
    → t'.pts ≡ t.pts
    → t'.buffer ≡ t.buffer ++ fed
    → Plays t fed [] t' []
nothing t t' fed p b = record {
  frames_lem = refl;
  bytes_lem = sym b;
  short = tt;
  clock = λ rest. ap (λ n. rendered n rest) (sym p);
}

feed-Plays : (pcm : List ℕ) (t : Track) → Plays t (was_fed pcm (feed pcm t).0) [] (feed pcm t).1 []
unfolding feed
feed-Plays pcm t =
    if_elim (λ (p : Outcome TrackFault (Unit {0}) × Track). Plays t (was_fed pcm p.0) [] p.1 [])
      (not (length pcm % 2 == 0)) _ _ (λ _. nothing t t [] refl (sym (append-nil t.buffer)))
      λ _.
        if_elim (λ (p : Outcome TrackFault (Unit {0}) × Track). Plays t (was_fed pcm p.0) [] p.1 [])
          (ltb t.maximum_buffer_bytes (length t.buffer + length pcm)) _ _
          (λ _. nothing t t [] refl (sym (append-nil t.buffer)))
          λ _.
            if_elim
              (λ (p : Outcome TrackFault (Unit {0}) × Track). Plays t (was_fed pcm p.0) [] p.1 [])
              (is_empty pcm) _ _
              (λ e. nothing t t pcm refl (sym (rw (no_bytes pcm e) (append-nil t.buffer))))
              λ _. nothing t _ pcm refl refl
  where
    no_bytes : (b : List ℕ) → is_empty b ≡ true → b ≡ []
    no_bytes b e = ground (arith, e)

limit-Plays :
    (maximum : ℤ) (t : Track) → Plays t [] [] (set_maximum_buffer_milliseconds maximum t).1 []
unfolding set_maximum_buffer_milliseconds
limit-Plays maximum t =
    if_elim (λ (p : Outcome TrackFault (Unit {0}) × Track). Plays t [] [] p.1 [])
      (leb_ℤ maximum (pos 0)) _ _ (λ _. nothing t t [] refl (sym (append-nil t.buffer)))
      λ _.
        if_elim (λ (p : Outcome TrackFault (Unit {0}) × Track). Plays t [] [] p.1 [])
          (ltb (bytes_for (pos_part maximum)) (length t.buffer)) _ _
          (λ _. nothing t t [] refl (sym (append-nil t.buffer)))
          λ _. nothing t _ [] refl (sym (append-nil t.buffer))

take-min_upto : (n : ℕ) (b : List ℕ) → take (min (length b) n) b ≡ take n b
take-min_upto zero [] = refl
take-min_upto (suc n) [] = ap (λ m. take {A = ℕ} m []) least
  where
    least : min 0 (suc n) ≡ 0
    least = omega arith
take-min_upto zero (x ∷ b) = ap (λ m. take m (x ∷ b)) least
  where
    least : min (suc (length b)) 0 ≡ 0
    least = omega arith
take-min_upto (suc n) (x ∷ b) = ap (λ m. take m (x ∷ b)) both ∙ ap (λ l. x ∷ l) (take-min_upto n b)
  where
    both : min (suc (length b)) (suc n) ≡ suc (min (length b) n)
    both = omega arith

take-min : (b : List ℕ) → take (min (length b) 960) b ≡ take 960 b
take-min b = take-min_upto 960 b

step-Plays :
    (o : Operation) (t : Track)
    → Plays t (accepted_by o t) (step o t).0 (step o t).1 (taken_off o t)
unfolding step discard_pending begin_recv recv
step-Plays (feeds pcm) t = feed-Plays pcm t
step-Plays (limits maximum) t = limit-Plays maximum t
step-Plays (begins_recv now) t = nothing t _ [] refl (sym (append-nil t.buffer))
step-Plays discards t = record {
  frames_lem = refl;
  bytes_lem = sym (append_assoc t.buffer [] []);
  short = (tt, tt);
  clock = λ rest. refl;
}
step-Plays recvs t = record {
  frames_lem =
      ap (λ p. record { samples = upsample (padded p); pts = t.pts } ∷ []) (take-min t.buffer);
  bytes_lem =
      append-nil t.buffer
      ∙ sym (take-append-drop (min (length t.buffer) 960) t.buffer)
      ∙ ap (λ l. l ++ drop (min (length t.buffer) 960) t.buffer)
          (take-min t.buffer ∙ sym (append-nil (take 960 t.buffer)));
  short = (omega (arith, length-take 960 t.buffer), tt);
  clock = λ rest.
      ap (λ p. record { samples = upsample (padded p); pts = t.pts } ∷ rendered (t.pts + 960) rest)
        (sym (take-min t.buffer));
}

input_of-append : (a b : List Segment) → input_of (a ++ b) ≡ input_of a ++ input_of b
input_of-append [] b = refl
input_of-append (played p ∷ a) b =
    ap (λ l. p ++ l) (input_of-append a b) ∙ sym (append_assoc p (input_of a) (input_of b))
input_of-append (discarded p ∷ a) b =
    ap (λ l. p ++ l) (input_of-append a b) ∙ sym (append_assoc p (input_of a) (input_of b))

module _ (t u v : Track) (fed fed' : List ℕ) (out out' : List AudioFrame)
    (segments segments' : List Segment) where
  then_Plays :
      Plays t fed out u segments
      → Plays u fed' out' v segments'
      → Plays t (fed ++ fed') (out ++ out') v (segments ++ segments')
  then_Plays a b = record {
    frames_lem = ap (λ l. out ++ l) b.frames_lem ∙ sym (a.clock segments');
    bytes_lem =
        sym (append_assoc t.buffer fed fed')
        ∙ ap (λ l. l ++ fed') a.bytes_lem
        ∙ append_assoc (input_of segments) u.buffer fed'
        ∙ ap (λ l. input_of segments ++ l) b.bytes_lem
        ∙ sym (append_assoc (input_of segments) (input_of segments') v.buffer)
        ∙ ap (λ l. l ++ v.buffer) (sym (input_of-append segments segments'));
    short = All-append IsShort segments segments' a.short b.short;
    clock = λ rest.
        ap (rendered t.pts) (append_assoc segments segments' rest)
        ∙ a.clock (segments' ++ rest)
        ∙ ap (λ l. out ++ l) (b.clock rest)
        ∙ sym (append_assoc out out' (rendered v.pts rest));
  }

run-Plays :
    (os : List Operation) (t : Track)
    → Plays t (accepted os t) (run os t).0 (run os t).1 (stretches os t)
unfolding run accepted
run-Plays [] t = nothing t t [] refl (sym (append-nil t.buffer))
run-Plays (o ∷ os) t =
    let u = (step o t).1 in
    then_Plays t u (run os u).1 (accepted_by o t) (accepted os u) (step o t).0 (run os u).0
      (taken_off o t) (stretches os u) (step-Plays o t) (run-Plays os u)

-- A frame of 20 ms at 48 kHz.
abbrev pub IsFrame : AudioFrame → Type 0
IsFrame f = length f.samples ≡ 2 * 960

length-zeros : (n : ℕ) → length (replicate {A = ℕ} n 0) ≡ n
length-zeros zero = refl
length-zeros (suc n) = ap suc (length-zeros n)

rendered-IsFrame :
    (pts : ℕ) (segments : List Segment) → All IsShort segments → All IsFrame (rendered pts segments)
rendered-IsFrame pts [] h = tt
rendered-IsFrame pts (played p ∷ segments) h = (
  length-upsample (padded p)
      ∙ omega (
        arith,
        length-append p (replicate (960 - length p) 0),
        length-zeros (960 - length p),
        h.0,
      ),
  rendered-IsFrame (pts + 960) segments h.1,
)
rendered-IsFrame pts (discarded p ∷ segments) h = rendered-IsFrame pts segments h.1

-- The k-th sample of a string of PCM16 bytes, low byte first, and silence beyond its end.
abbrev pub sample_at : ℕ → List ℕ → ℕ × ℕ
sample_at k [] = (0, 0)
sample_at zero (low ∷ []) = (low, 0)
sample_at (suc k) (low ∷ []) = (0, 0)
sample_at zero (low ∷ (high ∷ rest)) = (low, high)
sample_at (suc k) (low ∷ (high ∷ rest)) = sample_at k rest

-- 480 samples at 24 kHz, each of which sounds twice at 48 kHz.
abbrev pub Sounds : List ℕ → List ℕ → Type 0
Sounds input output =
    (k : ℕ)
    → k < 480
    → (sample_at (k + k) output ≡ sample_at k input)
      × (sample_at (k + k + 1) output ≡ sample_at k input)

-- The frames are those of the stretches that were played, 20 ms apart.
abbrev pub Renders : ℕ → List Segment → List AudioFrame → Type 0
Renders pts [] [] = Unit
Renders pts [] (_ ∷ _) = ⊥
Renders pts (played p ∷ segments) [] = ⊥
Renders pts (played p ∷ segments) (f ∷ frames) =
    (f.pts ≡ pts) × Sounds p f.samples × Renders (pts + 960) segments frames
Renders pts (discarded p ∷ segments) frames = Renders pts segments frames

silent_at : (k n : ℕ) → sample_at k (replicate n 0) ≡ (0, 0)
silent_at k zero = refl
silent_at zero (suc zero) = refl
silent_at (suc k) (suc zero) = refl
silent_at zero (suc (suc n)) = refl
silent_at (suc k) (suc (suc n)) = silent_at k n

padded_at : (k n : ℕ) (p : List ℕ) → sample_at k (p ++ replicate n 0) ≡ sample_at k p
padded_at k n [] = silent_at k n
padded_at zero zero (low ∷ []) = refl
padded_at zero (suc n) (low ∷ []) = refl
padded_at (suc k) zero (low ∷ []) = refl
padded_at (suc k) (suc n) (low ∷ []) = silent_at k n
padded_at zero n (low ∷ (high ∷ rest)) = refl
padded_at (suc k) n (low ∷ (high ∷ rest)) = padded_at k n rest

upsample_at :
    (k : ℕ) (c : List ℕ)
    → k + k + 1 < length c
    → (sample_at (k + k) (upsample c) ≡ sample_at k c)
      × (sample_at (k + k + 1) (upsample c) ≡ sample_at k c)
unfolding upsample
upsample_at k [] l = absurd (omega (arith, l))
upsample_at k (low ∷ []) l = absurd (omega (arith, l))
upsample_at zero (low ∷ (high ∷ rest)) l = (refl, refl)
upsample_at (suc k) (low ∷ (high ∷ rest)) l =
    let h = upsample_at k rest (omega (arith, l)) in
    (
      ap (λ n. sample_at n (low ∷ (high ∷ (low ∷ (high ∷ upsample rest))))) even ∙ h.0,
      ap (λ n. sample_at n (low ∷ (high ∷ (low ∷ (high ∷ upsample rest))))) odd ∙ h.1,
    )
  where
    even : suc k + suc k ≡ suc (suc (k + k))
    even = omega arith

    odd : suc k + suc k + 1 ≡ suc (suc (k + k + 1))
    odd = omega arith

rendered-Renders :
    (pts : ℕ) (segments : List Segment)
    → All IsShort segments
    → Renders pts segments (rendered pts segments)
rendered-Renders pts [] h = tt
rendered-Renders pts (played p ∷ segments) h =
    (refl, sounds, rendered-Renders (pts + 960) segments h.1)
  where
    whole : length (padded p) ≡ 960
    whole =
        omega (
          arith,
          length-append p (replicate (960 - length p) 0),
          length-zeros (960 - length p),
          h.0,
        )

    sounds : Sounds p (upsample (padded p))
    sounds k l =
        let u = upsample_at k (padded p) (omega (arith, l, whole)) in
        (u.0 ∙ padded_at k (960 - length p) p, u.1 ∙ padded_at k (960 - length p) p)
rendered-Renders pts (discarded p ∷ segments) h = rendered-Renders pts segments h.1

-- In every run of a new track: the bytes that were taken in are, in order and each once, those of the
-- stretches that were taken off, and then the buffer: a reception plays up to 20 ms, the oldest first, a
-- discard drops all. The frames are those of the stretches that were played: every sample of a stretch sounds twice in its frame, what is
-- missing is silence, every frame is of 20 ms and the next one begins where it ends. The buffer holds
-- whole samples within its bound, and the track is signalled as drained exactly when the buffer is empty.
pub run-track-Plays :
    (os : List Operation)
    → let (frames, t) = run os track in
      let segments = stretches os track in
      Renders 0 segments frames
      × (accepted os track ≡ input_of segments ++ t.buffer)
      × All IsShort segments
      × All IsFrame frames
      × IsValid t
unfolding track
run-track-Plays os =
    let h = run-Plays os track in
    let segments = stretches os track in
    (
      rw h.frames_lem (rendered-Renders 0 segments h.short),
      h.bytes_lem,
      h.short,
      rw h.frames_lem (rendered-IsFrame 0 segments h.short),
      run-IsValid os track
          (record { within = omega arith; aligned = omega arith; signalled = refl }),
    )
