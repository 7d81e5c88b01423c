-- ===== src/Device/WebSocket/Canonical.antt =====
-- About `_frame_metadata` and `_read_frame` of websocket.py: the converse of `ServerFrames`.
use ha_codex_voice.Prelude.{
  ℕ, ◌+◌, ◌/◌, ◌%◌, ◌≤◌, ◌<◌, ◌≡◌, refl, sym, ap, ◌∙◌, subst, ==_iff, ◌⊎◌, inl, inr, Bool, false,
  not, Option, none, some, List, [], ◌∷◌, ◌++◌, length, take, drop, ltb, ◌==◌, if◌then◌else◌, arith,
  Bool-cases, drop-append_length, IsBytes, length-take, length-drop, take-append-drop, lt→ltb,
  le→ltb, append_assoc,
}
use ha_codex_voice.Prelude.Action.{Outcome, returned, raised}
use ha_codex_voice.Device.WebSocket.Frame.{
  Fault, Metadata, Frame, pack_16, pack_64, check_size, extended_16, extended_64, frame_metadata,
  split_frame, cut, cut_if_whole, unpack, unpack_16,
}
use ha_codex_voice.Device.WebSocket.ServerFrames.{length_field, final_bit, server_frame}

-- The converse: how a buffer begins of which the metadata can be read.
abbrev Heads : List ℕ → Metadata → Type 0
Heads buffer m =
    (buffer ≡ ((final_bit m.final + m.opcode) ∷ length_field m.size) ++ drop m.header_size buffer)
    × (m.opcode < 16)

check_size-eq : (max : ℕ) (m k : Metadata) → check_size max m ≡ returned (some k) → k ≡ m
unfolding check_size
check_size-eq max m k h = ground arith

abbrev read_as : Bool → ℕ → ℕ → ℕ → Metadata
read_as final opcode h n = record { final = final; opcode = opcode; header_size = h; size = n }

module _ (max : ℕ) (final : Bool) (opcode : ℕ) (m : Metadata) where
  extended_16-eq :
      (rest : List ℕ)
      → extended_16 max final opcode rest ≡ returned (some m)
      → (a : ℕ) × (b : ℕ) × (r : List ℕ) × (rest ≡ a ∷ b ∷ r)
        × (126 ≤ unpack_16 a b)
        × (m ≡ read_as final opcode 4 (unpack_16 a b))
  unfolding extended_16
  extended_16-eq [] e = cc
  extended_16-eq (_ ∷ []) e = cc
  extended_16-eq (a ∷ b ∷ r) e = (
    a,
    b,
    r,
    refl,
    ground arith,
    ground (arith, check_size-eq max (read_as final opcode 4 (unpack_16 a b)) m),
  )

  extended_64-eq :
      (rest : List ℕ)
      → extended_64 max final opcode rest ≡ returned (some m)
      → (bs : List ℕ) × (r : List ℕ) × (rest ≡ bs ++ r)
        × (length bs ≡ 8)
        × (65536 ≤ unpack 0 bs)
        × (m ≡ read_as final opcode 10 (unpack 0 bs))
  unfolding extended_64
  extended_64-eq (a ∷ b ∷ c ∷ d ∷ e ∷ f ∷ g ∷ h ∷ r) p = (
    a ∷ b ∷ c ∷ d ∷ e ∷ f ∷ g ∷ h ∷ [],
    r,
    refl,
    refl,
    ground arith,
    ground (
      arith,
      check_size-eq max (read_as final opcode 10 (unpack 0 (a ∷ b ∷ c ∷ d ∷ e ∷ f ∷ g ∷ h ∷ []))) m,
    ),
  )
  extended_64-eq _ p = cc

pack-unpack_16 : (a b : ℕ) → a < 256 → b < 256 → pack_16 (unpack_16 a b) ≡ a ∷ b ∷ []
pack-unpack_16 a b ha hb = ground arith

pack-unpack_64 : (bs : List ℕ) → length bs ≡ 8 → IsBytes bs → pack_64 (unpack 0 bs) ≡ bs
pack-unpack_64 (a ∷ b ∷ c ∷ d ∷ e ∷ f ∷ g ∷ h ∷ []) p q = ground arith
pack-unpack_64 _ p q = absurd (omega arith)

first_byte : (b : ℕ) → b < 256 → b / 16 % 8 ≡ 0 → final_bit (not (b / 128 % 2 == 0)) + b % 16 ≡ b
first_byte b h k = ground arith

Reads : ℕ → ℕ → ℕ → List ℕ → Metadata → Type 0
Reads max first second rest m =
    let final = not (first / 128 % 2 == 0) in
    let opcode = first % 16 in
    ((second < 126)
      × (check_size max (record { final = final; opcode = opcode; header_size = 2; size = second })
          ≡ returned (some m)))
    ⊎ ((second ≡ 126) × (extended_16 max final opcode rest ≡ returned (some m)))
    ⊎ ((second ≡ 127) × (extended_64 max final opcode rest ≡ returned (some m)))

not_whole :
    {p : Frame × List ℕ}
    → ◌≡◌ {A = Outcome Fault (Option (Frame × List ℕ))} (returned none) (returned (some p))
    → ⊥
not_whole h = cc

impossible : {e : Fault} {m : Option Metadata} → raised e ≡ returned m → ⊥
impossible h = cc

length_code :
    (max first second : ℕ) (rest : List ℕ) (m : Metadata)
    → second < 128
    → (if second % 128 == 126
        then extended_16 max (not (first / 128 % 2 == 0)) (first % 16) rest
        else if second % 128 == 127
        then extended_64 max (not (first / 128 % 2 == 0)) (first % 16) rest
        else check_size max (record {
          final = not (first / 128 % 2 == 0);
          opcode = first % 16;
          header_size = 2;
          size = second % 128;
        }))
      ≡ returned (some m)
    → Reads max first second rest m
unfolding Reads
length_code max first second rest m hs h =
    let e : second % 128 ≡ second = omega arith in
    elim (Bool-cases (second == 126)) [
      | inl medium ↦ inr (inl ((==_iff _ _).0 medium, rw (e, medium) at h))
      | inr other ↦ elim (Bool-cases (second == 127)) [
        | inl long ↦ inr (inr ((==_iff _ _).0 long, rw (e, other, long) at h))
        | inr neither ↦ inl (ground arith, rw (e, other, neither) at h)
      ]
    ]

metadata_cases :
    (max first second : ℕ) (rest : List ℕ) (m : Metadata)
    → first < 256
    → second < 256
    → frame_metadata max (first ∷ second ∷ rest) ≡ returned (some m)
    → (first / 16 % 8 ≡ 0) × Reads max first second rest m
unfolding frame_metadata Reads
metadata_cases max first second rest m hf hs h = elim (Bool-cases (first / 16 % 8 == 0)) [
  | inr set ↦ absurd (impossible (rw set at h))
  | inl clear ↦ elim (Bool-cases (second / 128 % 2 == 0)) [
    | inr set ↦ absurd (impossible (rw (clear, set) at h))
    | inl unmasked ↦ (
      (==_iff _ _).0 clear,
      length_code max first second rest m (omega (arith, (==_iff _ _).0 unmasked))
          (rw (clear, unmasked) at h),
    )
  ]
]

short_field : (n : ℕ) → n < 126 → length_field n ≡ n ∷ []
short_field n h = rw (lt→ltb _ _ h)

medium_field :
    (a b : ℕ)
    → a < 256
    → b < 256
    → 126 ≤ unpack_16 a b
    → length_field (unpack_16 a b) ≡ 126 ∷ a ∷ b ∷ []
medium_field a b ha hb l =
    let h : unpack_16 a b < 65536 = omega arith in
    rw (le→ltb _ _ l, lt→ltb _ _ h) (ap (◌∷◌ 126) (pack-unpack_16 a b ha hb))

long_field :
    (bs : List ℕ)
    → length bs ≡ 8
    → IsBytes bs
    → 65536 ≤ unpack 0 bs
    → length_field (unpack 0 bs) ≡ 127 ∷ bs
long_field bs n hb h =
    let l : 126 ≤ unpack 0 bs = omega arith in
    rw (le→ltb _ _ l, le→ltb _ _ h) (ap (◌∷◌ 127) (pack-unpack_64 bs n hb))

drop_eight : (bs r : List ℕ) → length bs ≡ 8 → drop 8 (bs ++ r) ≡ r
drop_eight bs r n = rw (← n) (drop-append_length bs r)

module _ (first : ℕ) (small : first < 256) (no_extension : first / 16 % 8 ≡ 0) where
  abbrev as_read : ℕ → ℕ → Metadata
  as_read = read_as (not (first / 128 % 2 == 0)) (first % 16)

  Heads-short : (n : ℕ) (r : List ℕ) → n < 126 → Heads (first ∷ n ∷ r) (as_read 2 n)
  Heads-short n r h = rw (short_field n h, first_byte first small no_extension) (refl, omega arith)

  Heads-medium :
      (a b : ℕ) (r : List ℕ)
      → a < 256
      → b < 256
      → 126 ≤ unpack_16 a b
      → Heads (first ∷ 126 ∷ a ∷ b ∷ r) (as_read 4 (unpack_16 a b))
  Heads-medium a b r ha hb l =
      rw (medium_field a b ha hb l, first_byte first small no_extension) (refl, omega arith)

  Heads-long :
      (bs r : List ℕ)
      → length bs ≡ 8
      → IsBytes bs
      → 65536 ≤ unpack 0 bs
      → Heads (first ∷ 127 ∷ (bs ++ r)) (as_read 10 (unpack 0 bs))
  Heads-long bs r n hb l =
      rw (long_field bs n hb l, first_byte first small no_extension)
        (ap (λ t. first ∷ 127 ∷ (bs ++ t)) (sym (drop_eight bs r n)), omega arith)

IsBytes-left : (xs ys : List ℕ) → IsBytes (xs ++ ys) → IsBytes xs
IsBytes-left [] ys h = tt
IsBytes-left (x ∷ xs) ys h = (h.0, IsBytes-left xs ys h.1)

Heads-eq :
    {buffer other : List ℕ} {m k : Metadata}
    → buffer ≡ other
    → m ≡ k
    → Heads other k
    → Heads buffer m
Heads-eq p q h = rw (p, q) h

Reads-Heads :
    (max first second : ℕ) (rest : List ℕ) (m : Metadata)
    → IsBytes (first ∷ second ∷ rest)
    → first / 16 % 8 ≡ 0
    → Reads max first second rest m
    → Heads (first ∷ second ∷ rest) m
unfolding Reads
Reads-Heads max first second rest m b z (inl (s, e)) =
    Heads-eq refl (check_size-eq max _ m e) (Heads-short first b.0 z second rest s)
Reads-Heads max first second rest m b z (inr (inl (s, e))) =
    let (x, y, r, er, l, em) = extended_16-eq max _ _ m rest e in
    let b' : IsBytes (x ∷ y ∷ r) = subst IsBytes er b.1.1 in
    Heads-eq (cc) em (Heads-medium first b.0 z x y r b'.0 b'.1.0 l)
Reads-Heads max first second rest m b z (inr (inr (s, e))) =
    let (bs, r, er, n, l, em) = extended_64-eq max _ _ m rest e in
    Heads-eq (cc) em (Heads-long first b.0 z bs r n (IsBytes-left bs r (subst IsBytes er b.1.1)) l)

-- Only canonical encodings are read.
pub frame_metadata-Heads :
    (max : ℕ) (buffer : List ℕ) (m : Metadata)
    → IsBytes buffer
    → frame_metadata max buffer ≡ returned (some m)
    → Heads buffer m
frame_metadata-Heads max [] m b h = unfold frame_metadata in cc
frame_metadata-Heads max (_ ∷ []) m b h = unfold frame_metadata in cc
frame_metadata-Heads max (first ∷ second ∷ rest) m b h =
    let (z, e) = metadata_cases max first second rest m b.0 b.1.0 h in
    Reads-Heads max first second rest m b z e

rebuild :
    (first size : ℕ) (body buffer : List ℕ)
    → size ≤ length body
    → buffer ≡ (first ∷ length_field size) ++ body
    → buffer
      ≡ (first ∷ (length_field (length (take size body)) ++ take size body)) ++ drop size body
rebuild first size body buffer fits heads =
    let n : length (take size body) ≡ size = omega (arith, length-take size body) in
    rw (n, append_assoc, take-append-drop size body) heads

rebuild_frame :
    (buffer : List ℕ) (m : Metadata)
    → buffer ≡ ((final_bit m.final + m.opcode) ∷ length_field m.size) ++ drop m.header_size buffer
    → ltb (length buffer) (m.header_size + m.size) ≡ false
    → buffer ≡ server_frame (cut buffer m).0 ++ (cut buffer m).1
unfolding server_frame
rebuild_frame buffer m heads whole = rebuild _ m.size (drop m.header_size buffer) buffer fits heads
  where
    fits : m.size ≤ length (drop m.header_size buffer)
    fits = ground (arith, length-drop m.header_size buffer)

rest_of : Outcome Fault (Option (Frame × List ℕ)) → List ℕ
rest_of (returned (some (f, rest))) = server_frame f ++ rest
rest_of _ = []

-- A frame that is taken off the buffer stood there in its only encoding.
pub server_frame-split_frame :
    (max : ℕ) (buffer rest : List ℕ) (f : Frame)
    → IsBytes buffer
    → split_frame max buffer ≡ returned (some (f, rest))
    → buffer ≡ server_frame f ++ rest
unfolding split_frame rest_of
server_frame-split_frame max buffer rest f b h = go (frame_metadata max buffer) refl h
  where
    go :
        (r : Outcome Fault (Option Metadata))
        → frame_metadata max buffer ≡ r
        → cut_if_whole buffer r ≡ returned (some (f, rest))
        → buffer ≡ server_frame f ++ rest
    go (raised e) p q = cc
    go (returned none) p q = cc
    go (returned (some m)) p q = elim (Bool-cases (ltb (length buffer) (m.header_size + m.size))) [
      | inl partial ↦ absurd (not_whole (rw partial at q))
      | inr whole ↦
          rebuild_frame buffer m (frame_metadata-Heads max buffer m b p).0 whole
          ∙ ap rest_of (rw whole at q)
    ]
