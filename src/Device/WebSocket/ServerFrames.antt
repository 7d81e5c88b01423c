-- ===== src/Device/WebSocket/ServerFrames.antt =====
-- Reading server frames, against an independent encoder of RFC 6455 server frames.
use ha_codex_voice.Prelude.{
  ℕ, suc, ◌+◌, ◌/◌, ◌%◌, ◌^◌, ◌≤◌, ◌<◌, ◌≡◌, ◌⊎◌, inl, inr, Bool, true, false, not, Option, some,
  List, [], ◌∷◌, ◌++◌, length, ltb, ◌==◌, if◌then◌else◌, arith, take-append_length,
  drop-append_length, length-append, lt→ltb, le→ltb, append_assoc,
}
use ha_codex_voice.Prelude.Action.{Outcome, returned}
use ha_codex_voice.Device.WebSocket.Frame.{
  Fault, Metadata, Frame, pack_16, pack_64, check_size, extended_16, extended_64, frame_metadata,
  split_frame, cut, cut_if_whole, unpack, unpack_16,
}

-- The length field of an unmasked frame, in its only canonical form.
abbrev pub length_field : ℕ → List ℕ
length_field n =
    if ltb n 126 then n ∷ [] else if ltb n 65536 then 126 ∷ pack_16 n else 127 ∷ pack_64 n

abbrev pub final_bit : Bool → ℕ
final_bit true = 128
final_bit false = 0

-- RFC 6455, section 5.2: an unmasked frame with no extension bits.
unfoldable pub server_frame : Frame → List ℕ
server_frame f = (final_bit f.final + f.opcode) ∷ (length_field (length f.payload) ++ f.payload)

-- What the client accepts: control frames whole and short, data frames within the bound.
abbrev pub Fits : ℕ → Frame → Type 0
Fits max f =
    (f.opcode < 16)
    × (length f.payload < 2 ^ 63)
    × (8 ≤ f.opcode → (f.final ≡ true) × (length f.payload ≤ 125))
    × (f.opcode < 8 → length f.payload ≤ max)

abbrev meta : Frame → Metadata
meta f = record {
  final = f.final;
  opcode = f.opcode;
  header_size = suc (length (length_field (length f.payload)));
  size = length f.payload;
}

abbrev FitsMeta : ℕ → Metadata → Type 0
FitsMeta max m = (8 ≤ m.opcode → (m.final ≡ true) × (m.size ≤ 125)) × (m.opcode < 8 → m.size ≤ max)

check_size-Fits : (max : ℕ) (m : Metadata) → FitsMeta max m → check_size max m ≡ returned (some m)
unfolding check_size
check_size-Fits max m h = ground arith

pub unpack-pack_16 : (n : ℕ) → n < 65536 → unpack_16 (n / 256) (n % 256) ≡ n
unpack-pack_16 n h = omega arith

pub unpack-pack_64 : (n : ℕ) → n < 2 ^ 63 → unpack 0 (pack_64 n) ≡ n
unpack-pack_64 n h = omega arith

module _ (max : ℕ) (final : Bool) (opcode n : ℕ) (body : List ℕ) where
  metadata-extended_16 :
      126 ≤ n
      → n < 65536
      → extended_16 max final opcode (pack_16 n ++ body)
        ≡ check_size max (record { final = final; opcode = opcode; header_size = 4; size = n })
  unfolding extended_16
  metadata-extended_16 lo hi = rw (unpack-pack_16 n hi) (ground arith)

  metadata-extended_64 :
      65536 ≤ n
      → n < 2 ^ 63
      → extended_64 max final opcode (pack_64 n ++ body)
        ≡ check_size max (record { final = final; opcode = opcode; header_size = 10; size = n })
  unfolding extended_64
  metadata-extended_64 lo hi = rw (unpack-pack_64 n hi) (ground arith)

final_bit-inverse :
    (final : Bool) (opcode : ℕ)
    → opcode < 16
    → (not ((final_bit final + opcode) / 128 % 2 == 0) ≡ final)
      × ((final_bit final + opcode) % 16 ≡ opcode)
      × ((final_bit final + opcode) / 16 % 8 ≡ 0)
final_bit-inverse true opcode h = ground arith
final_bit-inverse false opcode h = ground arith

-- The first two bytes are read back, whatever the length code.
module _ (max : ℕ) (final : Bool) (opcode n : ℕ) (body : List ℕ) (low : opcode < 16) where
  abbrev sized : ℕ → Outcome Fault (Option Metadata)
  sized h = check_size max (record { final = final; opcode = opcode; header_size = h; size = n })

  metadata_short : n < 126 → frame_metadata max ((final_bit final + opcode) ∷ n ∷ body) ≡ sized 2
  unfolding frame_metadata
  metadata_short h = ground (arith, final_bit-inverse final opcode low)

  metadata_medium :
      126 ≤ n
      → n < 65536
      → frame_metadata max ((final_bit final + opcode) ∷ 126 ∷ (pack_16 n ++ body)) ≡ sized 4
  unfolding frame_metadata
  metadata_medium lo hi = ground (
    arith,
    final_bit-inverse final opcode low,
    metadata-extended_16 max final opcode n body lo hi,
  )

  metadata_long :
      65536 ≤ n
      → n < 2 ^ 63
      → frame_metadata max ((final_bit final + opcode) ∷ 127 ∷ (pack_64 n ++ body)) ≡ sized 10
  unfolding frame_metadata
  metadata_long lo hi = ground (
    arith,
    final_bit-inverse final opcode low,
    metadata-extended_64 max final opcode n body lo hi,
  )

pub size_cases : (n : ℕ) → (n < 126) ⊎ ((126 ≤ n) × (n < 65536)) ⊎ (65536 ≤ n)
size_cases n = omega arith

frame_metadata-server_frame :
    (max : ℕ) (f : Frame) (rest : List ℕ)
    → Fits max f
    → frame_metadata max (server_frame f ++ rest) ≡ check_size max (meta f)
unfolding server_frame
frame_metadata-server_frame max f rest h = elim (size_cases (length f.payload)) [
  | inl s ↦ rw (lt→ltb _ _ s) (metadata_short max f.final f.opcode _ (f.payload ++ rest) h.0 s)
  | inr (inl m) ↦
      rw (le→ltb _ _ m.0, lt→ltb _ _ m.1)
        (metadata_medium max f.final f.opcode _ (f.payload ++ rest) h.0 m.0 m.1)
  | inr (inr l) ↦
      let l' : 126 ≤ length f.payload = omega arith in
      rw (le→ltb _ _ l', le→ltb _ _ l)
        (metadata_long max f.final f.opcode _ (f.payload ++ rest) h.0 l h.1)
]

module _ (final : Bool) (opcode : ℕ) (xs ys zs : List ℕ) where
  abbrev around : Metadata
  around = record { final = final; opcode = opcode; header_size = length xs; size = length ys }

  cut-append :
      cut (xs ++ (ys ++ zs)) around ≡ (record { final = final; opcode = opcode; payload = ys }, zs)
  cut-append =
      rw (drop-append_length xs (ys ++ zs), take-append_length ys zs, drop-append_length ys zs)

  cut_if_whole-append :
      cut_if_whole (xs ++ (ys ++ zs)) (returned (some around))
      ≡ returned (some (record { final = final; opcode = opcode; payload = ys }, zs))
  cut_if_whole-append = rw (le→ltb (length (xs ++ (ys ++ zs))) _ enough, cut-append)
    where
      enough : length xs + length ys ≤ length (xs ++ (ys ++ zs))
      enough = omega (arith, length-append xs (ys ++ zs), length-append ys zs)

-- Whatever follows it, a frame within the bounds is read back whole, and the rest stays.
pub split_frame-server_frame :
    (max : ℕ) (f : Frame) (rest : List ℕ)
    → Fits max f
    → split_frame max (server_frame f ++ rest) ≡ returned (some (f, rest))
unfolding split_frame
split_frame-server_frame max f rest h =
    rw (frame_metadata-server_frame max f rest h, check_size-Fits max (meta f) (h.2, h.3))
      (unfold server_frame in
        rw append_assoc (
          cut_if_whole-append f.final f.opcode
            ((final_bit f.final + f.opcode) ∷ length_field (length f.payload)) f.payload rest))
