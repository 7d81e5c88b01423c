-- ===== src/Device/WebSocket/Bounds.antt =====
-- About the sizes of a frame that `_read_frame` of websocket.py takes off the buffer.
use ha_codex_voice.Prelude.{
  ℕ, ◌+◌, ◌%◌, ◌/◌, ◌≤◌, ◌<◌, ◌≡◌, ◌⊎◌, Bool, true, not, Option, none, some, List, ◌∷◌, length,
  drop, ◌==◌, arith, length-take, length-drop,
}
use ha_codex_voice.Prelude.Action.{Outcome, returned, raised}
use ha_codex_voice.Device.WebSocket.Frame.{
  Fault, out_of_fuel, Metadata, Frame, check_size, extended_16, extended_64, frame_metadata,
  split_frame, cut_if_whole, encode_client_frame,
}

-- A fault of the program, not of the model.
abbrev pub IsReal : Fault → Type 0
IsReal out_of_fuel = ⊥
IsReal _ = Unit

abbrev Sized : ℕ → Outcome Fault (Option Metadata) → Type 0
Sized max (raised e) = IsReal e
Sized max (returned none) = Unit
Sized max (returned (some m)) =
    (2 ≤ m.header_size)
    × (((m.opcode < 8) × (m.size ≤ max)) ⊎ ((8 ≤ m.opcode) × (m.size ≤ 125) × (m.final ≡ true)))

check_size-Sized : (max : ℕ) (m : Metadata) → 2 ≤ m.header_size → Sized max (check_size max m)
unfolding check_size
check_size-Sized max m h = ground arith

extended_16-Sized :
    (max : ℕ) (final : Bool) (op : ℕ) (r : List ℕ) → Sized max (extended_16 max final op r)
unfolding extended_16
extended_16-Sized max final op (a ∷ b ∷ r) = ground arith
extended_16-Sized max final op _ = tt

extended_64-Sized :
    (max : ℕ) (final : Bool) (op : ℕ) (r : List ℕ) → Sized max (extended_64 max final op r)
unfolding extended_64
extended_64-Sized max final op (a ∷ b ∷ c ∷ d ∷ e ∷ f ∷ g ∷ h ∷ r) = ground arith
extended_64-Sized max final op _ = tt

frame_metadata-Sized : (max : ℕ) (b : List ℕ) → Sized max (frame_metadata max b)
unfolding frame_metadata
frame_metadata-Sized max (first ∷ second ∷ r) = ground (
  arith,
  extended_16-Sized max (not (first / 128 % 2 == 0)) (first % 16) r,
  extended_64-Sized max (not (first / 128 % 2 == 0)) (first % 16) r,
)
frame_metadata-Sized max _ = tt

-- A frame that is taken leaves at most two bytes less in the buffer, and its payload is bounded.
abbrev pub IsBounded : ℕ → Frame → Type 0
IsBounded max f =
    ((f.opcode < 8) × (length f.payload ≤ max))
    ⊎ ((8 ≤ f.opcode) × (length f.payload ≤ 125) × (f.final ≡ true))

abbrev pub Taken : ℕ → List ℕ → Outcome Fault (Option (Frame × List ℕ)) → Type 0
Taken max buffer (raised e) = IsReal e
Taken max buffer (returned none) = Unit
Taken max buffer (returned (some (f, rest))) = (length rest + 2 ≤ length buffer) × IsBounded max f

cut_if_whole-Taken :
    (max : ℕ) (buffer : List ℕ) (r : Outcome Fault (Option Metadata))
    → Sized max r
    → Taken max buffer (cut_if_whole buffer r)
cut_if_whole-Taken max buffer (raised e) h = h
cut_if_whole-Taken max buffer (returned none) h = tt
cut_if_whole-Taken max buffer (returned (some m)) h = ground (
  arith,
  h,
  length-drop m.header_size buffer,
  length-drop m.size (drop m.header_size buffer),
  length-take m.size (drop m.header_size buffer),
)

pub split_frame-Taken : (max : ℕ) (buffer : List ℕ) → Taken max buffer (split_frame max buffer)
unfolding split_frame
split_frame-Taken max buffer =
    cut_if_whole-Taken max buffer (frame_metadata max buffer) (frame_metadata-Sized max buffer)

abbrev pub RaisesReal : {A : Type 0} → Outcome Fault A → Type 0
RaisesReal (raised e) = IsReal e
RaisesReal (returned _) = Unit

pub encode_client_frame-real :
    (opcode : ℕ) (payload key : List ℕ) → RaisesReal (encode_client_frame opcode payload key)
unfolding encode_client_frame
encode_client_frame-real opcode payload key = ground arith
