-- ===== src/Device/WebSocket/Frame.antt =====
-- The framing of websocket.py: the frame at the head of the receive buffer (`_frame_metadata` and
-- `_read_frame`) and the masked client frame (`encode_client_frame`). `a & 0x80`, `a & 0x70`,
-- `a & 0x0F` and `a & 0x7F` of a byte are written by `/` and `%`; `0x80 | n` with `n < 128` is
-- `128 + n`. Bytes are numbers.
use Prim.Native.Nat.{bit_xor}
use ha_codex_voice.Prelude.{
  ℕ, zero, suc, ◌+◌, ◌*◌, ◌/◌, ◌%◌, ◌^◌, Bool, not, ◌&&◌, ◌||◌, Option, none, some, List, [], ◌∷◌,
  ◌++◌, length, take, drop, leb, ltb, ◌==◌, if◌then◌else◌,
}
use ha_codex_voice.Prelude.Action.{Outcome, returned, raised}

-- The messages with which `WebSocketError` is raised.
pub data WsError : Type 0 where
  json_exceeds_bound binary_not_aligned binary_exceeds_bound ping_too_large : WsError
  unexpected_continuation unsupported_opcode frame_during_fragmentation : WsError
  extensions_unsupported masked_server_frame non_canonical_length invalid_length : WsError
  fragmented_control frame_exceeds_bound unsupported_control invalid_close_payload : WsError
  invalid_close_code close_reason_not_utf8 fragments_exceed_bound binary_not_pcm16 : WsError
  text_exceeds_bound text_not_utf8 buffer_exceeds_bound : WsError
  unsupported_outgoing_opcode control_too_large bad_mask_length : WsError

-- What a method raises: `WebSocketError` with a message, its subclass `WebSocketClosed`, or the
-- `OSError` of the socket. `out_of_fuel` marks a loop of the model that was cut off.
pub data Fault : Type 0 where
  protocol : WsError → Fault
  closed os_error out_of_fuel : Fault

abbrev pub op_continuation : ℕ
op_continuation = 0x0

abbrev pub op_text : ℕ
op_text = 0x1

abbrev pub op_binary : ℕ
op_binary = 0x2

abbrev pub op_close : ℕ
op_close = 0x8

abbrev pub op_ping : ℕ
op_ping = 0x9

abbrev pub op_pong : ℕ
op_pong = 0xA

pub record Metadata : Type 0 where
  pub final : Bool
  pub opcode : ℕ
  pub header_size : ℕ
  pub size : ℕ

pub record Frame : Type 0 where
  pub final : Bool
  pub opcode : ℕ
  pub payload : List ℕ

-- `struct.unpack("!H", ...)` and `struct.unpack("!Q", ...)`
abbrev pub unpack_16 : ℕ → ℕ → ℕ
unpack_16 a b = a * 256 + b

abbrev pub unpack : ℕ → List ℕ → ℕ
unpack n [] = n
unpack n (b ∷ bs) = unpack (n * 256 + b) bs

-- The last checks of `_frame_metadata`.
unfoldable pub check_size : ℕ → Metadata → Outcome Fault (Option Metadata)
check_size max_message_bytes m =
    if leb op_close m.opcode
    then (if not m.final || ltb 125 m.size
        then raised (protocol fragmented_control)
        else returned (some m))
    else if ltb max_message_bytes m.size
    then raised (protocol frame_exceeds_bound)
    else returned (some m)

-- Length code 126: two more bytes.
unfoldable pub extended_16 : ℕ → Bool → ℕ → List ℕ → Outcome Fault (Option Metadata)
unfolding check_size
extended_16 max final opcode (a ∷ b ∷ _) =
    let n = unpack_16 a b in
    if ltb n 126
    then raised (protocol non_canonical_length)
    else check_size max (record { final = final; opcode = opcode; header_size = 4; size = n })
extended_16 max final opcode _ = returned none

-- Length code 127: eight more bytes.
unfoldable pub extended_64 : ℕ → Bool → ℕ → List ℕ → Outcome Fault (Option Metadata)
unfolding check_size
extended_64 max final opcode (a ∷ b ∷ c ∷ d ∷ e ∷ f ∷ g ∷ h ∷ _) =
    let n = unpack 0 (a ∷ b ∷ c ∷ d ∷ e ∷ f ∷ g ∷ h ∷ []) in
    if not (a / 128 % 2 == 0)
    then raised (protocol invalid_length)
    else if leb n 0xFFFF
    then raised (protocol non_canonical_length)
    else check_size max (record { final = final; opcode = opcode; header_size = 10; size = n })
extended_64 max final opcode _ = returned none

unfoldable pub frame_metadata : ℕ → List ℕ → Outcome Fault (Option Metadata)
unfolding extended_16 extended_64
frame_metadata max (first ∷ second ∷ rest) =
    let final = not (first / 128 % 2 == 0) in
    let opcode = first % 16 in
    let length_code = second % 128 in
    if not (first / 16 % 8 == 0)
    then raised (protocol extensions_unsupported)
    else if not (second / 128 % 2 == 0)
    then raised (protocol masked_server_frame)
    else if length_code == 126
    then extended_16 max final opcode rest
    else if length_code == 127
    then extended_64 max final opcode rest
    else check_size max
        (record { final = final; opcode = opcode; header_size = 2; size = length_code })
frame_metadata max _ = returned none

-- The slices of `_read_frame`: the payload, and what stays in the buffer.
abbrev pub cut : List ℕ → Metadata → Frame × List ℕ
cut buffer m = (
  record { final = m.final; opcode = m.opcode; payload = take m.size (drop m.header_size buffer) },
  drop m.size (drop m.header_size buffer),
)

abbrev pub cut_if_whole :
    List ℕ → Outcome Fault (Option Metadata) → Outcome Fault (Option (Frame × List ℕ))
cut_if_whole buffer (raised e) = raised e
cut_if_whole buffer (returned none) = returned none
cut_if_whole buffer (returned (some m)) =
    if ltb (length buffer) (m.header_size + m.size)
    then returned none
    else returned (some (cut buffer m))

-- The frame at the head of the buffer and the rest, or nothing while it is incomplete.
unfoldable pub split_frame : ℕ → List ℕ → Outcome Fault (Option (Frame × List ℕ))
split_frame max buffer = cut_if_whole buffer (frame_metadata max buffer)

-- `struct.pack("!H", n)` and `struct.pack("!Q", n)`
abbrev pub pack_16 : ℕ → List ℕ
pack_16 n = (n / 256) ∷ (n % 256) ∷ []

abbrev pub pack_64 : ℕ → List ℕ
pack_64 n =
    (n / 2 ^ 56)
    ∷ (n / 2 ^ 48 % 256)
    ∷ (n / 2 ^ 40 % 256)
    ∷ (n / 2 ^ 32 % 256)
    ∷ (n / 2 ^ 24 % 256)
    ∷ (n / 2 ^ 16 % 256)
    ∷ (n / 2 ^ 8 % 256)
    ∷ (n % 256)
    ∷ []

-- `masking_key[index]`
abbrev pub key_byte : List ℕ → ℕ → ℕ
key_byte [] i = 0
key_byte (k ∷ ks) zero = k
key_byte (k ∷ ks) (suc i) = key_byte ks i

-- `value ^ masking_key[index % 4] for index, value in enumerate(payload)`, from `index`
unfoldable pub mask_from : ℕ → List ℕ → List ℕ → List ℕ
mask_from index key [] = []
mask_from index key (value ∷ payload) =
    bit_xor value (key_byte key (index % 4)) ∷ mask_from (index + 1) key payload

abbrev pub is_outgoing : ℕ → Bool
is_outgoing op =
    op == op_text || (op == op_binary || (op == op_close || (op == op_ping || op == op_pong)))

abbrev pub client_length : ℕ → List ℕ
client_length n =
    if ltb n 126 then (128 + n) ∷ [] else if leb n 0xFFFF then 254 ∷ pack_16 n else 255 ∷ pack_64 n

unfoldable pub encode_client_frame : ℕ → List ℕ → List ℕ → Outcome Fault (List ℕ)
encode_client_frame opcode payload masking_key =
    if not (is_outgoing opcode)
    then raised (protocol unsupported_outgoing_opcode)
    else if leb op_close opcode && ltb 125 (length payload)
    then raised (protocol control_too_large)
    else if not (length masking_key == 4)
    then raised (protocol bad_mask_length)
    else returned (
        (128 + opcode)
        ∷ (client_length (length payload) ++ (masking_key ++ mask_from 0 masking_key payload)))

unfoldable pub valid_close_code : ℕ → Bool
valid_close_code code =
    (leb 1000 code && leb code 1003)
    || ((leb 1007 code && leb code 1014) || (leb 3000 code && leb code 4999))
