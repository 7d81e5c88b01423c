-- ===== src/Device/WebSocket/Connection.antt =====
-- `class WebSocketConnection` of websocket.py, method by method, after the upgrade. The socket and
-- the operating system are parameters: what `os.urandom(4)`, `sendall` and `recv` answer on each
-- successive call. A text message is kept as its UTF-8 bytes.
use ha_codex_voice.Prelude.{
  ℕ, zero, suc, ◌+◌, ◌-◌, ◌%◌, min, Bool, true, false, not, ◌||◌, Option, none, some, is_some, List,
  [], ◌∷◌, ◌++◌, length, is_empty, leb, ltb, ◌==◌, if◌then◌else◌,
}
use ha_codex_voice.Prelude.Action.{
  Outcome, returned, raised, Action, pure, throw, lift, modify, ◌>>=◌, ◌>>◌,
}
use ha_codex_voice.Device.WebSocket.Frame.{
  Fault, protocol, closed, os_error, out_of_fuel, json_exceeds_bound, binary_not_aligned,
  binary_exceeds_bound, ping_too_large, unexpected_continuation, unsupported_opcode,
  frame_during_fragmentation, unsupported_control, fragmented_control, invalid_close_payload,
  invalid_close_code, close_reason_not_utf8, fragments_exceed_bound, binary_not_pcm16,
  text_exceeds_bound, text_not_utf8, buffer_exceeds_bound, op_continuation, op_text, op_binary,
  op_close, op_ping, op_pong, Frame, frame_metadata, split_frame, encode_client_frame, pack_16,
  unpack_16, valid_close_code,
}
use ha_codex_voice.Device.WebSocket.Utf8.{is_utf8}

-- One answer of `recv`: a timeout or a would-block, the end of the stream, bytes, another `OSError`.
pub data Received : Type 0 where
  would_block : Received
  eof : Received
  chunk : List ℕ → Received
  failed : Received

-- The answers of the system, by the number of the call.
pub record Network : Type 0 where
  pub urandom : ℕ → List ℕ
  pub sendall : ℕ → Bool
  pub recv : ℕ → ℕ → Received

pub record Connection : Type 0 where
  pub buffer : List ℕ
  pub max_message_bytes : ℕ
  pub fragment_opcode : Option ℕ
  pub fragment : List ℕ
  pub close_sent : Bool
  pub is_closed : Bool
  -- the opcodes and payloads of the frames that `sendall` took, oldest first
  pub sent : List (ℕ × List ℕ)
  pub send_calls : ℕ
  pub recv_calls : ℕ

pub data Message : Type 0 where
  text : List ℕ → Message
  binary : List ℕ → Message
  pong : List ℕ → Message

abbrev pub Method : Type 0 → Type 0
Method = Action Connection Fault

abbrev pub max_text_bytes : ℕ
max_text_bytes = 16384

-- `__init__`
pub connection : List ℕ → ℕ → Connection
connection initial_data max_message_bytes = record {
  buffer = initial_data;
  max_message_bytes = max_message_bytes;
  fragment_opcode = none;
  fragment = [];
  close_sent = false;
  is_closed = false;
  sent = [];
  send_calls = 0;
  recv_calls = 0;
}

unfoldable pub pending : Connection → Outcome Fault Bool
pending c = elim (frame_metadata c.max_message_bytes c.buffer) [
  | raised e ↦ raised e
  | returned none ↦ returned false
  | returned (some m) ↦ returned (leb (m.header_size + m.size) (length c.buffer))
]

-- `_read_frame`; the three `None`s are `none`.
abbrev pub take_frame : Outcome Fault (Option (Frame × List ℕ)) → Method (Option Frame)
take_frame (raised e) c = (raised e, c)
take_frame (returned none) c = (returned none, c)
take_frame (returned (some (f, rest))) c = (returned (some f), record c { buffer = rest })

unfoldable pub read_frame : Method (Option Frame)
read_frame c = take_frame (split_frame c.max_message_bytes c.buffer) c

unfoldable pub append_fragment : List ℕ → Method (Unit {0})
append_fragment payload c =
    if ltb c.max_message_bytes (length c.fragment + length payload)
    then (raised (protocol fragments_exceed_bound), c)
    else (returned tt, record c { fragment = c.fragment ++ payload })

unfoldable pub decode_message : ℕ → List ℕ → Method Message
decode_message opcode payload c =
    if opcode == op_binary
    then (if is_empty payload || not (length payload % 2 == 0)
        then (raised (protocol binary_not_pcm16), c)
        else (returned (binary payload), c))
    else if ltb (min max_text_bytes c.max_message_bytes) (length payload)
    then (raised (protocol text_exceeds_bound), c)
    else if is_utf8 payload
    then (returned (text payload), c)
    else (raised (protocol text_not_utf8), c)

-- `close`: what `shutdown` and `close` of the socket raise is suppressed.
unfoldable pub close : Connection → Connection
close c = record c { is_closed = true }

-- What `_receive_some` does with an answer of `recv`.
abbrev pub take_received : Received → Method (Unit {0})
take_received would_block c = (returned tt, c)
take_received eof c = (raised closed, c)
take_received failed c = (raised os_error, c)
take_received (chunk []) c = (raised closed, c)
take_received (chunk (b ∷ bs)) c = (returned tt, record c { buffer = c.buffer ++ b ∷ bs })

-- The checks of a close payload in `_handle_control`, in their order.
unfoldable pub check_close : List ℕ → Outcome Fault (Unit {0})
check_close [] = returned tt
check_close (_ ∷ []) = raised (protocol invalid_close_payload)
check_close (a ∷ b ∷ reason) =
    if not (valid_close_code (unpack_16 a b))
    then raised (protocol invalid_close_code)
    else if is_utf8 reason
    then returned tt
    else raised (protocol close_reason_not_utf8)

-- How one turn of the loop of `receive_message` ends: by a `return`, or by going on with
-- `read_attempted` and `consumed_frame`.
pub data Turn : Type 0 where
  finished : Option Message → Turn
  again : Bool → Bool → Turn

-- A `continue` after a consumed frame, or the return of a message.
abbrev pub next_turn : Bool → Option Message → Turn
next_turn read_attempted none = again read_attempted true
next_turn read_attempted (some m) = finished (some m)

abbrev pub message : Message → Turn
message m = finished (some m)

abbrev pub complete_fragments : ℕ → Method Turn
complete_fragments opcode c =
    (decode_message opcode c.fragment >>= λ m. pure (message m))
      (record c { fragment_opcode = none; fragment = [] })

-- A continuation frame inside a message of this opcode.
abbrev pub continue_fragments : Bool → ℕ → Frame → Method Turn
continue_fragments read_attempted opcode f =
    append_fragment f.payload
    >> (if f.final then complete_fragments opcode else pure (again read_attempted true))

abbrev pub on_continuation : Bool → Option ℕ → Frame → Method Turn
on_continuation read_attempted none f = throw (protocol unexpected_continuation)
on_continuation read_attempted (some opcode) f = continue_fragments read_attempted opcode f

abbrev pub first_fragment : Bool → Frame → Method Turn
first_fragment read_attempted f =
    modify (λ c. record c { fragment_opcode = some f.opcode; fragment = [] })
    >> (append_fragment f.payload >> pure (again read_attempted true))

-- The end of a turn: leave the loop, or make the next turn.
abbrev pub after_turn :
    (Bool → Bool → Method (Option Message)) → Outcome Fault Turn → Method (Option Message)
after_turn next (raised e) c = (raised e, c)
after_turn next (returned (finished m)) c = (returned m, c)
after_turn next (returned (again read_attempted consumed_frame)) c =
    next read_attempted consumed_frame c

module _ (net : Network) where
  -- `self._transport.sendall(...)` of an encoded frame
  abbrev pub transmit : ℕ → List ℕ → Outcome Fault (List ℕ) → Method (Unit {0})
  transmit opcode payload (raised e) c = (raised e, c)
  transmit opcode payload (returned bytes) c =
      if net.sendall c.send_calls
      then (
        returned tt,
        record c { sent = c.sent ++ (opcode, payload) ∷ []; send_calls = c.send_calls + 1 },
      )
      else (raised os_error, record c { send_calls = c.send_calls + 1 })

  unfoldable pub send_frame : ℕ → List ℕ → Method (Unit {0})
  send_frame opcode payload c =
      if c.is_closed
      then (raised closed, c)
      else transmit opcode payload (encode_client_frame opcode payload (net.urandom c.send_calls)) c

  -- `encoded` is what `json.dumps` made of the object.
  unfoldable pub send_json : List ℕ → Method (Unit {0})
  send_json encoded c =
      if ltb (min max_text_bytes c.max_message_bytes) (length encoded)
      then (raised (protocol json_exceeds_bound), c)
      else send_frame op_text encoded c

  unfoldable pub send_binary : List ℕ → Method (Unit {0})
  send_binary value c =
      if is_empty value || not (length value % 2 == 0)
      then (raised (protocol binary_not_aligned), c)
      else if ltb c.max_message_bytes (length value)
      then (raised (protocol binary_exceeds_bound), c)
      else send_frame op_binary value c

  unfoldable pub send_ping : List ℕ → Method (Unit {0})
  send_ping payload c =
      if ltb 125 (length payload)
      then (raised (protocol ping_too_large), c)
      else send_frame op_ping payload c

  abbrev pub mark_close_sent : Method (Unit {0})
  mark_close_sent c = (returned tt, record c { close_sent = true })

  unfoldable pub send_close : ℕ → Method (Unit {0})
  send_close code c =
      if c.close_sent || c.is_closed
      then (returned tt, c)
      else (send_frame op_close (pack_16 code) >> mark_close_sent) c

  unfoldable pub receive_some : Method (Unit {0})
  receive_some c =
      let maximum_buffer = c.max_message_bytes + 16384 in
      let remaining = maximum_buffer - length c.buffer in
      if leb maximum_buffer (length c.buffer)
      then (raised (protocol buffer_exceeds_bound), c)
      else take_received (net.recv c.recv_calls (min 4096 remaining))
          (record c { recv_calls = c.recv_calls + 1 })

  unfoldable pub answer_close : List ℕ → Method (Unit {0})
  answer_close payload c =
      if c.close_sent then (returned tt, c) else (send_frame op_close payload >> mark_close_sent) c

  unfoldable pub handle_control : Frame → Method (Option Message)
  unfolding check_close answer_close
  handle_control f c =
      if not f.final
      then (raised (protocol fragmented_control), c)
      else if f.opcode == op_ping
      then (send_frame op_pong f.payload >> pure none) c
      else if f.opcode == op_pong
      then (returned (some (pong f.payload)), c)
      else if not (f.opcode == op_close)
      then (raised (protocol unsupported_control), c)
      else (lift (check_close f.payload) >> (answer_close f.payload >> throw closed)) c

  unfoldable pub on_frame : Bool → Frame → Method Turn
  on_frame read_attempted f c =
      if leb op_close f.opcode
      then (handle_control f >>= λ m. pure (next_turn read_attempted m)) c
      else if f.opcode == op_continuation
      then on_continuation read_attempted c.fragment_opcode f c
      else if not (f.opcode == op_text || f.opcode == op_binary)
      then (raised (protocol unsupported_opcode), c)
      else if is_some c.fragment_opcode
      then (raised (protocol frame_during_fragmentation), c)
      else if f.final
      then (decode_message f.opcode f.payload >>= λ m. pure (message m)) c
      else first_fragment read_attempted f c

  abbrev pub on_read : Bool → Bool → Option Frame → Method Turn
  on_read read_attempted consumed_frame none =
      if read_attempted || consumed_frame
      then pure (finished none)
      else (receive_some >> pure (again true consumed_frame))
  on_read read_attempted consumed_frame (some f) = on_frame read_attempted f

  unfoldable pub turn : Bool → Bool → Method Turn
  turn read_attempted consumed_frame = read_frame >>= on_read read_attempted consumed_frame

  unfoldable pub receive_loop : ℕ → Bool → Bool → Method (Option Message)
  receive_loop zero read_attempted consumed_frame c = (raised out_of_fuel, c)
  receive_loop (suc fuel) read_attempted consumed_frame c =
      let (r, c') = turn read_attempted consumed_frame c in after_turn (receive_loop fuel) r c'

  -- Each turn takes two bytes off the buffer, but one, which adds 4096 at most.
  unfoldable pub receive_message : Method (Option Message)
  receive_message c = receive_loop (length c.buffer + 4098) false false c
