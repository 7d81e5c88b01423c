-- ===== src/Examples/Transport.antt =====
-- Tests of the WebSocket transport, and its theorems at concrete inputs.
use ha_codex_voice.Prelude.{
  ℕ, ◌≤◌, ◌≡◌, refl, true, false, none, some, List, [], ◌∷◌, ◌++◌, take, arith, length-take,
  IsBytes,
}
use ha_codex_voice.Prelude.Action.{returned}
use ha_codex_voice.Prelude.Hoare.{Post}
use ha_codex_voice.Device.WebSocket.Frame.{Frame, split_frame, frame_metadata, encode_client_frame}
use ha_codex_voice.Device.WebSocket.ServerFrames.{server_frame, Fits, split_frame-server_frame}
use ha_codex_voice.Device.WebSocket.Canonical.{server_frame-split_frame}
use ha_codex_voice.Device.WebSocket.ClientFrames.{
  server_decode, bytes_of, server_decode-encode_client_frame,
}
use ha_codex_voice.Device.WebSocket.Connection.{
  Connection, Network, chunk, text, receive_message, receive_loop, turn, read_frame, on_frame,
  receive_some, decode_message,
}
use ha_codex_voice.Device.WebSocket.Utf8.{is_utf8}
use ha_codex_voice.Device.WebSocket.Contracts.{IsSound, RecvBounded, Delivers, Stopped}
use ha_codex_voice.Device.WebSocket.Receive.{receive_message_sound}
use ha_codex_voice.Device.WebSocket.Reassembly.{
  deliver, continuations, joined, receive_message_reassembles,
}

-- A text frame with "Hi", unmasked.
abbrev hi_frame : Frame
hi_frame = record { final = true; opcode = 1; payload = 72 ∷ 105 ∷ [] }

abbrev hi_bytes : List ℕ
hi_bytes = 129 ∷ 2 ∷ 72 ∷ 105 ∷ []

abbrev key : List ℕ
key = 55 ∷ 250 ∷ 33 ∷ 61 ∷ []

abbrev network : Network
network = record {
  urandom = λ _. key;
  sendall = λ _. true;
  recv = λ call n. chunk (take n hi_bytes);
}

network-RecvBounded : RecvBounded network
network-RecvBounded call n bs e = ground (arith, length-take n hi_bytes, e)

abbrev started : List ℕ → Connection
started buffer = record {
  buffer = buffer;
  max_message_bytes = 64;
  fragment_opcode = none;
  fragment = [];
  close_sent = false;
  is_closed = false;
  sent = [];
  send_calls = 0;
  recv_calls = 0;
}

started-IsSound : IsSound 64 (started [])
started-IsSound = record {
  bound = refl;
  buffered = omega arith;
  fragments = omega arith;
  one_close = omega arith;
}

hi-Fits : Fits 64 hi_frame
hi-Fits = ground arith

server_frame_test : server_frame hi_frame ≡ hi_bytes
unfolding server_frame
server_frame_test = refl

receive_message_test :
    (receive_message network (started [])).0 ≡ returned (some (text (72 ∷ 105 ∷ [])))
unfolding receive_message receive_loop turn read_frame split_frame frame_metadata on_frame
    receive_some decode_message is_utf8
receive_message_test = refl

receive_message_sound_example :
    Post (λ m c. IsSound 64 c × Delivers 64 m) (Stopped 64) (receive_message network (started []))
receive_message_sound_example =
    receive_message_sound 64 network network-RecvBounded (started []) started-IsSound

split_frame-server_frame_example :
    split_frame 64 (server_frame hi_frame ++ (137 ∷ [])) ≡ returned (some (hi_frame, 137 ∷ []))
split_frame-server_frame_example = split_frame-server_frame 64 hi_frame (137 ∷ []) hi-Fits

hi-IsBytes : IsBytes hi_bytes
hi-IsBytes = ground arith

split_hi : split_frame 64 hi_bytes ≡ returned (some (hi_frame, []))
unfolding split_frame frame_metadata
split_hi = refl

server_frame-split_frame_example : hi_bytes ≡ server_frame hi_frame ++ []
server_frame-split_frame_example =
    server_frame-split_frame 64 hi_bytes [] hi_frame hi-IsBytes split_hi

server_decode-encode_client_frame_example :
    server_decode (bytes_of (encode_client_frame 1 (72 ∷ 105 ∷ []) key) ++ [])
    ≡ some (1, 72 ∷ 105 ∷ [])
server_decode-encode_client_frame_example =
    server_decode-encode_client_frame 1 (72 ∷ 105 ∷ []) key [] refl
      (λ (h : 8 ≤ 1). absurd (omega arith)) (omega arith) refl (ground arith) (ground arith)

-- "Hi" in two fragments.
abbrev two_fragments : List ℕ
two_fragments =
    server_frame (record { final = false; opcode = 1; payload = 72 ∷ [] })
    ++ (continuations [] (105 ∷ []) ++ [])

receive_message_reassembles_example :
    receive_message network (started two_fragments)
    ≡ deliver 1
        ((72 ∷ []) ++ joined [] (105 ∷ []))
        (record (started two_fragments) { buffer = []; fragment_opcode = none; fragment = [] })
receive_message_reassembles_example =
    receive_message_reassembles network (started two_fragments) 1 (72 ∷ []) [] (105 ∷ []) [] refl
      refl refl (omega arith) (omega arith)
