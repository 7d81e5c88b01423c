-- ===== src/Device/WebSocket/Reassembly.antt =====
-- About `receive_message` of websocket.py on a fragmented message.
use ha_codex_voice.Prelude.{
  ℕ, zero, suc, ◌+◌, ◌^◌, ◌≤◌, ◌<◌, ◌≡◌, refl, ap, ◌∙◌, Bool, true, false, ◌||◌, Option, none, some,
  List, [], ◌∷◌, ◌++◌, length, append_assoc, ◌==◌, arith, length-append, le→ltb,
}
use ha_codex_voice.Prelude.Action.{Outcome, returned, raised, pure, resume, ◌>>=◌}
use ha_codex_voice.Device.WebSocket.Frame.{Fault, op_text, op_binary, Frame}
use ha_codex_voice.Device.WebSocket.ServerFrames.{server_frame, split_frame-server_frame, Fits}
use ha_codex_voice.Device.WebSocket.Connection.{
  Network, Connection, Message, again, message, after_turn, append_fragment, decode_message,
  on_frame, turn, receive_loop, receive_message, Method, read_frame,
}

abbrev part : Bool → ℕ → List ℕ → Frame
part final opcode payload = record { final = final; opcode = opcode; payload = payload }

-- The continuation frames of the payloads, the last of them final.
abbrev pub continuations : List (List ℕ) → List ℕ → List ℕ
continuations [] last = server_frame (part true 0 last)
continuations (p ∷ ps) last = server_frame (part false 0 p) ++ continuations ps last

abbrev pub joined : List (List ℕ) → List ℕ → List ℕ
joined [] last = last
joined (p ∷ ps) last = p ++ joined ps last

-- The message is decoded, with the buffer behind the frames and no fragments left.
abbrev pub deliver : ℕ → List ℕ → Method (Option Message)
deliver opcode payload = decode_message opcode payload >>= λ m. pure (some m)

abbrev ready : Connection → List ℕ → Connection
ready c rest = record c { buffer = rest; fragment_opcode = none; fragment = [] }

Fits-part :
    (max op : ℕ) (final : Bool) (p : List ℕ)
    → op < 8
    → length p ≤ max
    → max < 2 ^ 63
    → Fits max (part final op p)
Fits-part max op final p o l m =
    (omega arith, omega arith, λ (k : 8 ≤ op). absurd (omega arith), λ _. l)

module _ (net : Network) (ra cf : Bool) (c : Connection) (f : Frame) (rest : List ℕ) where
  turn-on_frame :
      Fits c.max_message_bytes f
      → c.buffer ≡ server_frame f ++ rest
      → turn net ra cf c ≡ on_frame net ra f (record c { buffer = rest })
  unfolding turn read_frame
  turn-on_frame fits e = rw (e, split_frame-server_frame c.max_message_bytes f rest fits) refl

module _ (net : Network) (ra : Bool) where
  on_first :
      (op : ℕ) (p : List ℕ) (c : Connection)
      → ((op == op_text) || (op == op_binary)) ≡ true
      → c.fragment_opcode ≡ none
      → length p ≤ c.max_message_bytes
      → on_frame net ra (part false op p) c
        ≡ (returned (again ra true), record c { fragment_opcode = some op; fragment = p })
  unfolding on_frame append_fragment
  on_first op p c o e h = ground arith

  on_middle :
      (op : ℕ) (p : List ℕ) (c : Connection)
      → c.fragment_opcode ≡ some op
      → length c.fragment + length p ≤ c.max_message_bytes
      → on_frame net ra (part false 0 p) c
        ≡ (returned (again ra true), record c { fragment = c.fragment ++ p })
  unfolding on_frame append_fragment
  on_middle op p c e h = ground arith

  on_last :
      (op : ℕ) (p : List ℕ) (c : Connection)
      → c.fragment_opcode ≡ some op
      → length c.fragment + length p ≤ c.max_message_bytes
      → on_frame net ra (part true 0 p) c
        ≡ (decode_message op (c.fragment ++ p) >>= λ m. pure (message m)) (ready c c.buffer)
  unfolding on_frame append_fragment
  on_last op p c e h = rw (e, le→ltb _ _ h)

resumed :
    (next : Bool → Bool → Method (Option Message)) (r : Outcome Fault Message) (s : Connection)
    → let r' = resume r (λ m. pure (message m)) s in
      after_turn next r'.0 r'.1 ≡ resume r (λ m. pure (some m)) s
resumed next (returned m) s = refl
resumed next (raised e) s = refl

module _ (net : Network) (op : ℕ) (rest : List ℕ) where
  -- one turn that goes on
  loop_again :
      (fuel : ℕ) (ra cf : Bool) (c c' : Connection)
      → turn net ra cf c ≡ (returned (again ra true), c')
      → receive_loop net (suc fuel) ra cf c ≡ receive_loop net fuel ra true c'
  unfolding receive_loop
  loop_again fuel ra cf c c' e = rw e

  loop_last :
      (fuel : ℕ) (ra cf : Bool) (c c' : Connection) (payload : List ℕ)
      → turn net ra cf c ≡ (decode_message op payload >>= λ m. pure (message m)) c'
      → receive_loop net (suc fuel) ra cf c ≡ deliver op payload c'
  unfolding receive_loop
  loop_last fuel ra cf c c' payload e = rw e (
      resumed (receive_loop net fuel) (decode_message op payload c').0
        (decode_message op payload c').1)

  loop_fragments :
      (ps : List (List ℕ)) (last : List ℕ) (fuel : ℕ) (ra cf : Bool) (c : Connection)
      → c.buffer ≡ continuations ps last ++ rest
      → c.fragment_opcode ≡ some op
      → length c.fragment + length (joined ps last) ≤ c.max_message_bytes
      → c.max_message_bytes < 2 ^ 63
      → length ps < fuel
      → receive_loop net fuel ra cf c ≡ deliver op (c.fragment ++ joined ps last) (ready c rest)
  loop_fragments ps last zero ra cf c b e h m l = absurd (omega arith)
  loop_fragments [] last (suc fuel) ra cf c b e h m l =
      loop_last fuel ra cf c (ready c rest) (c.fragment ++ last) (
        turn-on_frame net ra cf c (part true 0 last) rest
          (Fits-part _ 0 true last (omega arith) (omega arith) m) b
        ∙ on_last net ra op last (record c { buffer = rest }) e h)
  loop_fragments (p ∷ ps) last (suc fuel) ra cf c b e h m l =
      let rest' = continuations ps last ++ rest in
      let n = length-append p (joined ps last) in
      loop_again fuel ra cf c (record c { buffer = rest'; fragment = c.fragment ++ p })
        (turn-on_frame net ra cf c (part false 0 p) rest'
            (Fits-part _ 0 false p (omega arith) (omega (arith, n)) m)
            (b ∙ append_assoc (server_frame (part false 0 p)) (continuations ps last) rest)
          ∙ on_middle net ra op p (record c { buffer = rest' }) e (omega (arith, n)))
      ∙ loop_fragments ps last fuel ra true
          (record c { buffer = rest'; fragment = c.fragment ++ p }) refl e
          (omega (arith, n, length-append c.fragment p)) m (omega arith)
      ∙ ap (λ x. deliver op x (ready c rest)) (append_assoc c.fragment p (joined ps last))

length-server_frame : (f : Frame) → 1 ≤ length (server_frame f)
unfolding server_frame
length-server_frame f = omega arith

length-continuations :
    (ps : List (List ℕ)) (last : List ℕ) → length ps ≤ length (continuations ps last)
length-continuations [] last = omega arith
length-continuations (p ∷ ps) last = omega (
  arith,
  length-server_frame (part false 0 p),
  length-append (server_frame (part false 0 p)) (continuations ps last),
  length-continuations ps last,
)

is_data : (op : ℕ) → ((op == op_text) || (op == op_binary)) ≡ true → op < 8
is_data op o = ground arith

-- When the buffer holds a whole message in fragments (a text or binary frame that is not final,
-- any number of continuations, and the final one), none is pending and together they fit the
-- bound, `receive_message` decodes the joined payloads as one message of that opcode, and leaves
-- what follows the frames in the buffer and no fragments.
pub receive_message_reassembles :
    (net : Network) (c : Connection) (op : ℕ) (p : List ℕ) (ps : List (List ℕ)) (last rest : List ℕ)
    → ((op == op_text) || (op == op_binary)) ≡ true
    → c.fragment_opcode ≡ none
    → c.buffer ≡ server_frame (part false op p) ++ (continuations ps last ++ rest)
    → length p + length (joined ps last) ≤ c.max_message_bytes
    → c.max_message_bytes < 2 ^ 63
    → receive_message net c ≡ deliver op (p ++ joined ps last) (ready c rest)
unfolding receive_message
receive_message_reassembles net c op p ps last rest o e b h m =
    let rest' = continuations ps last ++ rest in
    let c' = record c { buffer = rest'; fragment_opcode = some op; fragment = p } in
    let fuel : length c.buffer + 4098 ≡ suc (length c.buffer + 4097) = omega arith in
    ap (λ n. receive_loop net n false false c) fuel
    ∙ loop_again net op rest (length c.buffer + 4097) false false c c' (
        turn-on_frame net false false c (part false op p) rest'
          (Fits-part _ op false p (is_data op o) (omega arith) m) b
        ∙ on_first net false op p (record c { buffer = rest' }) o e (omega arith))
    ∙ loop_fragments net op rest ps last (length c.buffer + 4097) false true c' refl refl h m (
        omega (
          arith,
          ap length b,
          length-append (server_frame (part false op p)) rest',
          length-append (continuations ps last) rest,
          length-continuations ps last,
        ))
