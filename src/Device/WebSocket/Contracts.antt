-- ===== src/Device/WebSocket/Contracts.antt =====
-- A contract for each method that `receive_message` of websocket.py calls.
use ha_codex_voice.Prelude.{
  ℕ, ◌+◌, ◌-◌, ◌%◌, ◌≤◌, ◌<◌, ◌≡◌, refl, inl, inr, min, Bool, true, false, ◌||◌, Option, none, some,
  List, [], ◌∷◌, ◌++◌, length, leb, ◌==◌, if◌then◌else◌, arith, Bool-cases, length-append,
}
use ha_codex_voice.Prelude.Action.{Outcome, returned, raised, pure, ◌>>=◌, ◌>>◌}
use ha_codex_voice.Prelude.Hoare.{Post, Meets, Meets-bind, Meets-then}
use ha_codex_voice.Device.WebSocket.Frame.{Fault, op_close, op_pong, Frame}
use ha_codex_voice.Device.WebSocket.Utf8.{is_utf8}
use ha_codex_voice.Device.WebSocket.Bounds.{IsReal, IsBounded, RaisesReal, encode_client_frame-real}
use ha_codex_voice.Device.WebSocket.Connection.{
  Received, would_block, eof, chunk, failed, Network, Connection, Message, text, binary, pong, Turn,
  finished, again, next_turn, message, append_fragment, decode_message, send_frame, take_received,
  receive_some, check_close, answer_close, handle_control, complete_fragments, on_continuation,
  first_fragment, on_frame,
}

-- The documented contract of `socket.recv(n)`: at most `n` bytes.
abbrev pub RecvBounded : Network → Type 0
RecvBounded net = (call n : ℕ) (bs : List ℕ) → net.recv call n ≡ chunk bs → length bs ≤ n

-- How many close frames were sent.
abbrev pub closes : List (ℕ × List ℕ) → ℕ
closes [] = 0
closes ((op, _) ∷ fs) = (if op == op_close then 1 else 0) + closes fs

abbrev pub one_if : Bool → ℕ
one_if true = 1
one_if false = 0

pub record IsSound (max : ℕ) (c : Connection) : Type 0 where
  pub bound : c.max_message_bytes ≡ max
  pub buffered : length c.buffer ≤ max + 16384
  pub fragments : length c.fragment ≤ max
  pub one_close : closes c.sent ≤ one_if c.close_sent

-- The messages that may be handed over.
abbrev pub IsWithin : ℕ → Message → Type 0
IsWithin max (text bs) = (length bs ≤ max) × (length bs ≤ 16384) × (is_utf8 bs ≡ true)
IsWithin max (binary bs) = (0 < length bs) × (length bs % 2 ≡ 0) × (length bs ≤ max)
IsWithin max (pong bs) = length bs ≤ 125

abbrev pub Stopped : ℕ → Fault → Connection → Type 0
Stopped max e c = IsSound max c × IsReal e

closes-append : (xs ys : List (ℕ × List ℕ)) → closes (xs ++ ys) ≡ closes xs + closes ys
closes-append [] ys = omega arith
closes-append ((op, p) ∷ xs) ys = omega (arith, closes-append xs ys)

-- `n` bounds the buffer, on which the loop's measure stands.
abbrev pub Below : ℕ → ℕ → Connection → Type 0
Below max n c = IsSound max c × (length c.buffer ≤ n)

check_close-real : (payload : List ℕ) → RaisesReal (check_close payload)
unfolding check_close
check_close-real [] = tt
check_close-real (_ ∷ []) = tt
check_close-real (a ∷ b ∷ r) = ground arith

-- What a method hands over for the loop to return: nothing, or a message within the bounds.
abbrev pub Delivers : ℕ → Option Message → Type 0
Delivers max none = Unit
Delivers max (some m) = IsWithin max m

-- What is left to do: the bytes, and the one read that adds at most 4096.
abbrev pub weight : Bool → Bool → Connection → ℕ
weight read_attempted consumed_frame c =
    length c.buffer + (if read_attempted || consumed_frame then 0 else 4097)

abbrev pub Went : ℕ → ℕ → Turn → Connection → Type 0
Went max n (finished m) c = IsSound max c × Delivers max m
Went max n (again r f) c = IsSound max c × (weight r f c ≤ n)

abbrev pub Sooner : ℕ → ℕ → Turn → Connection → Type 0
Sooner max w (finished m) c = IsSound max c × Delivers max m
Sooner max w (again r f) c = IsSound max c × (weight r f c < w)

module _ (max n : ℕ) where
  append_fragment-Meets :
      (payload : List ℕ)
      → Meets (Below max n) (append_fragment payload) (λ _. Below max n) (Stopped max)
  unfolding append_fragment
  append_fragment-Meets payload = record {
    at = λ c h. ground (arith, length-append c.fragment payload);
  }

  decode_message-Meets :
      (opcode : ℕ) (payload : List ℕ)
      → length payload ≤ max
      → Meets
          (Below max n)
          (decode_message opcode payload)
          (λ m c. Below max n c × IsWithin max m)
          (Stopped max)
  unfolding decode_message
  decode_message-Meets opcode [] fits = record { at = λ c h. ground arith }
  decode_message-Meets opcode (b ∷ bs) fits = record { at = λ c h. ground arith }

  -- What `recv` answers is no longer than was asked for, and the buffer had so much room.
  take_received-Post :
      (r : Received) (size : ℕ) (c : Connection)
      → ((bs : List ℕ) → r ≡ chunk bs → length bs ≤ size)
      → IsSound max c
      → length c.buffer + size ≤ n
      → length c.buffer + size ≤ max + 16384
      → Post (λ _. Below max n) (Stopped max) (take_received r c)
  take_received-Post would_block size c law h p q = ground arith
  take_received-Post eof size c law h p q = ground arith
  take_received-Post failed size c law h p q = ground arith
  take_received-Post (chunk []) size c law h p q = ground arith
  take_received-Post (chunk (b ∷ bs)) size c law h p q =
      ground (arith, law (b ∷ bs) refl, length-append c.buffer (b ∷ bs))

  next_turn-Meets :
      (ra : Bool) (m : Option Message)
      → Meets
          (λ c. Below max n c × Delivers max m)
          (pure (next_turn ra m))
          (Went max n)
          (Stopped max)
  next_turn-Meets ra none = record { at = λ c h. (h.0.0, ground arith) }
  next_turn-Meets ra (some m) = record { at = λ c h. (h.0.0, h.1) }

  message-Meets :
      (opcode : ℕ) (payload : List ℕ)
      → length payload ≤ max
      → Meets
          (Below max n)
          (decode_message opcode payload >>= λ m. pure (message m))
          (Went max n)
          (Stopped max)
  message-Meets opcode payload fits =
      Meets-bind _ _ _ (decode_message-Meets opcode payload fits)
        λ m. record { at = λ c h. (h.0.0, h.1) }

  complete_fragments-Meets :
      (opcode : ℕ) → Meets (Below max n) (complete_fragments opcode) (Went max n) (Stopped max)
  complete_fragments-Meets opcode = record {
    at = λ c h. (message-Meets opcode c.fragment h.0.fragments).at _ (omega arith);
  }

  again-Meets : (ra : Bool) → Meets (Below max n) (pure (again ra true)) (Went max n) (Stopped max)
  again-Meets ra = record { at = λ c h. (h.0, ground arith) }

  on_continuation-Meets :
      (ra : Bool) (o : Option ℕ) (f : Frame)
      → Meets (Below max n) (on_continuation ra o f) (Went max n) (Stopped max)
  on_continuation-Meets ra none f = record { at = λ c h. (h.0, tt) }
  on_continuation-Meets ra (some opcode) f =
      Meets-then _ _ _ (append_fragment-Meets f.payload) λ _. go f.final
    where
      go :
          (final : Bool)
          → Meets
              (Below max n)
              (if final then complete_fragments opcode else pure (again ra true))
              (Went max n)
              (Stopped max)
      go true = complete_fragments-Meets opcode
      go false = again-Meets ra

  first_fragment-Meets :
      (ra : Bool) (f : Frame) → Meets (Below max n) (first_fragment ra f) (Went max n) (Stopped max)
  first_fragment-Meets ra f = record {
    at = λ c h.
        (Meets-then _ _ _ (append_fragment-Meets f.payload) λ _. again-Meets ra).at _ (omega arith);
  }

  module _ (net : Network) where
    send_frame-Meets :
        (opcode : ℕ) (payload : List ℕ)
        → (opcode == op_close) ≡ false
        → Meets (Below max n) (send_frame net opcode payload) (λ _. Below max n) (Stopped max)
    unfolding send_frame
    send_frame-Meets opcode payload other = record {
      at = λ c h. ground (
        arith,
        other,
        encode_client_frame-real opcode payload (net.urandom c.send_calls),
        closes-append c.sent ((opcode, payload) ∷ []),
      );
    }

    answer_close-Meets :
        (payload : List ℕ)
        → Meets (Below max n) (answer_close net payload) (λ _. Below max n) (Stopped max)
    unfolding answer_close send_frame
    answer_close-Meets payload = record {
      at = λ c h. ground (
        arith,
        encode_client_frame-real op_close payload (net.urandom c.send_calls),
        closes-append c.sent ((op_close, payload) ∷ []),
      );
    }

    handle_control-Meets :
        (f : Frame)
        → length f.payload ≤ 125
        → Meets
            (Below max n)
            (handle_control net f)
            (λ m c. Below max n c × Delivers max m)
            (Stopped max)
    unfolding handle_control
    handle_control-Meets f short = record {
      at = λ c h. ground (
        arith,
        (send_frame-Meets op_pong f.payload refl).at c h,
        check_close-real f.payload,
        (answer_close-Meets f.payload).at c h,
      );
    }

    -- the frames of the loop, one lemma for each branch
    control-Went :
        (ra : Bool) (f : Frame) (c : Connection)
        → length f.payload ≤ 125
        → Below max n c
        → Post (Went max n) (Stopped max) ((handle_control net f >>= λ m. pure (next_turn ra m)) c)
    control-Went ra f c short h =
        (Meets-bind _ _ _ (handle_control-Meets f short) λ m. next_turn-Meets ra m).at c h

    pub on_frame-Meets :
        (ra : Bool) (f : Frame)
        → IsBounded max f
        → Meets (Below max n) (on_frame net ra f) (Went max n) (Stopped max)
    unfolding on_frame
    on_frame-Meets ra f b = record {
      at = λ c h. elim (Bool-cases (leb op_close f.opcode)) [
        | inl control ↦ rw control (control-Went ra f c (ground arith) h)
        | inr data_frame ↦ rw data_frame (
            ground (
              arith,
              (on_continuation-Meets ra c.fragment_opcode f).at c h,
              (message-Meets f.opcode f.payload (ground arith)).at c h,
              (first_fragment-Meets ra f).at c h,
            ))
      ];
    }

  receive_some-Meets :
      (net : Network)
      → RecvBounded net
      → Meets
          (λ c. IsSound max c × (length c.buffer + 4096 ≤ n))
          (receive_some net)
          (λ _. Below max n)
          (Stopped max)
  unfolding receive_some
  receive_some-Meets net law = record {
    at = λ c h.
        let size = min 4096 (c.max_message_bytes + 16384 - length c.buffer) in
        ground (
          arith,
          take_received-Post (net.recv c.recv_calls size) size
              (record c { recv_calls = c.recv_calls + 1 }) (λ bs e. law c.recv_calls size bs e),
        );
  }

  module _ (net : Network) (law : RecvBounded net) where
    pub read-Went :
        (c : Connection) (cf : Bool)
        → cf ≡ false
        → IsSound max c
        → length c.buffer + 4096 ≤ n
        → Post (Went max n) (Stopped max) ((receive_some net >> pure (again true cf)) c)
    read-Went c cf e h p =
        (Meets-then _ _ _ (receive_some-Meets net law) λ _. read_again).at c (h, p)
      where
        read_again : Meets (Below max n) (pure (again true cf)) (Went max n) (Stopped max)
        read_again = record { at = λ c h. (h.0, ground arith) }

  pub sooner :
      (m : ℕ) (r : Outcome Fault Turn × Connection)
      → n < m
      → Post (Went max n) (Stopped max) r
      → Post (Sooner max m) (Stopped max) r
  sooner m (returned (finished d), c) p h = h
  sooner m (returned (again ra cf), c) p h = (h.0, omega arith)
  sooner m (raised e, c) p h = h
