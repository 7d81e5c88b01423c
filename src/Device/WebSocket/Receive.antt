-- ===== src/Device/WebSocket/Receive.antt =====
-- About `receive_message` of websocket.py: its end, its state and its result.
use ha_codex_voice.Prelude.{
  ℕ, zero, suc, ◌+◌, ◌<◌, refl, Bool, true, false, Option, none, some, List, length, arith, subst,
}
use ha_codex_voice.Prelude.Action.{Outcome, returned, raised, ◌>>=◌}
use ha_codex_voice.Prelude.Hoare.{Post}
use ha_codex_voice.Device.WebSocket.Frame.{Fault, Frame, split_frame}
use ha_codex_voice.Device.WebSocket.Bounds.{Taken, split_frame-Taken}
use ha_codex_voice.Device.WebSocket.Connection.{
  Network, Connection, Message, Turn, finished, again, take_frame, read_frame, on_read, turn,
  after_turn, receive_loop, receive_message,
}
use ha_codex_voice.Device.WebSocket.Contracts.{
  RecvBounded, IsSound, Delivers, Stopped, weight, Sooner, read-Went, sooner, on_frame-Meets,
}

module _ (max : ℕ) (net : Network) (law : RecvBounded net) where
  turn-Sooner :
      (c : Connection) (ra cf : Bool) (r : Outcome Fault (Option (Frame × List ℕ)))
      → Taken max c.buffer r
      → IsSound max c
      → Post
          (Sooner max (weight ra cf c))
          (Stopped max)
          (((λ s. take_frame r s) >>= on_read net ra cf) c)
  turn-Sooner c ra cf (raised e) taken h = (h, taken)
  turn-Sooner c true cf (returned none) taken h = (h, tt)
  turn-Sooner c false true (returned none) taken h = (h, tt)
  turn-Sooner c false false (returned none) taken h =
      sooner max (length c.buffer + 4096) _ _ (omega arith)
        (read-Went max _ net law c false refl h (omega arith))
  turn-Sooner c ra cf (returned (some (f, rest))) taken h =
      sooner max (length rest) _ _ (ground arith)
        ((on_frame-Meets max _ net ra f taken.1).at (record c { buffer = rest }) (ground arith))

  turn-Meets :
      (c : Connection) (ra cf : Bool)
      → IsSound max c
      → Post (Sooner max (weight ra cf c)) (Stopped max) (turn net ra cf c)
  unfolding turn read_frame
  turn-Meets c ra cf h =
      turn-Sooner c ra cf _
        (subst (λ m. Taken m c.buffer (split_frame c.max_message_bytes c.buffer)) h.bound
          (split_frame-Taken c.max_message_bytes c.buffer))
        h

  abbrev IsReceived : Outcome Fault (Option Message) × Connection → Type 0
  IsReceived = Post (λ m c. IsSound max c × Delivers max m) (Stopped max)

  after_turn-Post :
      (w : ℕ) (next : Bool → Bool → Connection → Outcome Fault (Option Message) × Connection)
      → ((ra cf : Bool) (c : Connection)
          → IsSound max c
          → weight ra cf c < w
          → IsReceived (next ra cf c))
      → (r : Outcome Fault Turn × Connection) → Post (Sooner max w) (Stopped max) r
      → IsReceived (after_turn next r.0 r.1)
  after_turn-Post w next k (raised e, c) h = h
  after_turn-Post w next k (returned (finished m), c) h = h
  after_turn-Post w next k (returned (again ra cf), c) h = k ra cf c h.0 h.1

  receive_loop-Post :
      (fuel : ℕ) (ra cf : Bool) (c : Connection)
      → IsSound max c
      → weight ra cf c < fuel
      → IsReceived (receive_loop net fuel ra cf c)
  unfolding receive_loop
  receive_loop-Post zero ra cf c h w = absurd (omega arith)
  receive_loop-Post (suc fuel) ra cf c h w =
      after_turn-Post (weight ra cf c) (receive_loop net fuel)
        (λ ra' cf' c' h' w'. receive_loop-Post fuel ra' cf' c' h' (omega arith)) _
        (turn-Meets c ra cf h)

  -- From a sound connection `receive_message` ends, raising only what the program raises. The
  -- connection stays sound, so the buffer and the fragments keep within their bounds and at most
  -- one close frame is ever sent; and a message that it returns is within its bounds.
  pub receive_message_sound : (c : Connection) → IsSound max c → IsReceived (receive_message net c)
  unfolding receive_message
  receive_message_sound c h =
      receive_loop-Post (length c.buffer + 4098) false false c h (omega arith)
