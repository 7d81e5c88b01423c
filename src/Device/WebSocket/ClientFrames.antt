-- ===== src/Device/WebSocket/ClientFrames.antt =====
-- `encode_client_frame` against an independent decoder of masked frames, as a server has it.
use Prim.Native.Nat.{bit_xor}
use ha_codex_voice.Prelude.{
  ◌∙◌, ℕ, zero, suc, ◌+◌, ◌-◌, ◌%◌, ◌^◌, ◌≤◌, ◌<◌, ◌≡◌, refl, ap, inl, inr, true, Option, none,
  some, List, [], ◌∷◌, ◌++◌, length, take, ltb, ◌==◌, if◌then◌else◌, arith, take-append_length,
  IsBytes, lt→ltb, le→ltb, le→leb, lt→leb, append_assoc,
}
use ha_codex_voice.Prelude.Action.{Outcome, returned, raised}
use ha_codex_voice.Device.WebSocket.Frame.{
  Fault, pack_16, pack_64, unpack, unpack_16, key_byte, mask_from, is_outgoing, client_length,
  encode_client_frame,
}
use ha_codex_voice.Device.WebSocket.Xor.{bit_xor_toggle}
use ha_codex_voice.Device.WebSocket.ServerFrames.{size_cases, unpack-pack_16, unpack-pack_64}

-- RFC 6455, section 5.3, on the server: the four bytes of the key take turns.
unmasked : ℕ → ℕ → ℕ → ℕ → List ℕ → List ℕ
unmasked a b c d [] = []
unmasked a b c d (x ∷ xs) = bit_xor x a ∷ unmasked b c d a xs

-- The key, then so many masked bytes.
unmask : ℕ → List ℕ → Option (List ℕ)
unfolding unmasked
unmask n (a ∷ b ∷ c ∷ d ∷ body) = some (unmasked a b c d (take n body))
unmask n _ = none

long_body : List ℕ → Option (List ℕ)
long_body (a ∷ b ∷ c ∷ d ∷ e ∷ f ∷ g ∷ h ∷ r) =
    unmask (unpack 0 (a ∷ b ∷ c ∷ d ∷ e ∷ f ∷ g ∷ h ∷ [])) r
long_body _ = none

medium_body : List ℕ → Option (List ℕ)
medium_body (a ∷ b ∷ r) = unmask (unpack_16 a b) r
medium_body _ = none

masked_body : ℕ → List ℕ → Option (List ℕ)
unfolding long_body medium_body
masked_body code r =
    if code == 254
    then medium_body r
    else if code == 255
    then long_body r
    else unmask (code - 128) r

pub server_decode : List ℕ → Option (ℕ × List ℕ)
unfolding masked_body
server_decode (first ∷ second ∷ rest) =
    if ltb second 128
    then none
    else elim (masked_body second rest) [ none ↦ none | some p ↦ some (first - 128, p) ]
server_decode _ = none

key_byte-lt : (key : List ℕ) (i : ℕ) → IsBytes key → key_byte key i < 256
key_byte-lt [] i h = omega arith
key_byte-lt (k ∷ ks) zero h = h.0
key_byte-lt (k ∷ ks) (suc i) h = key_byte-lt ks i h.1

-- The turns of the key from index `i` on undo the mask from there.
unmasked-mask_from :
    (i : ℕ) (key payload : List ℕ) (a b c d : ℕ)
    → IsBytes key
    → IsBytes payload
    → a ≡ key_byte key (i % 4)
    → b ≡ key_byte key ((i + 1) % 4)
    → c ≡ key_byte key ((i + 2) % 4)
    → d ≡ key_byte key ((i + 3) % 4)
    → unmasked a b c d (mask_from i key payload) ≡ payload
unfolding mask_from unmasked
unmasked-mask_from i key [] a b c d k p ha hb hc hd = refl
unmasked-mask_from i key (x ∷ xs) a b c d k p ha hb hc hd = cc (
  ha,
  bit_xor_toggle x (key_byte key (i % 4)) p.0 (key_byte-lt key (i % 4) k),
  unmasked-mask_from (i + 1) key xs b c d a k p.1 hb
      (hc ∙ ap (λ n. key_byte key (n % 4)) (omega arith))
      (hd ∙ ap (λ n. key_byte key (n % 4)) (omega arith)) (ha ∙ ap (key_byte key) (omega arith)),
)

length-mask_from :
    (i : ℕ) (key payload : List ℕ) → length (mask_from i key payload) ≡ length payload
unfolding mask_from
length-mask_from i key [] = refl
length-mask_from i key (x ∷ xs) = ap suc (length-mask_from (i + 1) key xs)

take-mask_from :
    (n : ℕ) (key payload rest : List ℕ)
    → length payload ≡ n
    → take n (mask_from 0 key payload ++ rest) ≡ mask_from 0 key payload
take-mask_from n key payload rest h =
    rw (← h, ← length-mask_from 0 key payload) (take-append_length (mask_from 0 key payload) rest)

unmask-mask :
    (n : ℕ) (key payload rest : List ℕ)
    → length key ≡ 4
    → IsBytes key
    → IsBytes payload
    → length payload ≡ n
    → unmask n (key ++ (mask_from 0 key payload ++ rest)) ≡ some payload
unfolding unmask
unmask-mask n (a ∷ b ∷ c ∷ d ∷ []) payload rest four k p h =
    let key = a ∷ b ∷ c ∷ d ∷ [] in
    rw (
      take-mask_from n key payload rest h,
      unmasked-mask_from 0 key payload a b c d k p refl refl refl refl,
    )
unmask-mask n _ payload rest four k p h = absurd (omega arith)

-- The three length forms are told apart, and each gives the payload back.
module _ (key payload rest : List ℕ) (four : length key ≡ 4) (k : IsBytes key)
    (p : IsBytes payload) where
  abbrev tail : List ℕ
  tail = key ++ (mask_from 0 key payload ++ rest)

  short_back : (n : ℕ) → length payload ≡ n → n < 126 → masked_body (128 + n) tail ≡ some payload
  unfolding masked_body
  short_back n e h = ground (arith, unmask-mask n key payload rest four k p e)

  medium_back :
      (n : ℕ) → length payload ≡ n → n < 65536 → masked_body 254 (pack_16 n ++ tail) ≡ some payload
  unfolding masked_body
  medium_back n e h = rw (unpack-pack_16 n h) (unmask-mask n key payload rest four k p e)

  long_back :
      (n : ℕ) → length payload ≡ n → n < 2 ^ 63 → masked_body 255 (pack_64 n ++ tail) ≡ some payload
  unfolding masked_body
  long_back n e h = rw (unpack-pack_64 n h) (unmask-mask n key payload rest four k p e)

  abbrev Decodes : ℕ → List ℕ → Type 0
  Decodes op field = server_decode ((128 + op) ∷ (field ++ tail)) ≡ some (op, payload)

  decoded :
      (op code : ℕ) (r : List ℕ)
      → 128 ≤ code
      → masked_body code r ≡ some payload
      → server_decode ((128 + op) ∷ code ∷ r) ≡ some (op, payload)
  unfolding server_decode
  decoded op code r c e = rw (le→ltb code 128 c, e) (ground arith)

  decode-client_length : (op n : ℕ) → length payload ≡ n → n < 2 ^ 63 → Decodes op (client_length n)
  decode-client_length op n e h = elim (size_cases n) [
    | inl s ↦ rw (lt→ltb _ _ s) (decoded op (128 + n) tail (omega arith) (short_back n e s))
    | inr (inl m) ↦
        rw (le→ltb _ _ m.0, le→leb n 65535 (omega (arith, m.1)))
          (decoded op 254 (pack_16 n ++ tail) (omega arith) (medium_back n e m.1))
    | inr (inr l) ↦
        let l' : 126 ≤ n = omega (arith, l) in
        rw (le→ltb _ _ l', lt→leb n 65535 (omega (arith, l)))
          (decoded op 255 (pack_64 n ++ tail) (omega arith) (long_back n e h))
  ]

-- The bytes of a sent frame, or none if the encoder raises.
abbrev pub bytes_of : Outcome Fault (List ℕ) → List ℕ
bytes_of (returned bs) = bs
bytes_of (raised _) = []

encoded :
    (opcode : ℕ) (payload key : List ℕ)
    → is_outgoing opcode ≡ true
    → (8 ≤ opcode → length payload ≤ 125)
    → length key ≡ 4
    → encode_client_frame opcode payload key
      ≡ returned
          ((128 + opcode) ∷ (client_length (length payload) ++ (key ++ mask_from 0 key payload)))
unfolding encode_client_frame
encoded opcode payload key out control four = rw out (ground (arith, four, control))

-- Every frame that `encode_client_frame` may be asked for, masked with any four bytes, is decoded
-- by a server to the opcode and the payload, whatever bytes follow it on the connection.
pub server_decode-encode_client_frame :
    (opcode : ℕ) (payload key rest : List ℕ)
    → is_outgoing opcode ≡ true
    → (8 ≤ opcode → length payload ≤ 125)
    → length payload < 2 ^ 63
    → length key ≡ 4
    → IsBytes key
    → IsBytes payload
    → server_decode (bytes_of (encode_client_frame opcode payload key) ++ rest)
      ≡ some (opcode, payload)
server_decode-encode_client_frame opcode payload key rest out control h four k p =
    rw (encoded opcode payload key out control four) (
      rw (append_assoc, append_assoc)
        (decode-client_length key payload rest four k p opcode (length payload) refl h))
