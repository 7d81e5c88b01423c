-- ===== src/Device/WebSocket/Xor.antt =====
-- About `^` on bytes, with which websocket.py masks.
use Prim.Native.Nat.{bit_xor}
use ha_codex_voice.Prelude.{
  ℕ, zero, suc, ◌<◌, ◌≡◌, refl, sym, Bool, true, false, ◌==◌, if◌then◌else◌, arith,
}

-- a test of one byte against every key byte under a bound
unmasks : (limit byte : ℕ) → Bool
unmasks zero byte = true
unmasks (suc key) byte =
    let others = unmasks key byte in
    if byte == bit_xor (bit_xor byte key) key then others else false

-- and of every byte under a bound
unmask_all : (limit : ℕ) → Bool
unmask_all zero = true
unmask_all (suc byte) = let others = unmask_all byte in if unmasks 256 byte then others else false

unmask_all_bytes : unmask_all 256 ≡ true
unfolding unmask_all unmasks
unmask_all_bytes = refl

unmasks-bit_xor :
    (limit byte key : ℕ)
    → key < limit
    → unmasks limit byte ≡ true
    → byte ≡ bit_xor (bit_xor byte key) key
unfolding unmasks
unmasks-bit_xor zero byte key k h = absurd (omega arith)
unmasks-bit_xor (suc limit) byte key k h = ground (arith, unmasks-bit_xor limit byte key)

unmask_all-unmasks :
    (limit byte : ℕ) → byte < limit → unmask_all limit ≡ true → unmasks 256 byte ≡ true
unfolding unmask_all
unmask_all-unmasks zero byte b h = absurd (omega arith)
unmask_all-unmasks (suc limit) byte b h = ground (arith, unmask_all-unmasks limit byte)

pub bit_xor_toggle : (x k : ℕ) → x < 256 → k < 256 → bit_xor (bit_xor x k) k ≡ x
bit_xor_toggle x k hx hk =
    sym (unmasks-bit_xor 256 x k hk (unmask_all-unmasks 256 x hx unmask_all_bytes))
