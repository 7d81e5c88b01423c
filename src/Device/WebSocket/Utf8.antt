-- ===== src/Device/WebSocket/Utf8.antt =====
-- `bytes.decode("utf-8")` as websocket.py uses it: only whether it raises `UnicodeDecodeError`.
use ha_codex_voice.Prelude.{
  ℕ, zero, suc, Bool, true, false, ◌&&◌, List, [], ◌∷◌, leb, ltb, ◌==◌, if◌then◌else◌,
}

-- Between characters; inside one, with the count of bytes after the next and the next one's range;
-- or past a byte that fits nowhere.
pub data Decoder : Type 0 where
  between : Decoder
  inside : ℕ → ℕ → ℕ → Decoder
  malformed : Decoder

lead : ℕ → Decoder
lead b =
    if ltb b 128
    then between
    else if leb 194 b && leb b 223
    then inside 0 128 191
    else if b == 224
    then inside 1 160 191
    else if b == 237
    then inside 1 128 159
    else if leb 225 b && leb b 239
    then inside 1 128 191
    else if b == 240
    then inside 2 144 191
    else if leb 241 b && leb b 243
    then inside 2 128 191
    else if b == 244
    then inside 2 128 143
    else malformed

after : ℕ → Decoder
after zero = between
after (suc n) = inside n 128 191

advance : Decoder → ℕ → Decoder
unfolding lead after
advance between b = lead b
advance (inside n low high) b = if leb low b && leb b high then after n else malformed
advance malformed b = malformed

decode_from : Decoder → List ℕ → Bool
unfolding advance
decode_from between [] = true
decode_from (inside _ _ _) [] = false
decode_from malformed [] = false
decode_from d (b ∷ bs) = decode_from (advance d b) bs

unfoldable pub is_utf8 : List ℕ → Bool
unfolding decode_from
is_utf8 bs = decode_from between bs
