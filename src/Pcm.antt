-- ===== src/Pcm.antt =====
-- Little-endian PCM16: the samples of a byte string and the bytes of samples, as `struct` and `array`
-- of Python read and write them.
use ha_codex_voice.Prelude.{
  ℕ, ◌+◌, ◌-◌, ◌*◌, ◌/◌, ◌%◌, ◌≡◌, refl, List, [], ◌∷◌, ◌++◌, ltb, if◌then◌else◌,
}
use ha_codex_voice.Prelude.Ints.{ℤ, pos, negsuc}

-- `struct.iter_unpack("<h", value)` and `array("h").frombytes(value)`, on bytes of even count
unfoldable pub samples_of : List ℕ → List ℤ
samples_of (low ∷ high ∷ rest) =
    (if ltb high 128 then pos (256 * high + low) else negsuc (65535 - (256 * high + low)))
    ∷ samples_of rest
samples_of _ = []

-- a sample as a 16-bit word
abbrev pub word_of : ℤ → ℕ
word_of (pos n) = n % 65536
word_of (negsuc n) = 65535 - n % 65536

-- `array("h").tobytes()`
unfoldable pub bytes_of : List ℤ → List ℕ
bytes_of [] = []
bytes_of (s ∷ ss) = (word_of s % 256) ∷ (word_of s / 256) ∷ bytes_of ss

pub bytes_of-append : (a b : List ℤ) → bytes_of (a ++ b) ≡ bytes_of a ++ bytes_of b
unfolding bytes_of
bytes_of-append [] b = refl
bytes_of-append (s ∷ a) b = simp (bytes_of-append a b)
