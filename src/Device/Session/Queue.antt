-- ===== src/Device/Session/Queue.antt =====
-- The bounded queue against a plain list of packets.
use ha_codex_voice.Prelude.{
  ℕ, ◌+◌, ◌≤◌, ◌≡◌, refl, Bool, Option, none, some, List, [], ◌∷◌, ◌++◌, length, leb, if◌then◌else◌,
  arith,
}
use ha_codex_voice.Device.Session.Audio.{AudioPacket, AudioQueue, put, pop, pop_front, clear}

abbrev pub total : List AudioPacket → ℕ
total [] = 0
total (p ∷ ps) = length p.samples + total ps

total-append : (ps qs : List AudioPacket) → total (ps ++ qs) ≡ total ps + total qs
total-append [] qs = omega arith
total-append (p ∷ ps) qs = omega (arith, total-append ps qs)

-- The count is that of the packets, and within the bound.
pub record IsCounted (q : AudioQueue) : Type 0 where
  pub counted : q.bytes ≡ total q.items
  pub within : q.bytes ≤ q.maximum_bytes

-- `put` as its callers see it: a packet goes to the end exactly when it fits.
abbrev pub Puts : AudioPacket → AudioQueue → Bool × AudioQueue → Type 0
Puts p q (stored, q') =
    IsCounted q'
    × (stored ≡ leb (total q.items + length p.samples) q.maximum_bytes)
    × (q'.items ≡ (if stored then q.items ++ p ∷ [] else q.items))
    × (q'.maximum_bytes ≡ q.maximum_bytes)

-- On a queue whose count is that of its packets, `put` appends the packet exactly when it fits, else it
-- changes no packet; the count stays right and within the bound.
pub put-Puts : (p : AudioPacket) (q : AudioQueue) → IsCounted q → Puts p q (put p q)
unfolding put
put-Puts p q h = ground (arith, total-append q.items (p ∷ []))

-- `pop` as its callers see it: the oldest packet and the count of the others.
abbrev pub Pops : AudioQueue → (Option AudioPacket × ℕ) × AudioQueue → Type 0
Pops q ((none, n), q') = (q.items ≡ []) × (n ≡ 0) × IsCounted q'
Pops q ((some p, n), q') = (q.items ≡ p ∷ q'.items) × (n ≡ length q'.items) × IsCounted q'

pop_front-Pops :
    (q : AudioQueue) (l : List AudioPacket) → q.items ≡ l → IsCounted q → Pops q (pop_front l q)
pop_front-Pops q [] e h = (e, refl, h)
pop_front-Pops q (p ∷ ps) e h = (e, refl, ground arith)

-- On such a queue `pop` gives the oldest packet, with the number of those that stay, exactly when there
-- is one; the count stays right and within the bound.
pub pop-Pops : (q : AudioQueue) → IsCounted q → Pops q (pop q)
unfolding pop
pop-Pops q h = pop_front-Pops q q.items refl h

pub clear-IsCounted : (q : AudioQueue) → IsCounted (clear q)
unfolding clear
clear-IsCounted q = ground arith
