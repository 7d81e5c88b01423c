-- ===== src/Bridge/ToolBroker/Entries.antt =====
-- About the entries of `_pending` of bridge/tool_broker.py, their futures and the suspended calls.
use ha_codex_voice.Prelude.{
  if_elim, ℕ, suc, ◌+◌, ◌≤◌, ◌<◌, ◌≡◌, String, Bool, true, false, some, List, [], ◌∷◌, ◌++◌, ◌==◌,
  str_eq, str_eq_iff, if◌then◌else◌, length, All, arith, sym,
}
use ha_codex_voice.Bridge.ToolBroker.Dict.{Entry, lookup, remove, All-remove}
use ha_codex_voice.Bridge.ToolBroker.Broker.{
  Future, waiting, PendingCall, Pending, settle, settle_waiting, is_waiting,
}
use ha_codex_voice.Bridge.ToolBroker.World.{Ticket, trim}

-- Futures ascend from `lo` to below `hi`, so that no two entries share one.
abbrev pub Ascending : ℕ → Pending → ℕ → Type 0
Ascending lo [] hi = lo ≤ hi
Ascending lo (e ∷ d) hi = (lo ≤ e.value.future) × Ascending (suc e.value.future) d hi

abbrev pub Waits : (ℕ → Future) → Entry PendingCall → Type 0
Waits futures e = futures e.value.future ≡ waiting

-- An entry with the call's future is the call's.
abbrev pub IsOwn : Ticket → Entry PendingCall → Type 0
IsOwn t e = e.value.future ≡ t.future → e.key ≡ t.call_id

abbrev pub Holds : ℕ → Pending → Ticket → Type 0
Holds started pending t = (t.future < started) × All (IsOwn t) pending

-- Lists of entries

pub Ascending-remove :
    (key : String) (lo hi : ℕ) (d : Pending) → Ascending lo d hi → Ascending lo (remove key d) hi
Ascending-remove key lo hi [] h = h
Ascending-remove key lo hi (e ∷ d) h = ground (
  arith,
  Ascending-remove key (suc e.value.future) hi d h.1,
  Ascending-weaken lo (suc e.value.future) hi (remove key d),
)
  where
    Ascending-weaken : (l m h : ℕ) (d : Pending) → l ≤ m → Ascending m d h → Ascending l d h
    Ascending-weaken l m h [] le a = omega arith
    Ascending-weaken l m h (e ∷ d) le a = (omega arith, a.1)

pub lookup-bound :
    (key : String) (lo hi : ℕ) (d : Pending) (c : PendingCall)
    → Ascending lo d hi
    → lookup key d ≡ some c
    → lo ≤ c.future
lookup-bound key lo hi [] c h e = ground arith
lookup-bound key lo hi (x ∷ d) c h e =
    ground (arith, lookup-bound key (suc x.value.future) hi d c h.1)

-- entries above a bound
pub Ascending-above :
    (n lo hi : ℕ) (d : Pending)
    → n < lo
    → Ascending lo d hi
    → All (λ e. (e.value.future == n) ≡ false) d
Ascending-above n lo hi [] l h = tt
Ascending-above n lo hi (x ∷ d) l h =
    (ground arith, Ascending-above n (suc x.value.future) hi d (omega arith) h.1)

pub removed-apart :
    (key : String) (lo hi : ℕ) (d : Pending) (c : PendingCall)
    → Ascending lo d hi
    → lookup key d ≡ some c
    → All (λ e. (e.value.future == c.future) ≡ false) (remove key d)
removed-apart key lo hi [] c h e = tt
removed-apart key lo hi (x ∷ d) c h e =
    go (str_eq x.key key) e (removed-apart key (suc x.value.future) hi d c h.1)
  where
    at_head :
        (b c : PendingCall)
        → b ≡ c
        → All (λ e. (e.value.future == b.future) ≡ false) (remove key d)
        → All (λ e. (e.value.future == c.future) ≡ false) (remove key d)
    at_head b c p a = rw (sym p) a

    go :
        (same : Bool)
        → (if same then some x.value else lookup key d) ≡ some c
        → (lookup key d ≡ some c → All (λ e. (e.value.future == c.future) ≡ false) (remove key d))
        → All
            (λ e. (e.value.future == c.future) ≡ false)
            (if same then remove key d else x ∷ remove key d)
    go true e f = at_head x.value c (ground arith) (
        All-remove _ key d
          (Ascending-above x.value.future (suc x.value.future) hi d (omega arith) h.1))
    go false e f = (ground (arith, lookup-bound key (suc x.value.future) hi d c h.1 e), f e)

pub owned-apart :
    (t : Ticket) (d : Pending)
    → All (IsOwn t) d
    → All (λ e. str_eq e.key t.call_id ≡ false) d
    → All (λ e. (e.value.future == t.future) ≡ false) d
owned-apart t [] h k = tt
owned-apart t (e ∷ d) h k =
    (ground (arith, str_eq_iff e.key t.call_id, h.0), owned-apart t d h.1 k.1)

pub settle-Waits :
    (n : ℕ) (f : Future) (futures : ℕ → Future) (d : Pending)
    → All (λ e. (e.value.future == n) ≡ false) d
    → All (Waits futures) d
    → All (Waits (settle n f futures)) d
settle-Waits n f futures [] a h = tt
settle-Waits n f futures (e ∷ d) a h = (ground arith, settle-Waits n f futures d a.1 h.1)

pub settle_waiting-Waits :
    (n : ℕ) (f : Future) (futures : ℕ → Future) (d : Pending)
    → All (λ e. (e.value.future == n) ≡ false) d
    → All (Waits futures) d
    → All (Waits (settle_waiting n f futures)) d
settle_waiting-Waits n f futures d a h =
    if_elim (λ g. All (Waits g) d) (is_waiting (futures n)) _ _
      (λ _. settle-Waits n f futures d a h) λ _. h

pub length-trim : (d : List (Entry String)) → length (trim d) ≤ 128
unfolding trim
length-trim [] = omega arith
length-trim (e ∷ d) = ground (arith, length-trim d)

pub Ascending-snoc :
    (lo hi : ℕ) (d : Pending) (e : Entry PendingCall)
    → Ascending lo d hi
    → e.value.future ≡ hi
    → Ascending lo (d ++ (e ∷ [])) (hi + 1)
Ascending-snoc lo hi [] e h k = ground arith
Ascending-snoc lo hi (x ∷ d) e h k = (h.0, Ascending-snoc (suc x.value.future) hi d e h.1 k)

pub Ascending-below :
    (lo hi : ℕ) (d : Pending) → Ascending lo d hi → All (λ e. e.value.future < hi) d
Ascending-below lo hi [] h = tt
Ascending-below lo hi (x ∷ d) h =
    (lookup_hi (suc x.value.future) hi d h.1, Ascending-below (suc x.value.future) hi d h.1)
  where
    lookup_hi : (lo hi : ℕ) (d : Pending) → Ascending lo d hi → lo ≤ hi
    lookup_hi lo hi [] h = h
    lookup_hi lo hi (x ∷ d) h = omega (arith, h.0, lookup_hi (suc x.value.future) hi d h.1)
