-- ===== src/Bridge/AppServer/Queues.antt =====
-- About the lists of bridge/app_server.py: queues of subscribers, retired ids, ids of calls.
use ha_codex_voice.Prelude.{
  ℕ, zero, suc, ◌+◌, ◌≤◌, ◌<◌, ◌≡◌, refl, List, [], ◌∷◌, ◌++◌, length, length-append, All, arith,
  ap,
}
use ha_codex_voice.Json.{Fields}
use ha_codex_voice.Bridge.AppServer.Table.{Key, Item, remove, length-remove}
use ha_codex_voice.Bridge.AppServer.Client.{
  Subscription, broadcast, offer, close_subscription, get_nowait,
}
use ha_codex_voice.Bridge.AppServer.Responses.{retire, trim}
use ha_codex_voice.Bridge.AppServer.World.{Call, close_all, at_subscription}

-- A queue with a bound is within it.
abbrev pub IsBounded : Subscription → Type 0
IsBounded q = 0 < q.maxsize → length q.queue ≤ q.maxsize

-- Ids that ascend from `lo` to below `hi`.
abbrev pub Ascending : ℕ → List ℕ → ℕ → Type 0
Ascending lo [] hi = lo ≤ hi
Ascending lo (n ∷ ns) hi = (lo ≤ n) × Ascending (suc n) ns hi

abbrev pub request_ids : List Call → List ℕ
request_ids [] = []
request_ids (c ∷ cs) = c.request_id ∷ request_ids cs

pub broadcast-IsBounded :
    (message : Fields) (qs : List Subscription)
    → All IsBounded qs
    → All IsBounded (broadcast message qs)
unfolding broadcast offer
broadcast-IsBounded message [] h = tt
broadcast-IsBounded message (q ∷ qs) h =
    (ground (arith, h.0, length-append q.queue (message ∷ [])), broadcast-IsBounded message qs h.1)

pub at_subscription-IsBounded :
    (f : Subscription → Subscription) (n : ℕ) (qs : List Subscription)
    → ((q : Subscription) → IsBounded q → IsBounded (f q))
    → All IsBounded qs
    → All IsBounded (at_subscription n f qs)
at_subscription-IsBounded f n [] k h = tt
at_subscription-IsBounded f zero (q ∷ qs) k h = (k q h.0, h.1)
at_subscription-IsBounded f (suc n) (q ∷ qs) k h = (h.0, at_subscription-IsBounded f n qs k h.1)

pub close-IsBounded : (q : Subscription) → IsBounded q → IsBounded (close_subscription q)
unfolding close_subscription
close-IsBounded q h = ground (arith, h)

pub get_nowait-IsBounded : (q : Subscription) → IsBounded q → IsBounded (get_nowait q).1
unfolding get_nowait
get_nowait-IsBounded q h = ground (arith, h)

pub close_all-IsBounded : (qs : List Subscription) → All IsBounded qs → All IsBounded (close_all qs)
close_all-IsBounded [] h = tt
close_all-IsBounded (q ∷ qs) h = (close-IsBounded q h.0, close_all-IsBounded qs h.1)

pub length-retire :
    (key : Key) (d : List (Item (Unit {0}))) → length d ≤ 1024 → length (retire key d) ≤ 1024
unfolding retire trim
length-retire key d h = trimmed (remove key d) (omega (arith, length-remove key d))
  where
    trimmed :
        (d : List (Item (Unit {0})))
        → length d ≤ 1024
        → length (trim (d ++ (record { key = key; value = tt } ∷ []))) ≤ 1024
    trimmed [] h = omega arith
    trimmed (e ∷ d) h = ground (arith, length-append d (record { key = key; value = tt } ∷ []))

pub Ascending-snoc :
    (lo n : ℕ) (ns : List ℕ) → Ascending lo ns n → Ascending lo (ns ++ (n ∷ [])) (n + 1)
Ascending-snoc lo n [] h = (h, omega arith)
Ascending-snoc lo n (m ∷ ns) h = (h.0, Ascending-snoc (suc m) n ns h.1)

pub request_ids-snoc :
    (cs : List Call) (c : Call)
    → request_ids (cs ++ (c ∷ [])) ≡ request_ids cs ++ (c.request_id ∷ [])
request_ids-snoc [] c = refl
request_ids-snoc (d ∷ cs) c = ap (◌∷◌ d.request_id) (request_ids-snoc cs c)
