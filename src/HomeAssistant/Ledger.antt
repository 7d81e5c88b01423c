-- ===== src/HomeAssistant/Ledger.antt =====
-- About the ledger of one connection of custom_components/codex_voice/realtime_tools.py: the call ids
-- that were seen, executed and answered.
use ha_codex_voice.Prelude.{
  if_elim, ℕ, suc, ◌+◌, ◌≤◌, ◌<◌, ◌≡◌, refl, String, str_eq, str_eq_iff, Bool, true, false, not,
  ◌||◌, Option, none, some, List, [], ◌∷◌, length, if◌then◌else◌, All, arith, sym, inl, inr,
  Bool-cases, subst,
}
use ha_codex_voice.Json.{member}
use ha_codex_voice.HomeAssistant.ToolClient.{
  ServeFault, ToolResult, Task, calling, sending, ToolClient, end_connection, shut, add_task,
  without, find_task, task_id, discard, send_result,
}

abbrev pub one_if : Bool → ℕ
one_if b = if b then 1 else 0

-- How many entries have the key.
abbrev pub count : {A : Type 0} → (A → String) → String → List A → ℕ
count key q [] = 0
count key q (x ∷ xs) = (if str_eq q (key x) then 1 else 0) + count key q xs

abbrev pub answers : String → ToolClient → ℕ
answers q c = count task_id q c.pending_calls + count (λ r. r.call_id) q c.results

abbrev pub executed : String → ToolClient → ℕ
executed q c = count (λ e. e.call_id) q c.executions

pub record IsOnce (c : ToolClient) : Type 0 where
  -- no call id is executed twice, or without being seen
  pub executed_once : (q : String) → executed q c ≤ (if member q c.seen_call_ids then 1 else 0)
  -- it leads to at most one result, sent or pending
  pub answered_once : (q : String) → answers q c ≤ (if member q c.seen_call_ids then 1 else 0)
  pub pending : length c.pending_calls ≤ 16
  pub seen : length c.seen_call_ids ≤ 1024
  -- only the registered tools are executed
  pub known : All (λ e. member e.tool_name c.tool_names ≡ true) c.executions

-- A call id that is seen and has no result yet, with room for one task more.
pub record IsOwed (id : String) (c : ToolClient) : Type 0 where
  pub once : IsOnce c
  pub noted : member id c.seen_call_ids ≡ true
  pub unanswered : answers id c ≡ 0
  pub room : length c.pending_calls < 16

pub shut-IsOnce : (c : ToolClient) → IsOnce c → IsOnce (shut c)
shut-IsOnce c h = record {
  executed_once = h.executed_once;
  answered_once = h.answered_once;
  pending = h.pending;
  seen = h.seen;
  known = h.known;
}

-- One more of a key that is noted and was not there.
pub one_more :
    (q id : String) (n : ℕ) (seen : List String)
    → member id seen ≡ true
    → (q ≡ id → n ≡ 0)
    → n ≤ one_if (member q seen)
    → one_if (str_eq q id) + n ≤ one_if (member q seen)
one_more q id n seen noted fresh h = elim (Bool-cases (str_eq q id)) [
  | inl e ↦ let p = (str_eq_iff q id).0 e in rw e (rw (fresh p) (rw p (rw noted (omega arith))))
  | inr e ↦ rw e (omega (arith, h))
]

pub add-IsOnce : (t : Task) (c : ToolClient) → IsOwed (task_id t) c → IsOnce (add_task t c)
add-IsOnce t c h = record {
  executed_once = h.once.executed_once;
  answered_once = λ q. omega (
    arith,
    one_more q (task_id t) (answers q c) c.seen_call_ids h.noted
        (λ p. subst (λ i. answers i c ≡ 0) (sym p) h.unanswered) (h.once.answered_once q),
  );
  pending = h.room;
  seen = h.once.seen;
  known = h.once.known;
}

pub without_lem :
    (id : String) (ts : List Task) (t : Task)
    → find_task id ts ≡ some t
    → ((q : String)
        → one_if (str_eq q (task_id t)) + count task_id q (without id ts) ≡ count task_id q ts)
      × (suc (length (without id ts)) ≡ length ts)
unfolding find_task without
without_lem id [] t f = ground (arith, f)
without_lem id (t' ∷ ts) t f = elim (Bool-cases (str_eq id (task_id t'))) [
  | inl e ↦ here (some_inj (rw e at f)) e
  | inr e ↦ rw e (there (without_lem id ts t (rw e at f)))
]
  where
    some_inj : {a b : Task} → some a ≡ some b → a ≡ b
    some_inj p = ground (arith, p)

    there :
        ((q : String)
            → one_if (str_eq q (task_id t)) + count task_id q (without id ts) ≡ count task_id q ts)
          × (suc (length (without id ts)) ≡ length ts)
        → ((q : String)
            → one_if (str_eq q (task_id t)) + count task_id q (t' ∷ without id ts)
              ≡ count task_id q (t' ∷ ts))
          × (suc (length (t' ∷ without id ts)) ≡ length (t' ∷ ts))
    there h = (λ q. omega (arith, h.0 q), omega (arith, h.1))

    here :
        t' ≡ t
        → str_eq id (task_id t') ≡ true
        → ((q : String)
            → one_if (str_eq q (task_id t)) + count task_id q (without id (t' ∷ ts))
              ≡ count task_id q (t' ∷ ts))
          × (suc (length (without id (t' ∷ ts))) ≡ length (t' ∷ ts))
    here p e = rw e ((λ q. rw p refl), refl)

pub end-IsOnce : (f : Option ServeFault) (c : ToolClient) → IsOnce c → IsOnce (end_connection f c)
unfolding end_connection
end-IsOnce f c h = record {
  executed_once = h.executed_once;
  answered_once = λ q. omega (arith, h.answered_once q);
  pending = omega arith;
  seen = h.seen;
  known = h.known;
}

-- A task that is found is taken out, and its result is owed.
pub discard-IsOwed :
    (id : String) (t : Task) (c : ToolClient)
    → find_task id c.pending_calls ≡ some t
    → IsOnce c
    → IsOwed (task_id t) (discard id c)
discard-IsOwed id t c f h = record {
  once = record {
    executed_once = h.executed_once;
    answered_once = λ q. omega (arith, h.answered_once q, out.0 q);
    pending = omega (arith, h.pending, out.1);
    seen = h.seen;
    known = h.known;
  };
  noted = noted_of (member (task_id t) c.seen_call_ids) (h.answered_once (task_id t));
  unanswered =
      omega (arith, h.answered_once (task_id t), own, at_most (member (task_id t) c.seen_call_ids));
  room = omega (arith, h.pending, out.1);
}
  where
    out :
        ((q : String)
          → one_if (str_eq q (task_id t)) + count task_id q (without id c.pending_calls)
            ≡ count task_id q c.pending_calls)
        × (suc (length (without id c.pending_calls)) ≡ length c.pending_calls)
    out = without_lem id c.pending_calls t f

    own :
        1 + count task_id (task_id t) (without id c.pending_calls)
        ≡ count task_id (task_id t) c.pending_calls
    own = rw ((str_eq_iff (task_id t) (task_id t)).1 refl) at (out.0 (task_id t))

    at_most : (b : Bool) → one_if b ≤ 1
    at_most true = omega arith
    at_most false = omega arith

    noted_of : (b : Bool) → answers (task_id t) c ≤ one_if b → b ≡ true
    noted_of true p = refl
    noted_of false p = ground (arith, p, own)

pub sent-IsOnce :
    (r : ToolResult) (c : ToolClient)
    → IsOwed r.call_id c
    → IsOnce (record c { results = r ∷ c.results })
sent-IsOnce r c h = record {
  executed_once = h.once.executed_once;
  answered_once = λ q. omega (
    arith,
    one_more q r.call_id (answers q c) c.seen_call_ids h.noted
        (λ p. subst (λ i. answers i c ≡ 0) (sym p) h.unanswered) (h.once.answered_once q),
  );
  pending = h.once.pending;
  seen = h.once.seen;
  known = h.once.known;
}

pub send-IsOnce :
    (id : String) (found : Option Task) (ok : Bool) (c : ToolClient)
    → find_task id c.pending_calls ≡ found
    → IsOnce c
    → IsOnce (send_result id found ok c)
unfolding send_result
send-IsOnce id none ok c f h = h
send-IsOnce id (some (calling i)) ok c f h = h
send-IsOnce id (some (sending r)) ok c f h =
    let owed = discard-IsOwed id (sending r) c f h in
    if_elim IsOnce (c.closed || not ok) _ _ (λ _. shut-IsOnce (discard id c) owed.once)
      λ _. sent-IsOnce r (discard id c) owed
