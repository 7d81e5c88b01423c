-- ===== src/Bridge/Wire/Roles.antt =====
-- The role of a provider event of bridge/realtime_wire.py, said by its places and its names.
use ha_codex_voice.Prelude.{
  ℕ, ◌≤◌, ◌≡◌, refl, subst, ◌⊎◌, inl, inr, ◌↔◌, String, true, false, Option, none, some, List, [],
  ◌∷◌, ◌++◌, map, All, All-append, length, arith, ==_iff, Bool-cases, leb,
}
use ha_codex_voice.Json.{
  Value, null, bool, int, float, text, array, object, Fields, get, as_object, codes, text_or_none,
}
use ha_codex_voice.Bridge.Wire.Events.{
  Role, assistant, user, lower_code, same_codes, lowers_to, normalize, role_of, nested_role,
  role_candidates, event_role,
}
use ha_codex_voice.Bridge.Wire.Controls.{named_role, event_role-candidates}

-- Where an event may name its role.
pub data Place (value : Fields) : Value → Type 0 where
  top : (v : Value) → get "role" value ≡ some v → Place value v
  of_turn :
      (d : Fields) (v : Value)
      → get "turn" value ≡ some (object d)
      → get "role" d ≡ some v
      → Place value v
  of_response :
      (d : Fields) (v : Value)
      → get "response" value ≡ some (object d)
      → get "role" d ≡ some v
      → Place value v
  of_item :
      (d : Fields) (v : Value)
      → get "item" value ≡ some (object d)
      → get "role" d ≡ some v
      → Place value v

-- The text is the word but for its case.
abbrev pub Spells : String → String → Type 0
Spells s word = map lower_code (codes s) ≡ codes word

-- What a value must be to name a role.
abbrev pub Means : Role → Value → Type 0
Means assistant v = (s : String) × ((v ≡ text s) × (Spells s "assistant" ⊎ Spells s "output"))
Means user v = (s : String) × ((v ≡ text s) × (Spells s "user" ⊎ Spells s "input"))

same_codes-equal : (a b : List ℕ) → same_codes a b ≡ true → a ≡ b
same_codes-equal [] [] h = refl
same_codes-equal [] (y ∷ b) h = ground (arith, h)
same_codes-equal (x ∷ a) [] h = ground (arith, h)
same_codes-equal (x ∷ a) (y ∷ b) h =
    cc (same_codes-equal a b (ground (arith, h)), (==_iff x y).0 (ground (arith, h)))

lowers_to-Spells : (s word : String) → lowers_to s word ≡ true → Spells s word
unfolding lowers_to
lowers_to-Spells s word h = same_codes-equal _ _ h

spelled :
    (s one other : String)
    → (lowers_to s one ≡ true) ⊎ (lowers_to s other ≡ true)
    → Spells s one ⊎ Spells s other
spelled s one other (inl a) = inl (lowers_to-Spells s one a)
spelled s one other (inr a) = inr (lowers_to-Spells s other a)

text-Means : (r : Role) (s : String) → normalize s ≡ some r → Means r (text s)
text-Means assistant s h = (s, (refl, spelled s "assistant" "output" (ground (arith, h))))
text-Means user s h = (s, (refl, spelled s "user" "input" (ground (arith, h))))

named-Means : (r : Role) (v : Value) → named_role (text_or_none v) ≡ some r → Means r v
named-Means r (text s) h = text-Means r s h
named-Means r null h = ground (arith, h)
named-Means r (bool _) h = ground (arith, h)
named-Means r (int _) h = ground (arith, h)
named-Means r (float _) h = ground (arith, h)
named-Means r (array _) h = ground (arith, h)
named-Means r (object _) h = ground (arith, h)

Means-named : (r : Role) (v : Value) → Means r v → named_role (text_or_none v) ≡ some r
unfolding lowers_to
Means-named assistant v (s, (e, inl w)) = rw e (rw w refl)
Means-named assistant v (s, (e, inr w)) = rw e (rw w refl)
Means-named user v (s, (e, inl w)) = rw e (rw w refl)
Means-named user v (s, (e, inr w)) = rw e (rw w refl)

All-parts :
    (P : Option String → Type 0) (a b : List (Option String)) → All P (a ++ b) → All P a × All P b
All-parts P [] b h = (tt, h)
All-parts P (x ∷ a) b h = let (l, r) = All-parts P a b h.1 in ((h.0, l), r)

-- The places under one key.
Under : Fields → String → Value → Type 0
Under value key v = (d : Fields) × ((get key value ≡ some (object d)) × (get "role" d ≡ some v))

module _ (value : Fields) where
  nested_some :
      (P : Option String → Type 0) (key : String)
      → ((v : Value) → Under value key v → P (text_or_none v))
      → All P (nested_role key value)
  unfolding Under
  nested_some P key h = go (get key value) refl
    where
      inner :
          (d : Fields)
          → get key value ≡ some (object d)
          → (o : Option Value) → get "role" d ≡ o
          → All P (role_of o)
      inner d e none k = tt
      inner d e (some v) k = (h v (d, (e, k)), tt)

      go :
          (o : Option Value)
          → get key value ≡ o
          → All P (elim (as_object o) [ none ↦ [] | some d ↦ role_of (get "role" d) ])
      go none e = tt
      go (some (object d)) e = inner d e (get "role" d) refl
      go (some null) e = tt
      go (some (bool _)) e = tt
      go (some (int _)) e = tt
      go (some (float _)) e = tt
      go (some (text _)) e = tt
      go (some (array _)) e = tt

  nested_all :
      (P : Option String → Type 0) (key : String) (v : Value)
      → All P (nested_role key value)
      → Under value key v
      → P (text_or_none v)
  unfolding Under
  nested_all P key v h (d, (e, k)) =
      let under : All P (role_of (get "role" d)) =
        subst (λ o. All P (elim (as_object o) [ none ↦ [] | some d ↦ role_of (get "role" d) ])) e
          h in
      (subst (λ o. All P (role_of o)) k under).0

  top_some :
      (P : Option String → Type 0)
      → ((v : Value) → get "role" value ≡ some v → P (text_or_none v))
      → All P (role_of (get "role" value))
  top_some P h = go (get "role" value) refl
    where
      go : (o : Option Value) → get "role" value ≡ o → All P (role_of o)
      go none e = tt
      go (some v) e = (h v e, tt)

  sections :
      (P : Option String → Type 0)
      → All P (role_candidates value)
      → All P (role_of (get "role" value))
        × All P (nested_role "turn" value)
        × All P (nested_role "response" value)
        × All P (nested_role "item" value)
  sections P h =
      let responses = nested_role "response" value in
      let items = nested_role "item" value in
      let turns = nested_role "turn" value in
      let top = All-parts P (role_of (get "role" value)) (turns ++ (responses ++ items)) h in
      let turn = All-parts P turns (responses ++ items) top.1 in
      let rest = All-parts P responses items turn.1 in (top.0, turn.0, rest.0, rest.1)

  candidates-places :
      (P : Option String → Type 0)
      → All P (role_candidates value)
      → (v : Value) → Place value v
      → P (text_or_none v)
  unfolding Under
  candidates-places P h v (top _ e) = (subst (λ o. All P (role_of o)) e (sections P h).0).0
  candidates-places P h v (of_turn d _ e k) = nested_all P "turn" v (sections P h).1 (d, (e, k))
  candidates-places P h v (of_response d _ e k) =
      nested_all P "response" v (sections P h).2 (d, (e, k))
  candidates-places P h v (of_item d _ e k) = nested_all P "item" v (sections P h).3 (d, (e, k))

  places-candidates :
      (P : Option String → Type 0)
      → ((v : Value) → Place value v → P (text_or_none v))
      → All P (role_candidates value)
  unfolding Under
  places-candidates P h = All-append P _ _ (top_some P λ v e. h v (top v e)) (
      All-append P _ _ (nested_some P "turn" λ v u. h v (of_turn u.0 v u.1.0 u.1.1)) (
        All-append P _ _ (nested_some P "response" λ v u. h v (of_response u.0 v u.1.0 u.1.1))
          (nested_some P "item" λ v u. h v (of_item u.0 v u.1.0 u.1.1))))

  -- A list of candidates that is not empty has a place to show.
  Shown : List (Option String) → Type 0
  Shown cs = 1 ≤ length cs → (v : Value) × Place value v

  parts-Shown : (a b : List (Option String)) → Shown a → Shown b → Shown (a ++ b)
  unfolding Shown
  parts-Shown [] b x y h = y h
  parts-Shown (c ∷ a) b x y h = x (omega arith)

  Place-shown : (1 ≤ length (role_candidates value)) → (v : Value) × Place value v
  unfolding Shown
  Place-shown = parts-Shown (role_of (get "role" value)) _ (shown_top (get "role" value) refl) (
      parts-Shown (nested_role "turn" value) _
        (shown_under (get "turn" value) λ d v e k. (v, of_turn d v e k))
        (parts-Shown (nested_role "response" value) _
          (shown_under (get "response" value) λ d v e k. (v, of_response d v e k))
          (shown_under (get "item" value) λ d v e k. (v, of_item d v e k))))
    where
      shown_top : (o : Option Value) → get "role" value ≡ o → Shown (role_of o)
      shown_top none e h = ground (arith, h)
      shown_top (some v) e h = (v, top v e)

      shown_role :
          (d : Fields) (o : Option Value)
          → get "role" d ≡ o
          → ((v : Value) → get "role" d ≡ some v → (w : Value) × Place value w)
          → Shown (role_of o)
      shown_role d none e k h = ground (arith, h)
      shown_role d (some v) e k h = k v e

      shown_under :
          (o : Option Value)
          → ((d : Fields) (v : Value)
              → o ≡ some (object d)
              → get "role" d ≡ some v
              → (w : Value) × Place value w)
          → Shown (elim (as_object o) [ none ↦ [] | some d ↦ role_of (get "role" d) ])
      shown_under none k h = ground (arith, h)
      shown_under (some (object d)) k h = shown_role d (get "role" d) refl (λ v e. k d v refl e) h
      shown_under (some null) k h = ground (arith, h)
      shown_under (some (bool _)) k h = ground (arith, h)
      shown_under (some (int _)) k h = ground (arith, h)
      shown_under (some (float _)) k h = ground (arith, h)
      shown_under (some (text _)) k h = ground (arith, h)
      shown_under (some (array _)) k h = ground (arith, h)

  placed : (v : Value) → Place value v → 1 ≤ length (role_candidates value)
  placed v p = elim (Bool-cases (leb 1 (length (role_candidates value)))) [
    | inl l ↦ ground (arith, l)
    | inr l ↦ absurd (candidates-places (λ _. ⊥) (no_candidate (role_candidates value) l) v p)
  ]
    where
      no_candidate : (cs : List (Option String)) → leb 1 (length cs) ≡ false → All (λ _. ⊥) cs
      no_candidate [] l = tt
      no_candidate (c ∷ cs) l = ground (arith, l)

-- A role is read exactly when the event names one at the top or in its turn, response or item, and every
-- place that names one names it: as a text that spells "assistant" or "output", or "user" or "input", but
-- for the case of its letters. A place that holds anything else, or two that disagree, leave it unset.
pub event_role_iff :
    (value : Fields) (r : Role)
    → (event_role value ≡ some r)
      ↔ (((v : Value) × Place value v) × ((v : Value) → Place value v → Means r v))
event_role_iff value r = (sound, complete)
  where
    sound :
        event_role value ≡ some r
        → ((v : Value) × Place value v) × ((v : Value) → Place value v → Means r v)
    sound h =
        let c = (event_role-candidates value r).0 h in
        (
          Place-shown value c.0,
          λ v p. named-Means r v (candidates-places value (λ o. named_role o ≡ some r) c.1 v p),
        )

    complete :
        ((v : Value) × Place value v) × ((v : Value) → Place value v → Means r v)
        → event_role value ≡ some r
    complete h = (event_role-candidates value r).1 (
      placed value h.0.0 h.0.1,
      places-candidates value (λ o. named_role o ≡ some r) λ v p. Means-named r v (h.1 v p),
    )
