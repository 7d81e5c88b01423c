-- ===== src/Bridge/ToolBroker/Language.antt =====
-- `_canonical_language` of bridge/tool_broker.py: the check and the canonical case of a BCP-47 tag.
use Prim.Native.Char.{Char, code}
use ha_codex_voice.Prelude.{
  ℕ, suc, ◌+◌, ◌≤◌, ◌≡◌, refl, ◌∙◌, String, Bool, ◌&&◌, List, [], ◌∷◌, leb, ◌==◌, if◌then◌else◌,
  all, length, arith,
}
use ha_codex_voice.Prelude.Action.{Outcome, returned, raised}
use ha_codex_voice.Json.{codes, text_length}
use ha_codex_voice.Texts.{
  is_alpha, is_alnum, lower, upper, title, text_length-lower, text_length-upper, text_length-title,
}
use ha_codex_voice.Bridge.ToolBroker.Broker.{BrokerFault, bad_language}

abbrev onto_first : Char → List String → List String
onto_first c [] = String.◌∷◌ c "" ∷ []
onto_first c (p ∷ ps) = String.◌∷◌ c p ∷ ps

-- `value.split("-")`
abbrev pub split_dashes : String → List String
split_dashes String.[] = "" ∷ []
split_dashes (String.◌∷◌ c s) =
    let rest = split_dashes s in if code c == 45 then "" ∷ rest else onto_first c rest

abbrev append_text : String → String → String
append_text String.[] t = t
append_text (String.◌∷◌ c s) t = String.◌∷◌ c (append_text s t)

-- `"-".join(parts)`
abbrev pub join_dashes : List String → String
join_dashes [] = ""
join_dashes (p ∷ []) = p
join_dashes (p ∷ q ∷ ps) = append_text p (append_text "-" (join_dashes (q ∷ ps)))

abbrev pub is_primary : String → Bool
is_primary p = leb 2 (text_length p) && (leb (text_length p) 8 && all is_alpha (codes p))

abbrev pub is_subtag : String → Bool
is_subtag p = leb 1 (text_length p) && (leb (text_length p) 8 && all is_alnum (codes p))

unfoldable pub canonical_subtag : String → String
canonical_subtag p =
    if (text_length p == 4) && all is_alpha (codes p)
    then title p
    else if (text_length p == 2) && all is_alpha (codes p)
    then upper p
    else lower p

abbrev canonical_subtags : List String → List String
canonical_subtags [] = []
canonical_subtags (p ∷ ps) = canonical_subtag p ∷ canonical_subtags ps

abbrev canonical_parts : List String → Outcome BrokerFault String
canonical_parts [] = raised bad_language
canonical_parts (primary ∷ parts) =
    if is_primary primary && all is_subtag parts
    then returned (join_dashes (lower primary ∷ canonical_subtags parts))
    else raised bad_language

unfoldable pub canonical_language : String → Outcome BrokerFault String
canonical_language value = canonical_parts (split_dashes value)

text_length-canonical_subtag : (p : String) → text_length (canonical_subtag p) ≡ text_length p
unfolding canonical_subtag
text_length-canonical_subtag p =
    ground (arith, text_length-title p, text_length-upper p, text_length-lower p)

text_length-append_text :
    (s t : String) → text_length (append_text s t) ≡ text_length s + text_length t
unfolding text_length
text_length-append_text String.[] t = omega arith
text_length-append_text (String.◌∷◌ c s) t = omega (arith, text_length-append_text s t)

-- the length of the joined parts
abbrev joined_length : List String → ℕ
joined_length [] = 0
joined_length (p ∷ []) = text_length p
joined_length (p ∷ q ∷ ps) = text_length p + (1 + joined_length (q ∷ ps))

join_dashes-length : (ps : List String) → text_length (join_dashes ps) ≡ joined_length ps
unfolding text_length
join_dashes-length [] = refl
join_dashes-length (p ∷ []) = refl
join_dashes-length (p ∷ q ∷ ps) = omega (
  arith,
  text_length-append_text p (append_text "-" (join_dashes (q ∷ ps))),
  join_dashes-length (q ∷ ps),
)

-- there is a part, and the dashes make up for what the parts lack
split_dashes_lem :
    (s : String) → (1 ≤ length (split_dashes s)) × (joined_length (split_dashes s) ≡ text_length s)
unfolding text_length
split_dashes_lem String.[] = (omega arith, refl)
split_dashes_lem (String.◌∷◌ c s) = go (split_dashes s) (split_dashes_lem s)
  where
    go :
        (rest : List String)
        → (1 ≤ length rest) × (joined_length rest ≡ length (codes s))
        → let parts = if code c == 45 then "" ∷ rest else onto_first c rest in
          (1 ≤ length parts) × (joined_length parts ≡ suc (length (codes s)))
    go [] h = ground arith
    go (p ∷ []) h = ground arith
    go (p ∷ q ∷ ps) h = ground arith

joined_length-canonical :
    (p q : String) (ps : List String)
    → text_length p ≡ text_length q
    → joined_length (p ∷ canonical_subtags ps) ≡ joined_length (q ∷ ps)
joined_length-canonical p q [] h = h
joined_length-canonical p q (r ∷ rs) h =
    ground
      (arith, joined_length-canonical (canonical_subtag r) r rs (text_length-canonical_subtag r))

-- The canonical tag is as long as the tag it was made of.
pub canonical_language-length :
    (value language : String)
    → canonical_language value ≡ returned language
    → text_length language ≡ text_length value
unfolding canonical_language
canonical_language-length value language h = go (split_dashes value) h ∙ (split_dashes_lem value).1
  where
    go :
        (parts : List String)
        → canonical_parts parts ≡ returned language
        → text_length language ≡ joined_length parts
    go [] h = ground arith
    go (p ∷ ps) h = ground (
      arith,
      join_dashes-length (lower p ∷ canonical_subtags ps),
      joined_length-canonical (lower p) p ps (text_length-lower p),
    )
