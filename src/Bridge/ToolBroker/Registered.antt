-- ===== src/Bridge/ToolBroker/Registered.antt =====
-- What an accepted registration of bridge/tool_broker.py is, said without its checks.
use ha_codex_voice.Prelude.{
  ℕ, ◌≤◌, ◌≡◌, ◌≢◌, ◌⊎◌, String, Option, some, List, [], ◌∷◌, length, map, All,
}
use ha_codex_voice.Json.{Value, object, codes, text_length}
use ha_codex_voice.Bridge.ToolBroker.Broker.{Tool, Snapshot}

-- A letter of ASCII or an underscore.
abbrev pub IsInitial : ℕ → Type 0
IsInitial c = ((65 ≤ c) × (c ≤ 90)) ⊎ (((97 ≤ c) × (c ≤ 122)) ⊎ (c ≡ 95))

-- One of those, a digit, a dot or a hyphen.
abbrev pub IsNameChar : ℕ → Type 0
IsNameChar c = IsInitial c ⊎ (((48 ≤ c) × (c ≤ 57)) ⊎ ((c ≡ 46) ⊎ (c ≡ 45)))

abbrev pub IsNameCodes : List ℕ → Type 0
IsNameCodes [] = ⊥
IsNameCodes (c ∷ cs) = IsInitial c × All IsNameChar cs

-- No control character but the newline and the tab.
abbrev pub IsPlain : String → Type 0
IsPlain s = All (λ c. (32 ≤ c) ⊎ ((c ≡ 10) ⊎ (c ≡ 9))) (codes s)

-- No two of the tools have one name.
abbrev pub AreDistinct : List Tool → Type 0
AreDistinct [] = Unit
AreDistinct (t ∷ ts) = All (λ u. t.name ≢ u.name) ts × AreDistinct ts

module _ (dumped : Value → Option ℕ) where
  pub record IsToolOf (t : Tool) : Type 0 where
    pub name_codes : IsNameCodes (codes t.name)
    pub name_short : text_length t.name ≤ 256
    pub described : text_length t.description ≤ 8192
    pub schema : (size : ℕ) × ((dumped (object t.parameters) ≡ some size) × (size ≤ 65536))

  pub record IsValid (s : Snapshot) : Type 0 where
    pub few : length s.tools ≤ 128
    pub tools : All IsToolOf s.tools
    pub distinct : AreDistinct s.tools
    pub named : s.tool_names ≡ map (λ t. t.name) s.tools
    pub authority_named : 1 ≤ text_length s.authority_id
    pub authority_short : text_length s.authority_id ≤ 256
    pub authority_plain : IsPlain s.authority_id
    pub language_short : text_length s.language ≤ 35
    pub instructions_short : text_length s.instructions ≤ 65536
    pub instructions_plain : IsPlain s.instructions
