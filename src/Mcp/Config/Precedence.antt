-- ===== src/Mcp/Config/Precedence.antt =====
-- Which source of the host's url and secret wins.
use code_bridge.Base.{
  if-false, String, true, false, ◌||◌, Option, none, some, List, [], ◌∷◌, ◌≡◌, refl, ◌⊎◌, inl, inr,
  ◌==◌, Bool-cases, arith, if◌then◌else◌,
}
use code_bridge.Mcp.Mappers.{BridgeMeta}
use code_bridge.Mcp.Config.{
  McpOptions, Surroundings, ResolvedConfig, resolve_mcp_config, resolve_meta, or_else,
}

-- The first text that is there and not empty.
abbrev pub first_text : List (Option String) → Option String
first_text [] = none
first_text (none ∷ rest) = first_text rest
first_text (some s ∷ rest) = if s == "" then first_text rest else some s

abbrev pub url_on : Option BridgeMeta → Option String
url_on none = none
url_on (some m) = some m.url

abbrev pub secret_on : Option BridgeMeta → Option String
secret_on none = none
secret_on (some m) = some m.secret

abbrev pub urls : McpOptions → Surroundings → Option BridgeMeta → List (Option String)
urls o s disk = o.host_url ∷ s.env_url ∷ url_on disk ∷ []

abbrev pub secrets : McpOptions → Surroundings → Option BridgeMeta → List (Option String)
secrets o s disk = o.secret ∷ s.env_secret ∷ secret_on disk ∷ []

-- A text is the one that is found, or is empty since none is.
abbrev Agree : Option String → String → Type 0
Agree o s = (o ≡ none) × ((s == "") ≡ true) ⊎ ((s == "") ≡ false) × (o ≡ some s)

Agree-or_else :
    (a : Option String) (rest : List (Option String)) (s : String)
    → Agree (first_text rest) s
    → Agree (first_text (a ∷ rest)) (or_else a s)
unfolding or_else
Agree-or_else none rest s h = h
Agree-or_else (some t) rest s h = elim (Bool-cases (t == "")) [
  | inl p ↦ ground (arith, p, h)
  | inr p ↦ inr (ground (arith, p), ground (arith, p))
]

Agree-text :
    (a b c : Option String)
    → Agree (first_text (a ∷ b ∷ c ∷ [])) (or_else a (or_else b (or_else c "")))
Agree-text a b c =
    Agree-or_else a (b ∷ c ∷ []) _
      (Agree-or_else b (c ∷ []) _ (Agree-or_else c [] "" (inl (refl, refl))))

meta_url :
    (o : McpOptions) (s : Surroundings) (disk : Option BridgeMeta)
    → Agree (first_text (urls o s disk)) (resolve_meta o s disk).url
unfolding resolve_meta
meta_url o s none = Agree-text o.host_url s.env_url none
meta_url o s (some m) = Agree-text o.host_url s.env_url (some m.url)

meta_secret :
    (o : McpOptions) (s : Surroundings) (disk : Option BridgeMeta)
    → Agree (first_text (secrets o s disk)) (resolve_meta o s disk).secret
unfolding resolve_meta
meta_secret o s none = Agree-text o.secret s.env_secret none
meta_secret o s (some m) = Agree-text o.secret s.env_secret (some m.secret)

-- The configuration resolves unless no url or no secret is found. Its url is the first that is not
-- empty of the option's, the environment's and the metadata file's, and so is its secret, each
-- found by itself: they may come from different sources.
pub resolve_mcp_config-first :
    (o : McpOptions) (s : Surroundings) (disk : Option BridgeMeta)
    → (resolve_mcp_config o s disk ≡ none)
        × ((first_text (urls o s disk) ≡ none) ⊎ (first_text (secrets o s disk) ≡ none))
      ⊎ (c : ResolvedConfig) × (resolve_mcp_config o s disk ≡ some c)
        × (first_text (urls o s disk) ≡ some c.meta.url)
        × (first_text (secrets o s disk) ≡ some c.meta.secret)
unfolding resolve_mcp_config
resolve_mcp_config-first o s disk =
    let m = resolve_meta o s disk in
    elim (meta_url o s disk) [
      | inl (u, e) ↦ inl (ground (arith, e), inl u)
      | inr (e, u) ↦ elim (meta_secret o s disk) [
        | inl (k, f) ↦ inl (ground (arith, e, f), inr k)
        | inr (f, k) ↦
            inr (_, if-false (m.url == "" || m.secret == "") _ _ (ground (arith, e, f)), u, k)
      ]
    ]
