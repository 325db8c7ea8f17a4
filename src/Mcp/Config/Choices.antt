-- ===== src/Mcp/Config/Choices.antt =====
-- What `normalizeLevels` and `normalizeCapabilities` keep.
use code_bridge.Base.{
  String, Bool, true, false, ◌&&◌, ◌||◌, List, [], ◌∷◌, ◌++◌, ◌≡◌, refl, ap, ◌∙◌, ◌==◌, eq_iff, any,
  Bool-cases, inl, inr, arith, if◌then◌else◌,
}
use code_bridge.Js.Text.{includes}
use code_bridge.Mcp.Config.{
  add_allowed, normalize_levels, normalize_capabilities, allowed_levels, allowed_caps, non_empty,
}

includes-snoc :
    (s t : String) (xs : List String) → includes (xs ++ s ∷ []) t ≡ (includes xs t || s == t)
unfolding includes
includes-snoc s t [] = ground arith
includes-snoc s t (x ∷ xs) = ground (arith, includes-snoc s t xs)

-- One round of the loop.
abbrev added : List String → String → List String → List String
added allowed x set =
    if includes allowed x then (if includes set x then set else set ++ x ∷ []) else set

includes-added :
    (allowed : List String) (x : String) (set : List String) (t : String)
    → includes (added allowed x set) t ≡ (includes set t || (includes allowed t && x == t))
includes-added allowed x set t = ground (arith, eq_iff x t, includes-snoc x t set)

includes-add_allowed :
    (allowed xs set : List String) (t : String)
    → includes (add_allowed allowed xs set) t
      ≡ (includes set t || (includes allowed t && includes xs t))
unfolding add_allowed includes
includes-add_allowed allowed [] set t = ground arith
includes-add_allowed allowed (x ∷ xs) set t =
    ground (
      arith,
      includes-add_allowed allowed xs (added allowed x set) t,
      includes-added allowed x set t,
    )

add_allowed_none :
    (allowed xs set : List String)
    → any (includes allowed) xs ≡ false
    → add_allowed allowed xs set ≡ set
unfolding add_allowed
add_allowed_none allowed [] set h = refl
add_allowed_none allowed (x ∷ xs) set h = ground (arith, add_allowed_none allowed xs set)

-- The allowed entries if there are any, and the fallback otherwise.
abbrev pub chosen : List String → List String → List String → String → Bool
chosen allowed fallback xs t =
    if any (includes allowed) xs then includes allowed t && includes xs t else includes fallback t

any-includes :
    (allowed xs : List String)
    → any (includes allowed) xs ≡ true
    → (t : String) × (includes allowed t ≡ true) × (includes xs t ≡ true)
unfolding includes
any-includes allowed [] h = absurd (ground arith)
any-includes allowed (x ∷ xs) h = elim (Bool-cases (includes allowed x)) [
  | inl p ↦ (x, p, ground (arith, eq_iff x x))
  | inr p ↦ let (t, q, r) = any-includes allowed xs (ground (arith, p)) in (t, q, ground (arith, r))
]

non_empty_same :
    (ys fallback : List String) (u : String) → includes ys u ≡ true → non_empty ys fallback ≡ ys
unfolding includes
non_empty_same [] fallback u h = absurd (ground arith)
non_empty_same (y ∷ ys) fallback u h = refl

includes-non_empty :
    (allowed fallback xs : List String) (t : String)
    → includes (non_empty (add_allowed allowed xs []) fallback) t ≡ chosen allowed fallback xs t
unfolding includes
includes-non_empty allowed fallback xs t = elim (Bool-cases (any (includes allowed) xs)) [
  | inl p ↦
      let (u, q, r) = any-includes allowed xs p in
      let ys = add_allowed allowed xs [] in
      let found : includes ys u ≡ true =
        includes-add_allowed allowed xs [] u ∙ ground (arith, q, r) in
      ap (λ zs. includes zs t) (non_empty_same ys fallback u found)
      ∙ includes-add_allowed allowed xs [] t
      ∙ ground (arith, p)
  | inr p ↦
      ap (λ zs. includes (non_empty zs fallback) t) (add_allowed_none allowed xs [] p)
      ∙ ground (arith, p)
]

-- The levels and the capabilities that the MCP server asks for are those of the options that the
-- protocol knows; where it knows none of them, the level is `errors`, and the capabilities are
-- `error` and `console`.
pub resolved_choices :
    (levels caps : List String) (t : String)
    → (includes (normalize_levels levels) t ≡ chosen allowed_levels ("errors" ∷ []) levels t)
      × (includes (normalize_capabilities caps) t
          ≡ chosen allowed_caps ("error" ∷ "console" ∷ []) caps t)
unfolding normalize_levels normalize_capabilities
resolved_choices levels caps t = (
  includes-non_empty allowed_levels ("errors" ∷ []) levels t,
  includes-non_empty allowed_caps ("error" ∷ "console" ∷ []) caps t,
)
