-- ===== src/Client/Options.antt =====
-- What the options of startBridge turn on.
use code_bridge.Base.{
  sym, inl, inr, Bool-cases, Option-cases, arith, ◌⊎◌, ◌≡◌, String, Bool, true, false, ◌&&◌, ◌||◌,
  none, some, List, [], ◌∷◌, ◌++◌, refl, ap, ◌∙◌, ◌==◌, eq_iff,
}
use code_bridge.Js.Text.{to_lower_case, includes}
use code_bridge.HostUtils.{lower, lower_all, bridge_has_capability}
use code_bridge.Platform.{Environment, get_env, is_dev_mode}
use code_bridge.Client.{
  BridgeOptions, Features, should_enable, is_given, capabilities_of, pushed_if,
}

-- The bridge is enabled only if CODE_BRIDGE is 1, or the options enable it, or the options leave
-- this open while the runtime is in development and a url or a secret is given.
pub should_enable-reasons :
    (env : Environment) (options : BridgeOptions)
    → should_enable env options ≡ true
    → (get_env "CODE_BRIDGE" env ≡ some "1")
      ⊎ (options.enabled ≡ some true)
      ⊎ (options.enabled ≡ none)
        × (is_dev_mode env ≡ true)
        × ((is_given options.url || is_given options.secret) ≡ true)
unfolding should_enable
should_enable-reasons env options h = elim (Option-cases (get_env "CODE_BRIDGE" env)) [
  | inl p ↦ ground (arith, p)
  | inr (v, p) ↦ ground (arith, p, eq_iff v "1")
]

-- Whether a capability is one that the features stand for.
abbrev pub is_on : Features → String → Bool
is_on f c =
    c == "error"
    || c == "console"
    || (f.pageview && c == "pageview")
    || (f.navigation && c == "navigation")
    || (f.screenshot && c == "screenshot")
    || (f.network && c == "network")
    || (f.control && c == "control")

includes-lower_all :
    (w : String) (cs : List String) (cap : String)
    → includes (lower_all (cs ++ w ∷ [])) cap
      ≡ (includes (lower_all cs) cap || to_lower_case w == cap)
unfolding includes lower
includes-lower_all w [] cap = ground arith
includes-lower_all w (x ∷ cs) cap = ground (arith, includes-lower_all w cs cap)

includes-pushed_if :
    (b : Bool) (w : String) (cs : List String) (cap : String)
    → to_lower_case w ≡ w
    → includes (lower_all (pushed_if b w cs)) cap ≡ (includes (lower_all cs) cap || (b && cap == w))
includes-pushed_if true w cs cap h =
    includes-lower_all w cs cap
    ∙ ap (λ x. includes (lower_all cs) cap || x == cap) h
    ∙ ground (arith, eq_iff w cap, eq_iff cap w)
includes-pushed_if false w cs cap h = ground arith

is_on-empty : (f : Features) → is_on f "" ≡ false
is_on-empty f = ground arith

-- The capabilities that startBridge announces are, for the host's test of capabilities, those of
-- the features that are on, and always `error` and `console`. Letter case does not count.
pub announced_capabilities :
    (f : Features) (c : String)
    → bridge_has_capability (some (capabilities_of f)) c ≡ is_on f (to_lower_case c)
unfolding bridge_has_capability capabilities_of lower includes to_lower_case
announced_capabilities f c =
    let cap = to_lower_case c in
    let c₀ : List String = "error" ∷ "console" ∷ [] in
    let c₁ = pushed_if f.pageview "pageview" c₀ in
    let c₂ = pushed_if f.navigation "navigation" c₁ in
    let c₃ = pushed_if f.screenshot "screenshot" c₂ in
    let c₄ = pushed_if f.network "network" c₃ in
    let base : includes (lower_all c₀) cap ≡ (cap == "error" || cap == "console") =
      ground (
        arith,
        eq_iff cap "error",
        eq_iff cap "console",
        eq_iff "error" cap,
        eq_iff "console" cap,
      ) in
    let all : includes (lower_all (capabilities_of f)) cap ≡ is_on f cap = ground (
      arith,
      base,
      includes-pushed_if f.pageview "pageview" c₀ cap refl,
      includes-pushed_if f.navigation "navigation" c₁ cap refl,
      includes-pushed_if f.screenshot "screenshot" c₂ cap refl,
      includes-pushed_if f.network "network" c₃ cap refl,
      includes-pushed_if f.control "control" c₄ cap refl,
    ) in
    elim (Bool-cases (cap == "")) [
      | inl e ↦ ground (arith, e, sym (ap (is_on f) ((eq_iff cap "").0 e)), is_on-empty f)
      | inr e ↦ ground (arith, e, all)
    ]
