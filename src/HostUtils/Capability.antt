-- ===== src/HostUtils/Capability.antt =====
-- Letter case in the capability tests.
use code_bridge.Base.{String, ◌≡◌, refl, some, List, [], ◌∷◌}
use code_bridge.Js.Text.{to_lower_case_idem}
use code_bridge.HostUtils.{
  lower, lower_all, bridge_has_capability, requested, consumer_wants_capability,
}

lower_all_idem : (xs : List String) → lower_all (lower_all xs) ≡ lower_all xs
unfolding lower
lower_all_idem [] = refl
lower_all_idem (x ∷ xs) = rw (to_lower_case_idem x, lower_all_idem xs)

lower_idem : (s : String) → lower (some (lower (some s))) ≡ lower (some s)
unfolding lower
lower_idem = to_lower_case_idem

-- Whether a bridge has a capability, and whether a consumer wants it, does not depend on the
-- letter case in which either of the two sides writes it.
pub capability_ignores_case :
    (caps : List String) (cap : String)
    → (bridge_has_capability (some (lower_all caps)) (lower (some cap))
        ≡ bridge_has_capability (some caps) cap)
      × (consumer_wants_capability (some (lower_all caps)) (lower (some cap))
          ≡ consumer_wants_capability (some caps) cap)
unfolding bridge_has_capability consumer_wants_capability requested
capability_ignores_case caps cap =
    (rw (lower_idem cap, lower_all_idem caps), rw (lower_idem cap, lower_all_idem caps))
