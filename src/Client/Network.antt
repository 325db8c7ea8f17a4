-- ===== src/Client/Network.antt =====
-- The shared patch of node's http, https and fetch in `instrumentNodeNetwork` of src/client.ts.
-- A sink is an object of its own, told apart by a number.
pub mod Refs
use code_bridge.Base.{
  ℕ, suc, ◌+◌, ◌-◌, Bool, true, false, not, ◌||◌, Option, none, some, List, [], ◌∷◌, ◌++◌, keep,
  nat_eq, if◌then◌else◌,
}

-- `NodeNetworkPatchState`
pub record Patch : Type 0 where
  pub count : ℕ
  pub sinks : List ℕ

pub record Network : Type 0 where
  -- `globalThis[NODE_NETWORK_PATCHED]`
  pub patch : Option Patch
  -- the sinks made so far, and the calls of `restore`
  pub made : ℕ
  pub restored : ℕ

abbrev pub unpatched : Network
unpatched = record { patch = none; made = 0; restored = 0 }

-- A call of `instrumentNodeNetwork`, whose sink is the next one.
unfoldable pub attach : Network → Network
attach net = elim net.patch [
  | none ↦ record net {
    patch = some (record { count = 1; sinks = net.made ∷ [] });
    made = suc net.made;
  }
  | some p ↦ record net {
    patch = some (record { count = p.count + 1; sinks = p.sinks ++ net.made ∷ [] });
    made = suc net.made;
  }
]

abbrev pub is_empty {ℓ} : {A : Type ℓ} → List A → Bool
is_empty [] = true
is_empty (x ∷ xs) = false

-- `current.sinks.filter((s) => s !== targetSink)`
abbrev pub others : ℕ → List ℕ → List ℕ
others s = keep (λ k. not (nat_eq k s))

-- The state is deleted with its last count or its last sink.
abbrev left : Patch → Option Patch
left p = if nat_eq p.count 0 || is_empty p.sinks then none else some p

abbrev restores : Patch → ℕ
restores p = if nat_eq p.count 0 || is_empty p.sinks then 1 else 0

-- A call of the function that `detach` makes for a sink. It may be called again.
unfoldable pub detach : ℕ → Network → Network
detach s net = elim net.patch [
  | none ↦ net
  | some p ↦
      let p' : Patch = record { count = p.count - 1; sinks = others s p.sinks } in
      record net { patch = left p'; restored = net.restored + restores p' }
]
