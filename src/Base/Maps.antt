-- ===== src/Base/Maps.antt =====
-- `Map` and `Set` as lists in the order of insertion, over an equality of keys.
use mathlib.Core.Bool.{Bool, not}
use mathlib.Core.List.{List, [], ◌∷◌, ◌++◌}
use mathlib.Core.Option.{Option, none, some}
use code_bridge.Base.Tests.{if◌then◌else◌}
use code_bridge.Base.Lists.{any, keep}

module _ {ℓ κ} {K : Type ℓ} {V : Type κ} (same : K → K → Bool) where
  -- `map.get(k)`
  abbrev pub find : K → List (K × V) → Option V
  find k [] = none
  find k ((j, v) ∷ m) = if same j k then some v else find k m

  -- `map.set(k, v)`, which keeps the place of a key that is there
  abbrev pub put : K → V → List (K × V) → List (K × V)
  put k v [] = (k, v) ∷ []
  put k v ((j, w) ∷ m) = if same j k then (j, v) ∷ m else (j, w) ∷ put k v m

  -- `map.delete(k)`
  abbrev pub erase : K → List (K × V) → List (K × V)
  erase k [] = []
  erase k ((j, w) ∷ m) = if same j k then erase k m else (j, w) ∷ erase k m

module _ {ℓ} {K : Type ℓ} (same : K → K → Bool) where
  -- `set.add(k)` and `set.delete(k)`
  abbrev pub add : K → List K → List K
  add k xs = if any (λ j. same j k) xs then xs else xs ++ k ∷ []

  abbrev pub remove : K → List K → List K
  remove k = keep (λ j. not (same j k))
