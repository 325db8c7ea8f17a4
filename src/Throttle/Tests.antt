-- ===== src/Throttle/Tests.antt =====
-- src/throttle.ts on a sequence of calls.
use code_bridge.Base.{ℕ, ◌≤◌, ◌≡◌, refl, List, [], ◌∷◌, length, arith}
use code_bridge.Throttle.{Throttler, should_allow, allowed}
use code_bridge.Throttle.Greedy.{nothing, pick, skip, allowed_best}

abbrev calls : List ℕ
calls = 120 ∷ 150 ∷ 230 ∷ 260 ∷ 400 ∷ []

abbrev started : Throttler
started = record { last_call = 0; delay_ms = 100 }

some_pass : allowed started calls ≡ 120 ∷ 230 ∷ 400 ∷ []
unfolding allowed should_allow
some_pass = refl

abbrev chosen : List ℕ
chosen = 150 ∷ 260 ∷ 400 ∷ []

allowed_best_example : length chosen ≤ length (allowed started calls)
allowed_best_example =
    allowed_best started calls chosen (omega arith) (skip (pick (skip (pick (pick nothing)))))
      (omega arith)
