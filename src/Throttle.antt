-- ===== src/Throttle.antt =====
-- src/throttle.ts. `Date.now()` is an argument of each call.
pub mod Spacing
pub mod Greedy
mod Tests
use code_bridge.Base.{ℕ, ◌+◌, Bool, true, false, List, [], ◌∷◌, leb, if◌then◌else◌}

pub record Throttler : Type 0 where
  pub last_call : ℕ
  pub delay_ms : ℕ

-- `new Throttler(delayMs)`
unfoldable pub new : ℕ → Throttler
new delay_ms = record { last_call = 0; delay_ms = delay_ms }

-- `now - lastCall >= delayMs`, written with a sum since a difference in ℕ stops at 0
unfoldable pub should_allow : ℕ → Throttler → Bool × Throttler
should_allow now t =
    if leb (t.last_call + t.delay_ms) now then (true, record t { last_call = now }) else (false, t)

-- The times of a sequence of calls that are let through.
unfoldable pub allowed : Throttler → List ℕ → List ℕ
allowed t [] = []
allowed t (now ∷ times) =
    let (ok, t') = should_allow now t in
    let rest = allowed t' times in if ok then now ∷ rest else rest
