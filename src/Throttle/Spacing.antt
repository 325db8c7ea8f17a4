-- ===== src/Throttle/Spacing.antt =====
-- What the throttle promises: spacing, and that it refuses no more than it must.
use code_bridge.Base.{
  ℕ, ◌+◌, ◌*◌, ◌≤◌, inl, inr, List, [], ◌∷◌, arith, leb, leb_iff, length, Bool-cases, All,
}
use code_bridge.Throttle.{Throttler, should_allow, allowed}

-- Each time is at least `gap` after the one before it, the first one after `from`.
abbrev pub Spaced : ℕ → ℕ → List ℕ → Type 0
Spaced gap from [] = Unit {0}
Spaced gap from (t ∷ ts) = (from + gap ≤ t) × Spaced gap t ts

-- Whatever the clock does, also when it is set back, two events that the throttle lets through
-- are at least the delay apart, and the first is at least the delay after the last call before.
pub allowed-Spaced :
    (t : Throttler) (times : List ℕ) → Spaced t.delay_ms t.last_call (allowed t times)
unfolding allowed should_allow
allowed-Spaced t [] = tt
allowed-Spaced t (now ∷ times) = elim (Bool-cases (leb (t.last_call + t.delay_ms) now)) [
  | inl e ↦ rw e ((leb_iff _ _).0 e, allowed-Spaced (record t { last_call = now }) times)
  | inr e ↦ rw e (allowed-Spaced t times)
]

Spaced-span :
    (gap from : ℕ) (ts : List ℕ) (top : ℕ)
    → Spaced gap from ts
    → All (λ t. t ≤ top) ts
    → from ≤ top
    → from + length ts * gap ≤ top
Spaced-span gap from [] top s h f = omega arith
Spaced-span gap from (t ∷ ts) top (s, ss) (h, hs) f =
    omega (arith, Spaced-span gap t ts top ss hs h)

allowed_from :
    (t : Throttler) (times : List ℕ) (top : ℕ)
    → All (λ x. x ≤ top) times
    → All (λ x. x ≤ top) (allowed t times)
unfolding allowed should_allow
allowed_from t [] top h = tt
allowed_from t (now ∷ times) top (h, hs) = elim (Bool-cases (leb (t.last_call + t.delay_ms) now)) [
  | inl e ↦ rw e (h, allowed_from (record t { last_call = now }) times top hs)
  | inr e ↦ rw e (allowed_from t times top hs)
]

-- So the number of events let through, times the delay, is at most the time that has gone by
-- since the last call, for calls that come no later than `top`.
pub allowed_rate :
    (t : Throttler) (times : List ℕ) (top : ℕ)
    → t.last_call ≤ top
    → All (λ x. x ≤ top) times
    → t.last_call + length (allowed t times) * t.delay_ms ≤ top
allowed_rate t times top h hs =
    Spaced-span t.delay_ms t.last_call (allowed t times) top (allowed-Spaced t times)
      (allowed_from t times top hs) h
