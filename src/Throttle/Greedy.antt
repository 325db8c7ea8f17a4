-- ===== src/Throttle/Greedy.antt =====
-- The throttle refuses no more than it must.
use code_bridge.Base.{
  ℕ, suc, ◌+◌, ◌≤◌, ◌≡◌, ◌≢◌, refl, inl, inr, List, [], ◌∷◌, arith, leb, if◌then◌else◌, length,
  Bool-cases,
}
use code_bridge.Throttle.{Throttler, should_allow, allowed}
use code_bridge.Throttle.Spacing.{Spaced}

-- A part of a sequence, in its order.
pub data Selection : List ℕ → List ℕ → Type 0 where
  nothing : Selection [] []
  pick : {x : ℕ} {xs ys : List ℕ} → Selection xs ys → Selection (x ∷ xs) (x ∷ ys)
  skip : {x : ℕ} {xs ys : List ℕ} → Selection xs ys → Selection (x ∷ xs) ys

Selection-tail : {y : ℕ} {xs ys : List ℕ} → Selection xs (y ∷ ys) → Selection xs ys
Selection-tail (pick s) = skip s
Selection-tail (skip s) = skip (Selection-tail s)

Selection-rest : {x y : ℕ} {xs ys : List ℕ} → Selection (x ∷ xs) (y ∷ ys) → Selection xs ys
Selection-rest (pick s) = s
Selection-rest (skip s) = Selection-tail s

Selection-skip :
    {x y : ℕ} {xs ys : List ℕ} → Selection (x ∷ xs) (y ∷ ys) → x ≢ y → Selection xs (y ∷ ys)
Selection-skip (pick s) h = absurd (h refl)
Selection-skip (skip s) h = s

-- `Spaced 0` is: never going down.
Selection-le : {y : ℕ} {xs ys : List ℕ} (x : ℕ) → Selection xs (y ∷ ys) → Spaced 0 x xs → x ≤ y
Selection-le x (pick s) (h, hs) = omega arith
Selection-le x (skip {x = z} s) (h, hs) = omega (arith, Selection-le z s hs)

Spaced-earlier :
    (gap : ℕ) {early late : ℕ} (ts : List ℕ)
    → early ≤ late
    → Spaced gap late ts
    → Spaced gap early ts
Spaced-earlier gap [] h s = tt
Spaced-earlier gap (t ∷ ts) h (s, ss) = (omega arith, ss)

module _ (gap : ℕ) where
  passed : ℕ → List ℕ → ℕ
  passed from xs = length (allowed (record { last_call = from; delay_ms = gap }) xs)

  -- what one more call adds
  passed-cons :
      (from x : ℕ) (xs : List ℕ)
      → passed from (x ∷ xs) ≡ (if leb (from + gap) x then suc (passed x xs) else passed from xs)
  unfolding passed allowed should_allow
  passed-cons from x xs = ground arith

  best :
      (from : ℕ) (xs ys : List ℕ)
      → Spaced 0 from xs
      → Selection xs ys
      → Spaced gap from ys
      → length ys ≤ passed from xs
  best from xs [] up sel sp = omega arith
  best from [] (y ∷ ys) up sel sp = elim sel [ ]
  best from (x ∷ xs) (y ∷ ys) (h, up) sel (s, sp) = elim (Bool-cases (leb (from + gap) x)) [
    | inl e ↦
        let x-le-y : x ≤ y = Selection-le x sel (omega arith, up) in
        let taken = best x xs ys up (Selection-rest sel) (Spaced-earlier gap ys x-le-y sp) in
        rw (passed-cons from x xs, e) (omega (arith, taken))
    | inr e ↦
        rw (passed-cons from x xs, e)
          (best from xs (y ∷ ys) (Spaced-earlier 0 xs h' up) (Selection-skip sel (ground arith))
            (s, sp))
  ]
    where
      h' : from ≤ x
      h' = omega arith

-- On calls whose times never go down, no part of them that is spaced by the delay is longer than
-- what the throttle lets through.
pub allowed_best :
    (t : Throttler) (times ys : List ℕ)
    → Spaced 0 t.last_call times
    → Selection times ys
    → Spaced t.delay_ms t.last_call ys
    → length ys ≤ length (allowed t times)
unfolding passed
allowed_best t times ys up sel sp = best t.delay_ms t.last_call times ys up sel sp
