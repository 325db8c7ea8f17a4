-- ===== src/Host/Ports.antt =====
-- bin/code-bridge-host.js, findAvailablePort. What `listen` does with a port is a parameter: the
-- port of the address that it got, or `none` where the server has an error.
use code_bridge.Base.{
  if-true, sym, subst, refl, ℕ, zero, suc, ◌+◌, ◌-◌, ◌≤◌, ◌<◌, ◌≡◌, ◌⊎◌, inl, inr, Bool, true,
  false, Option, none, some, ltb, if◌then◌else◌, arith, Bool-cases, Option-cases,
}

pub data Search : Type 0 where
  resolved : ℕ → Search
  rejected : Search

module _ (listen : ℕ → Option ℕ) where
  -- The fuel is that of the model; `listen` throws on a port above 65535.
  unfoldable pub search : ℕ → ℕ → Option Search
  search zero start = none
  search (suc fuel) start =
      if ltb 65_535 start
      then some rejected
      else elim (listen start) [ some port ↦ some (resolved port) | none ↦ search fuel (suc start) ]

  -- Whether the next n ports are taken.
  unfoldable pub taken : ℕ → ℕ → Bool
  taken zero start = true
  taken (suc n) start = elim (listen start) [ some port ↦ false | none ↦ taken n (suc start) ]

unfoldable pub find_available_port : (ℕ → Option ℕ) → ℕ → Option Search
find_available_port listen start = search listen 65_537 start

-- How a search from a port ends: at the first port that is free, or with all of them taken.
pub FirstFree : (ℕ → Option ℕ) → ℕ → Option Search → Type 0
FirstFree listen start result =
    ((n : ℕ) × (port : ℕ) × (start + n ≤ 65_535)
      × (taken listen n start ≡ true)
      × (listen (start + n) ≡ some port)
      × (result ≡ some (resolved port)))
    ⊎ ((taken listen (65_536 - start) start ≡ true) × (result ≡ some rejected))

later :
    (listen : ℕ → Option ℕ) (start : ℕ) (r : Option Search)
    → start ≤ 65_535
    → listen start ≡ none
    → FirstFree listen (suc start) r
    → FirstFree listen start r
unfolding FirstFree taken
later listen start r b e (inl (n, port, k, t, l, q)) =
    let same : suc start + n ≡ start + suc n = omega arith in
    inl (suc n, port, omega arith, rw (e, taken) t, subst (λ p. listen p ≡ some port) same l, q)
later listen start r b e (inr (t, q)) =
    let more : 65_536 - start ≡ suc (65_536 - suc start) = omega arith in
    inr (subst (λ n. taken listen n start ≡ true) (sym more) (rw (e, taken) t), q)

search-FirstFree :
    (listen : ℕ → Option ℕ) (fuel start : ℕ)
    → 0 < fuel
    → 65_536 < fuel + start
    → FirstFree listen start (search listen fuel start)
unfolding search FirstFree taken
search-FirstFree listen zero start f h = absurd (omega arith)
search-FirstFree listen (suc fuel) start f h = elim (Bool-cases (ltb 65_535 start)) [
  | inl high ↦ inr (
    subst (λ n. taken listen n start ≡ true) {x = 0} {y = 65_536 - start} (ground arith) refl,
    if-true _ _ _ high,
  )
  | inr low ↦ elim (Option-cases (listen start)) [
    | inl e ↦ subst (FirstFree listen start) (ground arith) (
        later listen start _ (ground arith) e
          (search-FirstFree listen fuel (suc start) (ground arith) (omega arith)))
    | inr (port, e) ↦ inl (0, port, ground arith, refl, ground arith, ground arith)
  ]
]

-- The search for a port ends for every port that it starts with: it returns the first port from
-- there that is free, or is rejected when all ports up to 65535 are taken.
pub find_available_port-FirstFree :
    (listen : ℕ → Option ℕ) (start : ℕ) → FirstFree listen start (find_available_port listen start)
unfolding find_available_port
find_available_port-FirstFree listen start =
    search-FirstFree listen 65_537 start (omega arith) (omega arith)
