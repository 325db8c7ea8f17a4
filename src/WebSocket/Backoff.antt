-- ===== src/WebSocket/Backoff.antt =====
-- The delays between attempts to reconnect.
use code_bridge.Base.{
  String, ℕ, zero, suc, ◌*◌, ◌≤◌, min, ◌≡◌, sym, ap, ◌∙◌, Option, List, [], ◌∷◌, arith, leb,
  leb_iff, Bool-cases, inl, inr,
}
use native.Mathlib.Nat.{min-eq_left, min-eq_right}
use code_bridge.Constants.{reconnect_initial_delay_ms, reconnect_max_delay_ms}
use code_bridge.WebSocket.{Bridge, Page, new}
use code_bridge.WebSocket.Timers.{Timers, timers, next, timers-step}
use code_bridge.WebSocket.Events.{Event, step, run, socket_opened, attempt_rejected}

abbrev pub InRange : ℕ → Type 0
InRange delay = (reconnect_initial_delay_ms ≤ delay) × (delay ≤ reconnect_max_delay_ms)

next-InRange :
    (now : ℕ) (e : Event) (t : Timers)
    → InRange t.reconnect_delay
    → InRange (next now e t).reconnect_delay
next-InRange now attempt_rejected t h = omega arith
next-InRange now (socket_opened page) t h = omega arith
next-InRange now _ t h = h

run-InRange :
    (es : List (ℕ × Event)) (b : Bridge)
    → InRange b.reconnect_delay
    → InRange (run es b).reconnect_delay
unfolding run
run-InRange [] b h = h
run-InRange ((now, e) ∷ es) b h = run-InRange es (step now e b) (
    rw (ap (λ (t : Timers). t.reconnect_delay) (timers-step now e b))
      (next-InRange now e (timers b) h))

-- Whatever happens to a bridge, the delay before the next attempt to reconnect is between one and
-- thirty seconds.
pub delay_bounds :
    (secret : String) (capabilities : List String) (platform : String) (project_id : Option String)
    (es : List (ℕ × Event))
    → InRange (run es (new secret capabilities platform project_id)).reconnect_delay
delay_bounds secret capabilities platform project_id es =
    run-InRange es (new secret capabilities platform project_id) (unfold new in omega arith)

-- The attempts that are rejected, in a stretch in which no socket opens.
abbrev pub failures : List (ℕ × Event) → ℕ
failures [] = 0
failures ((now, attempt_rejected) ∷ es) = suc (failures es)
failures ((now, _) ∷ es) = failures es

abbrev pub NoneOpens : List (ℕ × Event) → Type 0
NoneOpens [] = Unit {0}
NoneOpens ((now, socket_opened page) ∷ es) = ⊥
NoneOpens ((now, _) ∷ es) = NoneOpens es

abbrev pub doubled : ℕ → ℕ → ℕ
doubled zero d = d
doubled (suc k) d = doubled k (d * 2)

doubled_mono : (k a b : ℕ) → a ≤ b → doubled k a ≤ doubled k b
doubled_mono zero a b h = h
doubled_mono (suc k) a b h = doubled_mono k (a * 2) (b * 2) (omega arith)

le-doubled : (k a : ℕ) → a ≤ doubled k a
le-doubled zero a = omega arith
le-doubled (suc k) a = omega (arith, le-doubled k (a * 2))

-- Capping on the way is capping at the end.
min-doubled : (k d m : ℕ) → min (doubled k (min d m)) m ≡ min (doubled k d) m
min-doubled k d m = elim (Bool-cases (leb d m)) [
  | inl small ↦
      let kept : min d m ≡ d = min-eq_left ((leb_iff d m).0 small) in
      ap (λ x. min (doubled k x) m) kept
  | inr large ↦
      let capped : min d m ≡ m = min-eq_right (ground arith) in
      ap (λ x. min (doubled k x) m) capped
      ∙ min-eq_right (le-doubled k m)
      ∙ sym (min-eq_right (ground (arith, le-doubled k d)))
]

abbrev delay_after : Event → ℕ → ℕ
delay_after attempt_rejected d = min (d * 2) reconnect_max_delay_ms
delay_after (socket_opened page) d = 1000
delay_after _ d = d

delay-step :
    (now : ℕ) (e : Event) (b : Bridge)
    → (step now e b).reconnect_delay ≡ delay_after e b.reconnect_delay
delay-step now attempt_rejected b =
    ap (λ (t : Timers). t.reconnect_delay) (timers-step now attempt_rejected b)
delay-step now e b = ap (λ (t : Timers). t.reconnect_delay) (timers-step now e b)

delay-run :
    (es : List (ℕ × Event)) (b : Bridge)
    → NoneOpens es
    → b.reconnect_delay ≤ reconnect_max_delay_ms
    → (run es b).reconnect_delay
      ≡ min (doubled (failures es) b.reconnect_delay) reconnect_max_delay_ms
unfolding run
delay-run [] b none_opens h = omega arith
delay-run ((now, attempt_rejected) ∷ es) b none_opens h =
    let b' = step now attempt_rejected b in
    let same = delay-step now attempt_rejected b in
    delay-run es b' none_opens (omega (arith, same))
    ∙ ap (λ d. min (doubled (failures es) d) reconnect_max_delay_ms) same
    ∙ min-doubled (failures es) (b.reconnect_delay * 2) reconnect_max_delay_ms
delay-run ((now, socket_opened page) ∷ es) b none_opens h = absurd none_opens
delay-run ((now, e) ∷ es) b none_opens h =
    let b' = step now e b in
    let same = delay-step now e b in
    delay-run es b' none_opens (omega (arith, same))
    ∙ ap (λ d. min (doubled (failures es) d) reconnect_max_delay_ms) same

-- Once a socket has opened, the delay starts at a second again, and as long as no other opens it
-- doubles with each attempt that is rejected, up to thirty seconds. (`doubled k d` is d * 2 ^ k.)
pub backoff :
    (b : Bridge) (now : ℕ) (page : Option Page) (es : List (ℕ × Event))
    → NoneOpens es
    → (run ((now, socket_opened page) ∷ es) b).reconnect_delay
      ≡ min (doubled (failures es) reconnect_initial_delay_ms) reconnect_max_delay_ms
unfolding run
backoff b now page es none_opens =
    let b' = step now (socket_opened page) b in
    let same = delay-step now (socket_opened page) b in
    delay-run es b' none_opens (omega (arith, same))
    ∙ ap (λ d. min (doubled (failures es) d) reconnect_max_delay_ms) same
