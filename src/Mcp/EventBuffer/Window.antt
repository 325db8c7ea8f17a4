-- ===== src/Mcp/EventBuffer/Window.antt =====
-- The buffer is the window of the last events, numbered from 1 as they came.
use code_bridge.Base.{
  last_all, length-last, min, ℕ, zero, suc, ◌+◌, ◌-◌, ◌≤◌, ◌≡◌, refl, sym, ap, ◌∙◌, some, List, [],
  ◌∷◌, ◌++◌, arith, length, last, drop, last-append,
}
use mathlib.Core.List.{append_assoc, append-nil}
use mathlib.Core.Path.{ap₂}
use code_bridge.Js.Value.{nan, int}
use code_bridge.Protocol.{BridgeEvent}
use code_bridge.Mcp.EventBuffer.{
  BufferedEvent, EventBuffer, new, slice_last, push, last_id, stats, push_all,
}

-- Events with the numbers that follow n.
abbrev pub numbered : ℕ → List BridgeEvent → List BufferedEvent
numbered n [] = []
numbered n (e ∷ es) = record { event = e; id = n + 1 } ∷ numbered (n + 1) es

push-last :
    (e : BridgeEvent) (b : EventBuffer) (l : ℕ)
    → b.limit ≡ int (suc l)
    → (push e b).1.events ≡ last (suc l) (b.events ++ numbered b.counter (e ∷ []))
unfolding push slice_last
push-last e b l h = rw h (ground arith)

limit-push : (e : BridgeEvent) (b : EventBuffer) → (push e b).1.limit ≡ b.limit
unfolding push
limit-push e b = refl

counter-push : (e : BridgeEvent) (b : EventBuffer) → (push e b).1.counter ≡ b.counter + 1
unfolding push
counter-push e b = refl

-- From a buffer that is within its limit.
push_all-last :
    (es : List BridgeEvent) (b : EventBuffer) (l : ℕ)
    → b.limit ≡ int (suc l)
    → length b.events ≤ suc l
    → (push_all es b).events ≡ last (suc l) (b.events ++ numbered b.counter es)
unfolding push_all
push_all-last [] b l h fits =
    sym (ap (last (suc l)) (append-nil b.events) ∙ last_all (suc l) b.events fits)
push_all-last (e ∷ es) b l h fits =
    let one = numbered b.counter (e ∷ []) in
    let b' : EventBuffer = (push e b).1 in
    let stored = push-last e b l h in
    let short : length b'.events ≤ suc l =
      omega (arith, ap length stored, length-last (suc l) (b.events ++ one)) in
    push_all-last es b' l (limit-push e b ∙ h) short
    ∙ ap₂ (λ xs n. last (suc l) (xs ++ numbered n es)) stored (counter-push e b)
    ∙ last-append (suc l) (b.events ++ one) (numbered (b.counter + 1) es)
    ∙ ap (last (suc l)) (append_assoc b.events one _)

-- The number of events that a buffer of the given size holds at most.
abbrev pub capacity : ℕ → ℕ
capacity n = suc (n - 1)

new-limit : (n : ℕ) → (new (some (int n))).limit ≡ int (capacity n)
unfolding new
new-limit n = ground arith

-- A buffer made for n events holds, after any events, the last n of them (the last one, if n is
-- 0), in their order and numbered from 1 in the order of their arrival.
pub buffer_is_window :
    (n : ℕ) (es : List BridgeEvent)
    → (push_all es (new (some (int n)))).events ≡ last (capacity n) (numbered 0 es)
buffer_is_window n es =
    push_all-last es (new (some (int n))) (n - 1) (new-limit n) (unfold new in omega arith)
    ∙ unfold new in refl

last_id-append : (xs : List BufferedEvent) (e : BufferedEvent) → last_id (xs ++ e ∷ []) ≡ e.id
unfolding last_id
last_id-append [] e = refl
last_id-append (x ∷ []) e = refl
last_id-append (x ∷ y ∷ xs) e = last_id-append (y ∷ xs) e

last_id-drop :
    (k : ℕ) (xs : List BufferedEvent) → suc k ≤ length xs → last_id (drop k xs) ≡ last_id xs
unfolding last_id
last_id-drop zero xs h = refl
last_id-drop (suc k) [] h = absurd (omega arith)
last_id-drop (suc k) (x ∷ []) h = absurd (omega arith)
last_id-drop (suc k) (x ∷ y ∷ xs) h = last_id-drop k (y ∷ xs) (omega arith)

last_id-numbered :
    (n : ℕ) (e : BridgeEvent) (es : List BridgeEvent)
    → last_id (numbered n (e ∷ es)) ≡ n + length (e ∷ es)
unfolding last_id
last_id-numbered n e [] = omega arith
last_id-numbered n e (f ∷ es) = omega (arith, last_id-numbered (n + 1) f es)

length-numbered : (n : ℕ) (es : List BridgeEvent) → length (numbered n es) ≡ length es
length-numbered n [] = refl
length-numbered n (e ∷ es) = ap suc (length-numbered (n + 1) es)

length-window :
    (n : ℕ) (es : List BridgeEvent)
    → length (push_all es (new (some (int n)))).events ≡ min (capacity n) (length es)
length-window n es = omega (
  arith,
  ap length (buffer_is_window n es),
  length-last (capacity n) (numbered 0 es),
  length-numbered 0 es,
)

last_id-window :
    (n : ℕ) (es : List BridgeEvent) → last_id (push_all es (new (some (int n)))).events ≡ length es
last_id-window n [] = unfold push_all new last_id in refl
last_id-window n (e ∷ es) =
    let all = numbered 0 (e ∷ es) in
    ap last_id (buffer_is_window n (e ∷ es))
    ∙ last_id-drop (length all - capacity n) all (omega arith)
    ∙ last_id-numbered 0 e es
    ∙ omega arith

-- The statistics of such a buffer: the total is what it still holds, and the last id is the number
-- of all events that ever came.
pub stats_count :
    (n : ℕ) (es : List BridgeEvent)
    → ((stats (push_all es (new (some (int n))))).total_events ≡ min (capacity n) (length es))
      × ((stats (push_all es (new (some (int n))))).last_event_id ≡ length es)
unfolding stats
stats_count n es = (length-window n es, last_id-window n es)

push_all-nan :
    (es : List BridgeEvent) (b : EventBuffer)
    → b.limit ≡ nan
    → (push_all es b).events ≡ b.events ++ numbered b.counter es
unfolding push_all push
push_all-nan [] b h = sym (append-nil b.events)
push_all-nan (e ∷ es) b h =
    let one = numbered b.counter (e ∷ []) in
    let b' : EventBuffer = (push e b).1 in
    let grown : b'.events ≡ b.events ++ one = rw h in
    push_all-nan es b' h
    ∙ ap (λ xs. xs ++ numbered (b.counter + 1) es) grown
    ∙ append_assoc b.events one _

-- A buffer whose size is not a number, such as `--buffer-size abc` makes, never drops an event.
pub nan_size_is_unbounded :
    (es : List BridgeEvent) → (push_all es (new (some nan))).events ≡ numbered 0 es
nan_size_is_unbounded es =
    push_all-nan es (new (some nan)) (unfold new in refl) ∙ unfold new in refl
