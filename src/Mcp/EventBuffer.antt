-- ===== src/Mcp/EventBuffer.antt =====
-- src/mcp/event-buffer.ts
pub mod Window
pub mod Latest
mod Tests
use code_bridge.Base.{
  ℕ, zero, suc, ◌+◌, ◌-◌, Bool, true, false, ◌||◌, Option, none, some, List, [], ◌∷◌, ◌++◌, ltb,
  leb, nat_eq, ◌==◌, if◌then◌else◌, length, drop, keep, get_elem?,
}
use code_bridge.Js.Value.{Number, nan, infinity, neg_infinity, int, neg}
use code_bridge.Protocol.{BridgeEvent}

-- `{ ...event, __id }`
pub record BufferedEvent : Type 0 where
  pub event : BridgeEvent
  pub open event use *
  pub id : ℕ

pub record EventBuffer : Type 0 where
  pub limit : Number
  pub counter : ℕ
  pub events : List BufferedEvent

-- `Math.max(1, limit)`
abbrev pub max_one : Number → Number
max_one nan = nan
max_one infinity = infinity
max_one neg_infinity = int 1
max_one (int n) = int (if leb n 1 then 1 else n)
max_one (neg n) = int 1

abbrev pub or_default : Option Number → ℕ → Number
or_default none d = int d
or_default (some n) d = n

unfoldable pub new : Option Number → EventBuffer
new limit = record { limit = max_one (or_default limit 500); counter = 0; events = [] }

-- `n > limit`
abbrev pub exceeds : ℕ → Number → Bool
exceeds n nan = false
exceeds n infinity = false
exceeds n neg_infinity = true
exceeds n (int l) = ltb l n
exceeds n (neg l) = ltb 0 (n + l)

-- `xs.slice(-n)`: the last n, but all of them for n = 0, NaN and infinity
unfoldable pub slice_last {ℓ} : {A : Type ℓ} → Number → List A → List A
slice_last nan xs = xs
slice_last infinity xs = xs
slice_last neg_infinity xs = []
slice_last (int n) xs = if nat_eq n 0 then xs else drop (length xs - n) xs
slice_last (neg n) xs = drop n xs

-- The new buffer, and the event as it was stored.
unfoldable pub push : BridgeEvent → EventBuffer → BufferedEvent × EventBuffer
push event b =
    let counter = b.counter + 1 in
    let buffered : BufferedEvent = record { event = event; id = counter } in
    let events = b.events ++ buffered ∷ [] in
    (
      buffered,
      record b {
        counter = counter;
        events = if exceeds (length events) b.limit then slice_last b.limit events else events;
      },
    )

unfoldable pub recent : Option Number → EventBuffer → List BufferedEvent
unfolding slice_last
recent max b = slice_last (or_default max 100) b.events

abbrev pub is_error : BufferedEvent → Bool
is_error e = e.level == "error"

abbrev pub is_network : BufferedEvent → Bool
is_network e = e.type == "network"

abbrev pub is_navigation : BufferedEvent → Bool
is_navigation e = e.type == "navigation" || e.type == "pageview"

abbrev pub is_screenshot : BufferedEvent → Bool
is_screenshot e = e.type == "screenshot"

unfoldable pub errors : Option Number → EventBuffer → List BufferedEvent
unfolding slice_last
errors max b = slice_last (or_default max 50) (keep is_error b.events)

unfoldable pub network : Option Number → EventBuffer → List BufferedEvent
unfolding slice_last
network max b = slice_last (or_default max 50) (keep is_network b.events)

unfoldable pub navigation : Option Number → EventBuffer → List BufferedEvent
unfolding slice_last
navigation max b = slice_last (or_default max 50) (keep is_navigation b.events)

-- The loop of `latestScreenshot`, at index i - 1.
unfoldable pub scan_down : List BufferedEvent → ℕ → Option BufferedEvent
scan_down events zero = none
scan_down events (suc i) = elim (get_elem? events i) [
  | none ↦ none
  | some e ↦ if is_screenshot e then some e else scan_down events i
]

unfoldable pub latest_screenshot : EventBuffer → Option BufferedEvent
unfolding scan_down
latest_screenshot b = scan_down b.events (length b.events)

-- `events.length ? events[events.length - 1].__id : 0`
unfoldable pub last_id : List BufferedEvent → ℕ
last_id [] = 0
last_id (e ∷ []) = e.id
last_id (e ∷ f ∷ es) = last_id (f ∷ es)

pub record Stats : Type 0 where
  pub total_events : ℕ
  pub error_count : ℕ
  pub last_event_id : ℕ

unfoldable pub stats : EventBuffer → Stats
unfolding last_id
stats b = record {
  total_events = length b.events;
  error_count = length (keep is_error b.events);
  last_event_id = last_id b.events;
}

-- The buffer after a sequence of events.
unfoldable pub push_all : List BridgeEvent → EventBuffer → EventBuffer
push_all [] b = b
push_all (e ∷ es) b = push_all es (push e b).1
