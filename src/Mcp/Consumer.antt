-- ===== src/Mcp/Consumer.antt =====
-- src/mcp/consumer.ts: the connection of the MCP wrapper to the host, and its pending requests.
-- Each call of an async method makes a promise with the next number; `settled` logs how promises
-- end. A timer is there until it fires or is cleared.
pub mod Runs
pub mod Promises
pub mod Controls
pub mod Unheld
pub mod Fresh
pub mod Abandoned
pub mod Answered
mod Tests
use code_bridge.Base.{
  ℕ, suc, ◌+◌, String, Bool, true, false, not, ◌||◌, Option, none, some, List, [], ◌∷◌, ◌++◌, ◌==◌,
  nat_eq, if◌then◌else◌, keep, any, map,
}
use code_bridge.Js.Value.{Value, get_field, or_value, string, null, undefined, truthy}
use code_bridge.Js.Print.{to_text}
use code_bridge.Socket.{closed, ReadyState, connecting, opened, is_open, close_ws}

pub data Settlement : Type 0 where
  resolved : Value → Settlement
  rejected : String → Settlement

pub data Frame : Type 0 where
  auth : String → String → Frame
  subscribe_frame : Value → Frame
  control_request : String → String → Value → Frame

pub data Emission : Type 0 where
  control_result subscribe_ack bridge_event : Value → Emission

pub record Timer : Type 0 where
  pub call : ℕ
  pub id : String

pub record Consumer : Type 0 where
  pub secret : String
  pub client_id : String
  pub ws : Option ReadyState
  pub pending : List (String × ℕ)
  pub timers : List Timer
  -- the promises of `connect` and `subscribe` whose listener or timer is still there
  pub auth_waiting : List ℕ
  pub auth_timers : List ℕ
  pub ack_waiting : List ℕ
  pub ack_timers : List ℕ
  pub calls : ℕ
  pub settled : List (ℕ × Settlement)
  pub sent : List Frame
  pub emitted : List Emission
  -- a TypeError that nothing catches
  pub uncaught : Bool

unfoldable pub new : String → String → Consumer
new secret client_id = record {
  secret = secret;
  client_id = client_id;
  ws = none;
  pending = [];
  timers = [];
  auth_waiting = [];
  auth_timers = [];
  ack_waiting = [];
  ack_timers = [];
  calls = 0;
  settled = [];
  sent = [];
  emitted = [];
  uncaught = false;
}

-- How a promise of the language is settled: once, and a later `resolve` or `reject` does nothing.
unfoldable pub outcome : ℕ → List (ℕ × Settlement) → Option Settlement
outcome n [] = none
outcome n ((k, s) ∷ rest) = if nat_eq k n then some s else outcome n rest

unfoldable pub settle : ℕ → Settlement → Consumer → Consumer
settle n s c = elim (outcome n c.settled) [
  | none ↦ record c { settled = (n, s) ∷ c.settled }
  | some old ↦ c
]

-- `pendingControls.get(id)`
unfoldable pub find_pending : String → List (String × ℕ) → Option ℕ
find_pending id [] = none
find_pending id ((k, n) ∷ rest) = if k == id then some n else find_pending id rest

-- `pendingControls.delete(id)`
unfoldable pub without_pending : String → List (String × ℕ) → List (String × ℕ)
without_pending id [] = []
without_pending id ((k, n) ∷ rest) =
    if k == id then without_pending id rest else (k, n) ∷ without_pending id rest

-- `clearTimeout`
unfoldable pub without_timer : ℕ → List Timer → List Timer
without_timer n [] = []
without_timer n (t ∷ ts) = if nat_eq t.call n then without_timer n ts else t ∷ without_timer n ts

abbrev pub without : ℕ → List ℕ → List ℕ
without n = keep (λ k. not (nat_eq k n))

unfoldable pub send : Frame → Consumer → Consumer
send f c = if is_open c.ws then record c { sent = c.sent ++ f ∷ [] } else c

abbrev pub emit : Emission → Consumer → Consumer
emit e c = record c { emitted = c.emitted ++ e ∷ [] }

-- `connect`, up to the promise that it returns.
unfoldable pub connect : Consumer → Consumer
connect c = record c {
  ws = some connecting;
  auth_waiting = c.calls ∷ c.auth_waiting;
  auth_timers = c.calls ∷ c.auth_timers;
  calls = suc c.calls;
}

-- The socket in another ready state; after `close` there is none.
abbrev pub in_state : ReadyState → Option ReadyState → Option ReadyState
in_state r none = none
in_state r (some old) = some r

unfoldable pub on_open : Consumer → Consumer
on_open c = send (auth c.secret c.client_id) (record c { ws = in_state opened c.ws })

-- The socket closes by itself, which no handler listens to.
unfoldable pub dropped : Consumer → Consumer
dropped c = record c { ws = in_state closed c.ws }

-- The error of a socket, while the promise with this number waits for it.
unfoldable pub on_error : ℕ → String → Consumer → Consumer
on_error n message c = settle n (rejected message) c

unfoldable pub auth_timer_fires : ℕ → Consumer → Consumer
auth_timer_fires n c =
    settle n (rejected "Timed out waiting for auth_success")
      (record c { auth_timers = without n c.auth_timers })

unfoldable pub subscribe : Value → Consumer → Consumer
subscribe message c =
    let n = c.calls in
    let called : Consumer = record c { calls = suc n } in
    if is_open c.ws
    then send (subscribe_frame message)
        (record called { ack_waiting = n ∷ c.ack_waiting; ack_timers = n ∷ c.ack_timers })
    else settle n (rejected "Not connected") called

unfoldable pub ack_timer_fires : ℕ → Consumer → Consumer
ack_timer_fires n c =
    settle n (rejected "Timed out waiting for subscribe_ack")
      (record c { ack_timers = without n c.ack_timers })

-- `set` on a map: the order of the entries is never read.
unfoldable pub send_control : String → String → Value → Consumer → Consumer
send_control id action args c =
    let n = c.calls in
    let called : Consumer = record c { calls = suc n } in
    if is_open c.ws
    then send (control_request id action args) (record called {
      timers = record { call = n; id = id } ∷ c.timers;
      pending = (id, n) ∷ without_pending id c.pending;
    })
    else settle n (rejected "Not connected") called

-- The timeout of a control request, while its timer is there.
unfoldable pub timer_fires : Timer → Consumer → Consumer
timer_fires t c =
    settle t.call (rejected "Control request timed out") (record c {
      timers = without_timer t.call c.timers;
      pending = without_pending t.id c.pending;
    })

unfoldable pub clear_pending : List (String × ℕ) → List Timer → List Timer
clear_pending [] ts = ts
clear_pending ((id, n) ∷ rest) ts = clear_pending rest (without_timer n ts)

unfoldable pub close : Consumer → Consumer
close c = record c { timers = clear_pending c.pending c.timers; pending = []; ws = none }

-- `msg.type === tag`
abbrev pub has_type : String → Value → Bool
has_type tag msg = elim (get_field "type" msg) [ string s ↦ s == tag | _ ↦ false ]

-- Only a string can be a key of the map.
abbrev pub pending_of : Value → List (String × ℕ) → Option (String × ℕ)
pending_of (string id) ps = elim (find_pending id ps) [ none ↦ none | some n ↦ some (id, n) ]
pending_of _ ps = none

-- The text of `new Error(msg.error?.message || 'control failed')`
unfoldable pub error_message : Value → String
unfolding to_text
error_message msg =
    to_text (or_value (get_field "message" (get_field "error" msg)) (string "control failed"))

unfoldable pub answer : Value → Option (String × ℕ) → Consumer → Consumer
answer msg none c = c
answer msg (some (id, n)) c =
    settle n (if truthy (get_field "ok" msg) then resolved msg else rejected (error_message msg))
      (record c { timers = without_timer n c.timers; pending = without_pending id c.pending })

abbrev pub is_null : Value → Bool
is_null null = true
is_null _ = false

unfoldable pub dispatch : Value → Consumer → Consumer
dispatch msg c =
    if has_type "control_result" msg
    then emit (control_result msg) (answer msg (pending_of (get_field "id" msg) c.pending) c)
    else if has_type "rate_limit_notice" msg
    then c
    else if has_type "auth_success" msg
        || has_type "subscribe_ack" msg
        || has_type "control_forwarded" msg
    then c
    else if truthy (get_field "type" msg)
    then emit (bridge_event msg) c
    else c

-- `handleMessage`, of a message that parses. `null` has no `type` to read.
unfoldable pub handle_message : Value → Consumer → Consumer
handle_message msg c = elim (is_null msg) [
  | true ↦ record c { uncaught = true }
  | false ↦ dispatch msg c
]

-- The listeners of `connect` and `subscribe`, each for all the promises that wait.
unfoldable pub hear_auth : List ℕ → Consumer → Consumer
hear_auth [] c = record c { auth_waiting = [] }
hear_auth (n ∷ ns) c =
    hear_auth ns
      (settle n (resolved undefined) (record c { auth_timers = without n c.auth_timers }))

unfoldable pub hear_ack : Value → List ℕ → Consumer → Consumer
hear_ack msg [] c = record c { ack_waiting = [] }
hear_ack msg (n ∷ ns) c = hear_ack msg ns (
    settle n (resolved undefined)
      (emit (subscribe_ack msg) (record c { ack_timers = without n c.ack_timers })))

-- The handlers of a message, in the order in which they were added.
unfoldable pub receive : Value → Consumer → Consumer
receive msg c =
    let c₁ = handle_message msg c in
    let c₂ = if has_type "auth_success" msg then hear_auth c₁.auth_waiting c₁ else c₁ in
    if has_type "subscribe_ack" msg then hear_ack msg c₂.ack_waiting c₂ else c₂
