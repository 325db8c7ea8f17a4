-- ===== src/Mcp/Consumer/Runs.antt =====
-- What can happen to a consumer, in any order. A timer that has been cleared does not fire, and
-- an error reaches `connect` only while its promise waits.
use code_bridge.Base.{
  false, true, ℕ, String, Bool, List, [], ◌∷◌, any, nat_eq, ◌&&◌, ◌==◌, if◌then◌else◌,
}
use code_bridge.Js.Value.{Value}
use code_bridge.Mcp.Consumer.{
  dropped, Timer, Consumer, connect, on_open, on_error, auth_timer_fires, subscribe,
  ack_timer_fires, send_control, timer_fires, close, receive,
}

pub data Event : Type 0 where
  connects opens drops closes : Event
  fails : ℕ → String → Event
  auth_due ack_due : ℕ → Event
  subscribes receives : Value → Event
  controls : String → String → Value → Event
  control_due : Timer → Event

abbrev pub same_timer : Timer → Timer → Bool
same_timer t u = nat_eq t.call u.call && t.id == u.id

unfoldable pub step : Event → Consumer → Consumer
step connects c = connect c
step opens c = on_open c
step drops c = dropped c
step closes c = close c
step (fails n message) c = if any (nat_eq n) c.auth_waiting then on_error n message c else c
step (auth_due n) c = if any (nat_eq n) c.auth_timers then auth_timer_fires n c else c
step (ack_due n) c = if any (nat_eq n) c.ack_timers then ack_timer_fires n c else c
step (subscribes message) c = subscribe message c
step (receives msg) c = receive msg c
step (controls id action args) c = send_control id action args c
step (control_due t) c = if any (same_timer t) c.timers then timer_fires t c else c

unfoldable pub run : List Event → Consumer → Consumer
run [] c = c
run (e ∷ es) c = run es (step e c)

-- Whether an event is the call of a method that makes a promise.
abbrev pub makes_promise : Event → Bool
makes_promise connects = true
makes_promise (subscribes message) = true
makes_promise (controls id action args) = true
makes_promise e = false
