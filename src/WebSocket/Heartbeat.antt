-- ===== src/WebSocket/Heartbeat.antt =====
-- The heartbeat timeout in a run whose clock does not go back and whose timers fire in the order
-- in which they are due, however late.
use code_bridge.Base.{sym, subst, ℕ, ◌+◌, ◌≤◌, ◌<◌, ◌≡◌, Option, none, some, arith}
use code_bridge.Constants.{heartbeat_interval_ms}
use code_bridge.WebSocket.{Bridge}
use code_bridge.WebSocket.Timers.{Timers, timers, next, timers-step}
use code_bridge.WebSocket.Events.{
  Event, step, disconnects, socket_opened, socket_closed, socket_failed, receives, ping_due,
  timeout_due, reconnect_due,
}

abbrev DueBy : ℕ → Option ℕ → Type 0
DueBy now none = ⊥
DueBy now (some due) = due ≤ now

-- The second timer is not due before the first.
abbrev NotAfter : Option ℕ → Option ℕ → Type 0
NotAfter none other = ⊥
NotAfter (some due) none = Unit {0}
NotAfter (some due) (some other) = due ≤ other

-- A timer fires only when it is due, and the timeout only before the ping that is due later.
abbrev pub Enabled : ℕ → Event → Bridge → Type 0
Enabled now ping_due b = DueBy now b.heartbeat_interval
Enabled now timeout_due b =
    DueBy now b.heartbeat_timeout × NotAfter b.heartbeat_timeout b.heartbeat_interval
Enabled now (reconnect_due created) b = DueBy now b.reconnect_timeout
Enabled now _ b = Unit {0}

-- The states of a bridge, each with the time of its last event.
pub data Reachable (start : Bridge) : ℕ → Bridge → Type 0 where
  begins : {now : ℕ} → Reachable start now start
  happens :
      {now : ℕ} {b : Bridge} (later : ℕ) (e : Event)
      → Reachable start now b
      → now ≤ later
      → Enabled later e b
      → Reachable start later (step later e b)

-- A ping is always due before the timeout is.
abbrev Beats : ℕ → Option ℕ → Option ℕ → Type 0
Beats now none none = Unit {0}
Beats now none (some due) = ⊥
Beats now (some ping) none = ping ≤ now + heartbeat_interval_ms
Beats now (some ping) (some due) = (ping ≤ now + heartbeat_interval_ms) × (ping < due)

Beats-later : (now later : ℕ) (i o : Option ℕ) → now ≤ later → Beats now i o → Beats later i o
Beats-later now later none none h k = tt
Beats-later now later none (some due) h k = k
Beats-later now later (some p) none h k = omega arith
Beats-later now later (some p) (some due) h k = omega arith

abbrev BeatsT : ℕ → Timers → Type 0
BeatsT now t = Beats now t.heartbeat_interval t.heartbeat_timeout

next-Beats : (now : ℕ) (e : Event) (t : Timers) → BeatsT now t → BeatsT now (next now e t)
next-Beats now (socket_opened page) t h = omega arith
next-Beats now ping_due t h = omega arith
next-Beats now (socket_closed current) t h = tt
next-Beats now socket_failed t h = tt
next-Beats now disconnects t h = tt
next-Beats now (receives msg) t h = ground arith
next-Beats now _ t h = h

-- No timer of the heartbeat runs in the beginning.
abbrev pub Quiet : Bridge → Type 0
Quiet b = (b.heartbeat_interval ≡ none) × (b.heartbeat_timeout ≡ none)

Quiet-Beats : (now : ℕ) (i o : Option ℕ) → i ≡ none → o ≡ none → Beats now i o
Quiet-Beats now none none p q = tt
Quiet-Beats now none (some due) p q = cc
Quiet-Beats now (some ping) o p q = cc

Reachable-Beats :
    {start b : Bridge} {now : ℕ} → Quiet start → Reachable start now b → BeatsT now (timers b)
Reachable-Beats {start} {now} (i, o) begins =
    Quiet-Beats now start.heartbeat_interval start.heartbeat_timeout i o
Reachable-Beats q (happens {now} {b} later e r up on) =
    subst (BeatsT later) (sym (timers-step later e b)) (
      next-Beats later e (timers b)
        (Beats-later now later b.heartbeat_interval b.heartbeat_timeout up (Reachable-Beats q r)))

overtaken : (now later : ℕ) (i o : Option ℕ) → Beats now i o → ¬ (DueBy later o × NotAfter o i)
overtaken now later i none h d = d.0
overtaken now later none (some due) h d = h
overtaken now later (some ping) (some due) h (d, first) = omega arith

-- From a state with no heartbeat timer, whatever happens to the bridge and its sockets, and
-- whether or not any pong comes back, the heartbeat timeout never gets to fire: the next ping is
-- always due before it.
pub heartbeat_never_times_out :
    (later : ℕ) {start b : Bridge} {now : ℕ}
    → Quiet start
    → Reachable start now b
    → ¬ Enabled later timeout_due b
heartbeat_never_times_out later {b} {now} q r =
    overtaken now later b.heartbeat_interval b.heartbeat_timeout (Reachable-Beats q r)
