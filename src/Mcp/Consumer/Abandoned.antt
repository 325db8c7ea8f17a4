-- ===== src/Mcp/Consumer/Abandoned.antt =====
-- `close` clears the timers of the pending requests and rejects none of them.
use code_bridge.Base.{◌<◌, ◌≡◌, String, true, List, none, arith, nat_eq_iff}
use code_bridge.Socket.{is_open}
use code_bridge.Js.Value.{Value}
use code_bridge.Mcp.Consumer.{
  Consumer, outcome, without_pending, without_timer, clear_pending, send, send_control, close,
}
use code_bridge.Mcp.Consumer.Runs.{Event, run}
use code_bridge.Mcp.Consumer.Unheld.{Unheld, NotTimed-without, NotTimed-clear}
use code_bridge.Mcp.Consumer.Fresh.{reached, Fresh-reached, Unheld-run}

Unheld-closed :
    (c : Consumer) (id action : String) (args : Value)
    → Unheld c.calls c
    → is_open c.ws ≡ true
    → Unheld c.calls (close (send_control id action args c))
unfolding close send_control send clear_pending without_timer
Unheld-closed c id action args h o =
    let n = c.calls in
    let ps = without_pending id c.pending in
    ground
      (arith, nat_eq_iff n n, NotTimed-clear n ps _ (NotTimed-without n n c.timers h.not_timed), o)

calls-closed :
    (c : Consumer) (id action : String) (args : Value)
    → is_open c.ws ≡ true
    → c.calls < (close (send_control id action args c)).calls
unfolding close send_control send
calls-closed c id action args o = ground (arith, o)

-- If, in any state that a run reaches, a control request is sent over an open socket and the
-- consumer is closed before it is answered, then the promise of the request stays unsettled after
-- every further run of calls, messages, errors and timers: it is neither resolved nor rejected,
-- not even by its own timeout.
pub close_abandons :
    (secret client_id : String) (before after : List Event) (id action : String) (args : Value)
    → is_open (reached secret client_id before).ws ≡ true
    → let c = reached secret client_id before in
      outcome c.calls (run after (close (send_control id action args c))).settled ≡ none
close_abandons secret client_id before after id action args o =
    let c = reached secret client_id before in
    let fresh = Fresh-reached secret client_id before c.calls (omega arith) in
    (Unheld-run c.calls after _ (calls-closed c id action args o)
      (Unheld-closed c id action args fresh o)).unsettled
