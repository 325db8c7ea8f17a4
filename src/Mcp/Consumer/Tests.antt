-- ===== src/Mcp/Consumer/Tests.antt =====
-- src/mcp/consumer.ts on a run: connect, authenticate, send a control request.
use code_bridge.Base.{List, refl, false, none, [], some, true, ◌∷◌, ◌≡◌}
use code_bridge.Js.Value.{
  get_field, truthy, bool, end, string, undefined, field, truthy, get_field, null, object, Value,
}
use code_bridge.Mcp.Consumer.{
  hear_auth, handle_message, dispatch, on_open, send, connect, settle, answer, has_type, is_open,
  Consumer, new, outcome, receive, send_control, close, resolved, rejected,
}
use code_bridge.Mcp.Consumer.Runs.{Event, step, opens, connects, receives, step, run}
use code_bridge.Mcp.Consumer.Fresh.{reached}
use code_bridge.Mcp.Consumer.Abandoned.{close_abandons}
use code_bridge.Mcp.Consumer.Answered.{verdict, control_answered}

abbrev auth_success : Value
auth_success = object (field "type" (string "auth_success") end)

abbrev refusal : Value
refusal = object (
    field "type" (string "control_result") (
      field "id" (string "req-1") (
        field "ok" (bool false)
          (field "error" (object (field "message" (string "no target") end)) end))))

abbrev start_up : List Event
start_up = connects ∷ opens ∷ receives auth_success ∷ []

abbrev ready : Consumer
ready = reached "dev-secret" "mcp" start_up

ready_settled : ready.settled ≡ (0, resolved undefined) ∷ []
unfolding run step new receive outcome get_field hear_auth handle_message dispatch on_open send
    connect settle truthy answer
ready_settled = refl

ready_outcome : outcome 0 ready.settled ≡ some (resolved undefined)
unfolding run step new receive outcome get_field hear_auth handle_message dispatch on_open send
    connect settle
ready_outcome = refl

ready_open : is_open ready.ws ≡ true
unfolding run step new receive outcome get_field hear_auth handle_message dispatch on_open send
    connect settle truthy answer
ready_open = refl

refusal_id : get_field "id" refusal ≡ string "req-1"
unfolding get_field
refusal_id = refl

refusal_type : has_type "control_result" refusal ≡ true
unfolding get_field
refusal_type = refl

refusal-verdict : verdict refusal ≡ rejected "no target"
unfolding get_field truthy
refusal-verdict = refl

close_abandons_example :
    outcome ready.calls
      (run (receives refusal ∷ []) (close (send_control "req-1" "eval" null ready))).settled
    ≡ none
close_abandons_example =
    close_abandons "dev-secret" "mcp" start_up (receives refusal ∷ []) "req-1" "eval" null
      ready_open

control_answered_example :
    outcome ready.calls (receive refusal (send_control "req-1" "eval" null ready)).settled
    ≡ some (verdict refusal)
control_answered_example =
    control_answered "dev-secret" "mcp" start_up "req-1" "eval" null refusal ready_open refusal_type
      refusal_id
