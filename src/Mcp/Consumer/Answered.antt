-- ===== src/Mcp/Consumer/Answered.antt =====
-- How the answer of the host reaches the promise of `sendControl`.
use code_bridge.Base.{
  List, eq_refl, ◌∙◌, ap, arith, none, some, true, if◌then◌else◌, ◌≡◌, ℕ, String,
}
use code_bridge.Base.{not, nat_eq, zero, suc, false, ◌==◌, Bool-cases, inl, inr, refl}
use code_bridge.Js.Value.{
  Value, get_field, truthy, or_value, undefined, null, bool, number, nan, infinity, neg_infinity,
  int, neg, string, array, object,
}
use code_bridge.Js.Print.{to_text, number_text}
use code_bridge.Mcp.Consumer.{
  is_open, Consumer, Settlement, resolved, rejected, error_message, outcome, find_pending, has_type,
  send_control, receive, answer, send,
}
use code_bridge.Mcp.Consumer.Promises.{Foreign, outcome-settle_self}
use code_bridge.Mcp.Consumer.Controls.{View, answered, view-receive}
use code_bridge.Mcp.Consumer.Runs.{Event}
use code_bridge.Mcp.Consumer.Unheld.{Unheld}
use code_bridge.Mcp.Consumer.Fresh.{reached, Fresh-reached}

-- How the message of an error reads to the caller.
abbrev pub complaint : Value → String
complaint undefined = "control failed"
complaint null = "control failed"
complaint (bool false) = "control failed"
complaint (bool true) = "true"
complaint (number nan) = "control failed"
complaint (number infinity) = "Infinity"
complaint (number neg_infinity) = "-Infinity"
complaint (number (int zero)) = "control failed"
complaint (number (int (suc n))) = number_text (int (suc n))
complaint (number (neg zero)) = "control failed"
complaint (number (neg (suc n))) = number_text (neg (suc n))
complaint (string s) = if s == "" then "control failed" else s
complaint (array vs) = to_text (array vs)
complaint (object fs) = "[object Object]"

-- What the caller learns from a control result.
abbrev pub verdict : Value → Settlement
verdict msg =
    if truthy (get_field "ok" msg)
    then resolved msg
    else rejected (complaint (get_field "message" (get_field "error" msg)))

suc_nonzero : (n : ℕ) → not (nat_eq (suc n) 0) ≡ true
suc_nonzero n = ground arith

or_value-nonzero : (a b : Value) → truthy a ≡ true → or_value a b ≡ a
unfolding or_value
or_value-nonzero a b h = rw h refl

text-complaint : (v : Value) → to_text (or_value v (string "control failed")) ≡ complaint v
unfolding or_value truthy to_text number_text
text-complaint undefined = refl
text-complaint null = refl
text-complaint (bool false) = refl
text-complaint (bool true) = refl
text-complaint (number nan) = refl
text-complaint (number infinity) = refl
text-complaint (number neg_infinity) = refl
text-complaint (number (int zero)) = refl
text-complaint (number (int (suc n))) =
    ap to_text (or_value-nonzero (number (int (suc n))) _ (suc_nonzero n))
text-complaint (number (neg zero)) = refl
text-complaint (number (neg (suc n))) =
    ap to_text (or_value-nonzero (number (neg (suc n))) _ (suc_nonzero n))
text-complaint (string s) = elim (Bool-cases (s == "")) [ inl e ↦ rw e refl | inr e ↦ rw e refl ]
text-complaint (array vs) = refl
text-complaint (object fs) = refl

-- The settlement that the code makes of a control result.
settlement_of : Value → Settlement
settlement_of msg =
    if truthy (get_field "ok" msg) then resolved msg else rejected (error_message msg)

settlement_of-verdict : (msg : Value) → settlement_of msg ≡ verdict msg
unfolding settlement_of error_message
settlement_of-verdict msg = rw (text-complaint (get_field "message" (get_field "error" msg))) refl

-- The promise with number n waits for an answer to the request with this id.
pub record Waits (n : ℕ) (id : String) (c : Consumer) : Type 0 where
  pub foreign : Foreign n c
  pub found : find_pending id c.pending ≡ some n
  pub unsettled : outcome n c.settled ≡ none

Waits-send_control :
    (c : Consumer) (id action : String) (args : Value)
    → Unheld c.calls c
    → is_open c.ws ≡ true
    → Waits c.calls id (send_control id action args c)
unfolding send_control send find_pending
Waits-send_control c id action args h o = ground (arith, h.foreign, eq_refl id)

outcome-receive :
    (n : ℕ) (id : String) (msg : Value) (c : Consumer)
    → Waits n id c
    → has_type "control_result" msg ≡ true
    → get_field "id" msg ≡ string id
    → outcome n (receive msg c).settled ≡ some (verdict msg)
unfolding answer settlement_of
outcome-receive n id msg c h t i =
    let found : answered msg c.pending ≡ some (id, n) = ground arith in
    ap (λ (v : View). v.outcome_of) (view-receive n msg c h.foreign)
    ∙ ap (λ o. outcome n (answer msg o c).settled) found
    ∙ outcome-settle_self n (settlement_of msg) _ h.unsettled
    ∙ ap some (settlement_of-verdict msg)

-- If, in any state that a run reaches, a control request is sent over an open socket and the next
-- message is a control result with its id, then the promise of the request resolves to that
-- message when the message's `ok` is truthy. Otherwise it is rejected: with the text of the
-- `message` of its `error` where that is truthy, and with `control failed` where it is not.
pub control_answered :
    (secret client_id : String) (before : List Event) (id action : String) (args msg : Value)
    → is_open (reached secret client_id before).ws ≡ true
    → has_type "control_result" msg ≡ true
    → get_field "id" msg ≡ string id
    → let c = reached secret client_id before in
      outcome c.calls (receive msg (send_control id action args c)).settled ≡ some (verdict msg)
control_answered secret client_id before id action args msg o t i =
    let c = reached secret client_id before in
    let fresh = Fresh-reached secret client_id before c.calls (omega arith) in
    outcome-receive c.calls id msg _ (Waits-send_control c id action args fresh o) t i
