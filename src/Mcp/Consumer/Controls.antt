-- ===== src/Mcp/Consumer/Controls.antt =====
-- What a promise of `sendControl` depends on: the pending requests, the timers, its own outcome.
use code_bridge.Base.{
  ◌||◌, ℕ, ◌≡◌, ◌≢◌, refl, ◌∙◌, String, Bool, true, false, Option, none, List, [], ◌∷◌, arith,
  if◌then◌else◌,
}
use code_bridge.Js.Value.{
  bool, number, array, object, null, Value, get_field, string, undefined, truthy,
}
use code_bridge.Mcp.Consumer.{
  dispatch, control_result, bridge_event, control_result, Settlement, resolved, Timer, Consumer,
  Frame, emit, subscribe_ack, outcome, settle, without, send, answer, pending_of, handle_message,
  hear_auth, hear_ack, receive, has_type,
}
use code_bridge.Mcp.Consumer.Promises.{Avoids, Foreign, Foreign-handle_message, Foreign-hear_auth}

pub record View : Type 0 where
  pub pending : List (String × ℕ)
  pub timers : List Timer
  pub outcome_of : Option Settlement
  pub calls_made : ℕ

abbrev pub view : ℕ → Consumer → View
view n c = record {
  pending = c.pending;
  timers = c.timers;
  outcome_of = outcome n c.settled;
  calls_made = c.calls;
}

pub view-settle :
    (n k : ℕ) (s : Settlement) (c : Consumer) → k ≢ n → view n (settle k s c) ≡ view n c
unfolding settle outcome
view-settle n k s c h = ground arith

pub view-send : (n : ℕ) (f : Frame) (c : Consumer) → view n (send f c) ≡ view n c
unfolding send
view-send n f c = ground arith

view-hear_auth :
    (n : ℕ) (ns : List ℕ) (c : Consumer) → Avoids n ns → view n (hear_auth ns c) ≡ view n c
unfolding hear_auth
view-hear_auth n [] c h = refl
view-hear_auth n (k ∷ ns) c (p, h) =
    view-hear_auth n ns _ h
    ∙ view-settle n k (resolved undefined) (record c { auth_timers = without k c.auth_timers }) p

view-hear_ack :
    (n : ℕ) (msg : Value) (ns : List ℕ) (c : Consumer)
    → Avoids n ns
    → view n (hear_ack msg ns c) ≡ view n c
unfolding hear_ack
view-hear_ack n msg [] c h = refl
view-hear_ack n msg (k ∷ ns) c (p, h) =
    view-hear_ack n msg ns _ h
    ∙ view-settle n k (resolved undefined)
        (emit (subscribe_ack msg) (record c { ack_timers = without k c.ack_timers })) p

-- The request that a message answers, if it is a control result.
abbrev pub answered : Value → List (String × ℕ) → Option (String × ℕ)
answered msg ps = if has_type "control_result" msg then pending_of (get_field "id" msg) ps else none

module _ (n : ℕ) (c : Consumer) where
  view-if :
      (b : Bool) (x y : Consumer)
      → view n x ≡ view n c
      → view n y ≡ view n c
      → view n (if b then x else y) ≡ view n c
  view-if true x y p q = p
  view-if false x y p q = q

  view-answered :
      (b : Bool) (msg : Value) (o : Option (String × ℕ)) (rest : Consumer)
      → view n rest ≡ view n c
      → view n (if b then emit (control_result msg) (answer msg o c) else rest)
        ≡ view n (answer msg (if b then o else none) c)
  unfolding answer
  view-answered true msg o rest p = refl
  view-answered false msg o rest p = p

  view-dispatch :
      (msg : Value) → view n (dispatch msg c) ≡ view n (answer msg (answered msg c.pending) c)
  unfolding dispatch
  view-dispatch msg =
      view-answered (has_type "control_result" msg) msg (pending_of (get_field "id" msg) c.pending)
        _
        (view-if (has_type "rate_limit_notice" msg) c _ refl (
          view-if
            (has_type "auth_success" msg
              || has_type "subscribe_ack" msg
              || has_type "control_forwarded" msg)
            c _ refl
            (view-if (truthy (get_field "type" msg)) (emit (bridge_event msg) c) c refl refl)))

  view-handle_message :
      (msg : Value) → view n (handle_message msg c) ≡ view n (answer msg (answered msg c.pending) c)
  unfolding handle_message answer get_field
  view-handle_message undefined = view-dispatch undefined
  view-handle_message null = refl
  view-handle_message (bool b) = view-dispatch (bool b)
  view-handle_message (number x) = view-dispatch (number x)
  view-handle_message (string s) = view-dispatch (string s)
  view-handle_message (array vs) = view-dispatch (array vs)
  view-handle_message (object fs) = view-dispatch (object fs)

-- On receiving a message, nothing but the answer to a pending request matters.
pub view-receive :
    (n : ℕ) (msg : Value) (c : Consumer)
    → Foreign n c
    → view n (receive msg c) ≡ view n (answer msg (answered msg c.pending) c)
unfolding receive
view-receive n msg c h =
    let c₁ = handle_message msg c in
    let h₁ = Foreign-handle_message n msg c h in
    let c₂ = if has_type "auth_success" msg then hear_auth c₁.auth_waiting c₁ else c₁ in
    let h₂ : Foreign n c₂ = ground (arith, Foreign-hear_auth n c₁.auth_waiting c₁ h₁, h₁) in
    let v₂ : view n c₂ ≡ view n c₁ =
      ground (arith, view-hear_auth n c₁.auth_waiting c₁ h₁.not_auth) in
    ground (arith, view-hear_ack n msg c₂.ack_waiting c₂ h₂.not_ack, v₂)
    ∙ view-handle_message n c msg
