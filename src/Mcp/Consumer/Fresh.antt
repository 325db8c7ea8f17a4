-- ===== src/Mcp/Consumer/Fresh.antt =====
-- In every run, a promise that is yet to be made is one that nothing refers to.
use code_bridge.Base.{
  nat_eq, any, Option, ℕ, suc, ◌+◌, ◌≤◌, ◌<◌, ◌≡◌, refl, ap, ◌∙◌, String, Bool, true, false, List,
  [], ◌∷◌, arith, if◌then◌else◌, none, some,
}
use code_bridge.Js.Value.{Value}
use code_bridge.Socket.{opened, is_open}
use code_bridge.Mcp.Consumer.{
  in_state, dropped, without, without_timer, without_pending, Consumer, Settlement, Frame, new,
  settle, send, outcome, connect, on_open, on_error, auth_timer_fires, subscribe, ack_timer_fires,
  send_control, timer_fires, close, answer, receive,
}
use code_bridge.Mcp.Consumer.Controls.{View, answered, view-receive}
use code_bridge.Mcp.Consumer.Runs.{
  drops, same_timer, Event, step, run, makes_promise, connects, opens, closes, fails, auth_due,
  ack_due, subscribes, receives, controls, control_due,
}
use code_bridge.Mcp.Consumer.Unheld.{Unheld, Unheld-step}

calls-settle :
    (n : ℕ) (s : Settlement) (c : Consumer) (k : ℕ) → c.calls ≡ k → (settle n s c).calls ≡ k
unfolding settle
calls-settle n s c k h = ground arith

calls-send : (f : Frame) (c : Consumer) (k : ℕ) → c.calls ≡ k → (send f c).calls ≡ k
unfolding send
calls-send f c k h = ground arith

calls-answer :
    (msg : Value) (o : Option (String × ℕ)) (c : Consumer) → (answer msg o c).calls ≡ c.calls
unfolding answer
calls-answer msg none c = refl
calls-answer msg (some (id, n)) c = calls-settle n _ _ _ refl

calls-receive : (n : ℕ) (msg : Value) (c : Consumer) → Unheld n c → (receive msg c).calls ≡ c.calls
calls-receive n msg c h =
    ap (λ (v : View). v.calls_made) (view-receive n msg c h.foreign)
    ∙ calls-answer msg (answered msg c.pending) c

calls-if :
    (b : Bool) (x y : Consumer) (k : ℕ) → x.calls ≡ k → y.calls ≡ k → (if b then x else y).calls ≡ k
calls-if true x y k p q = p
calls-if false x y k p q = q

abbrev made : Event → ℕ
made e = if makes_promise e then 1 else 0

calls-step : (n : ℕ) (e : Event) (c : Consumer) → Unheld n c → (step e c).calls ≡ made e + c.calls
unfolding step connect on_open dropped on_error auth_timer_fires subscribe ack_timer_fires
    send_control timer_fires close
calls-step n connects c h = omega arith
calls-step n opens c h =
    calls-send _ (record c { ws = in_state opened c.ws }) (0 + c.calls) (omega arith)
calls-step n drops c h = omega arith
calls-step n closes c h = omega arith
calls-step n (fails k message) c h =
    calls-if (any (nat_eq k) c.auth_waiting) _ c (0 + c.calls) (calls-settle k _ c _ (omega arith))
      (omega arith)
calls-step n (auth_due k) c h =
    calls-if (any (nat_eq k) c.auth_timers) _ c (0 + c.calls)
      (calls-settle k _ (record c { auth_timers = without k c.auth_timers }) _ (omega arith))
      (omega arith)
calls-step n (ack_due k) c h =
    calls-if (any (nat_eq k) c.ack_timers) _ c (0 + c.calls)
      (calls-settle k _ (record c { ack_timers = without k c.ack_timers }) _ (omega arith))
      (omega arith)
calls-step n (subscribes message) c h =
    calls-if (is_open c.ws) _ _ (1 + c.calls) (calls-send _ _ (1 + c.calls) (omega arith))
      (calls-settle c.calls _ (record c { calls = suc c.calls }) (1 + c.calls) (omega arith))
calls-step n (receives msg) c h = omega (arith, calls-receive n msg c h)
calls-step n (controls id action args) c h =
    calls-if (is_open c.ws) _ _ (1 + c.calls) (calls-send _ _ (1 + c.calls) (omega arith))
      (calls-settle c.calls _ (record c { calls = suc c.calls }) (1 + c.calls) (omega arith))
calls-step n (control_due t) c h =
    calls-if (any (same_timer t) c.timers) _ c (0 + c.calls)
      (calls-settle t.call _
        (record c {
          timers = without_timer t.call c.timers;
          pending = without_pending t.id c.pending;
        })
        _ (omega arith))
      (omega arith)

pub Unheld-run :
    (n : ℕ) (es : List Event) (c : Consumer) → n < c.calls → Unheld n c → Unheld n (run es c)
unfolding run
Unheld-run n [] c p h = h
Unheld-run n (e ∷ es) c p h =
    Unheld-run n es (step e c) (ground (arith, calls-step n e c h, p))
      (Unheld-step n e c (λ q. omega arith) h)

-- The promises that are yet to be made.
abbrev pub Fresh : Consumer → Type 0
Fresh c = (n : ℕ) → c.calls ≤ n → Unheld n c

Fresh-new : (secret client_id : String) → Fresh (new secret client_id)
unfolding new outcome
Fresh-new secret client_id n p = record {
  foreign = record { not_auth = tt; not_auth_timer = tt; not_ack = tt; not_ack_timer = tt };
  not_pending = tt;
  not_timed = tt;
  unsettled = refl;
}

Fresh-step : (e : Event) (c : Consumer) → Fresh c → Fresh (step e c)
Fresh-step e c h n p =
    let counted = calls-step c.calls e c (h c.calls (omega arith)) in
    Unheld-step n e c (λ q. ground (arith, counted, p, q)) (h n (ground (arith, counted, p)))

Fresh-run : (es : List Event) (c : Consumer) → Fresh c → Fresh (run es c)
unfolding run
Fresh-run [] c h = h
Fresh-run (e ∷ es) c h = Fresh-run es (step e c) (Fresh-step e c h)

-- A consumer after any run.
abbrev pub reached : String → String → List Event → Consumer
reached secret client_id es = run es (new secret client_id)

pub Fresh-reached :
    (secret client_id : String) (es : List Event) → Fresh (reached secret client_id es)
Fresh-reached secret client_id es = Fresh-run es _ (Fresh-new secret client_id)
