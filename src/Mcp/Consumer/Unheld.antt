-- ===== src/Mcp/Consumer/Unheld.antt =====
-- Promises that nothing in a consumer refers to, and how they fare.
use code_bridge.Base.{
  true, false, if◌then◌else◌, Bool, Option-cases, inl, inr, ◌∙◌, refl, ◌∙◌, ap, nat_eq_iff, sym,
  true, nat_eq, subst, Option, any, some, [], ◌∷◌, arith, none, All, String, ◌∷◌, ◌≡◌, ◌≢◌, ℕ, List,
}
use code_bridge.Js.Value.{string, Value, get_field}
use code_bridge.Mcp.Consumer.{
  dropped, is_open, pending_of, Frame, Settlement, Timer, Consumer, outcome, settle, find_pending,
  without_pending, without_timer, clear_pending, send, answer, receive, connect, on_open, on_error,
  auth_timer_fires, subscribe, ack_timer_fires, send_control, timer_fires, close,
}
use code_bridge.Mcp.Consumer.Promises.{
  Avoids, Avoids-without, Foreign, Foreign-settle, Foreign-send, Foreign-receive,
}
use code_bridge.Mcp.Consumer.Controls.{View, view-send, view, view-settle, answered, view-receive}
use code_bridge.Mcp.Consumer.Runs.{
  drops, makes_promise, connects, opens, closes, fails, auth_due, ack_due, subscribes, receives,
  controls, control_due, controls, receives, subscribes, ack_due, auth_due, same_timer, fails,
  Event, step,
}

abbrev pub NotPending : ℕ → List (String × ℕ) → Type 0
NotPending n = All (λ (p : String × ℕ). p.1 ≢ n)

abbrev pub NotTimed : ℕ → List Timer → Type 0
NotTimed n = All (λ (t : Timer). t.call ≢ n)

-- Nothing that the consumer holds can settle the promise with number n, and nothing has.
pub record Unheld (n : ℕ) (c : Consumer) : Type 0 where
  pub foreign : Foreign n c
  pub not_pending : NotPending n c.pending
  pub not_timed : NotTimed n c.timers
  pub unsettled : outcome n c.settled ≡ none

NotPending-without :
    (n : ℕ) (id : String) (ps : List (String × ℕ))
    → NotPending n ps
    → NotPending n (without_pending id ps)
unfolding without_pending
NotPending-without n id [] h = tt
NotPending-without n id ((k, m) ∷ ps) (p, h) = ground (arith, NotPending-without n id ps h)

pub NotTimed-without : (n k : ℕ) (ts : List Timer) → NotTimed n ts → NotTimed n (without_timer k ts)
unfolding without_timer
NotTimed-without n k [] h = tt
NotTimed-without n k (t ∷ ts) (p, h) = ground (arith, NotTimed-without n k ts h)

Unheld-view : (n : ℕ) (c d : Consumer) → view n d ≡ view n c → Foreign n d → Unheld n c → Unheld n d
Unheld-view n c d e f h = record {
  foreign = f;
  not_pending = subst (λ (v : View). NotPending n v.pending) (sym e) h.not_pending;
  not_timed = subst (λ (v : View). NotTimed n v.timers) (sym e) h.not_timed;
  unsettled = ap (λ (v : View). v.outcome_of) e ∙ h.unsettled;
}

Unheld-settle :
    (n k : ℕ) (s : Settlement) (c : Consumer) → k ≢ n → Unheld n c → Unheld n (settle k s c)
Unheld-settle n k s c p h =
    Unheld-view n c _ (view-settle n k s c p) (Foreign-settle n k s c h.foreign) h

Unheld-send : (n : ℕ) (f : Frame) (c : Consumer) → Unheld n c → Unheld n (send f c)
Unheld-send n f c h = Unheld-view n c _ (view-send n f c) (Foreign-send n f c h.foreign) h

NotPending-find :
    (n : ℕ) (id : String) (ps : List (String × ℕ)) (k : ℕ)
    → NotPending n ps
    → find_pending id ps ≡ some k
    → k ≢ n
unfolding find_pending
NotPending-find n id [] k h e = ground arith
NotPending-find n id ((j, m) ∷ ps) k (p, h) e = ground (arith, NotPending-find n id ps k h)

Unheld-answer :
    (n : ℕ) (msg : Value) (o : Option (String × ℕ)) (c : Consumer)
    → ((id : String) (k : ℕ) → o ≡ some (id, k) → k ≢ n)
    → Unheld n c
    → Unheld n (answer msg o c)
unfolding answer
Unheld-answer n msg none c p h = h
Unheld-answer n msg (some (id, k)) c p h = Unheld-settle n k _ _ (p id k refl) (record {
  foreign = ground (arith, h.foreign);
  not_pending = NotPending-without n id c.pending h.not_pending;
  not_timed = NotTimed-without n k c.timers h.not_timed;
  unsettled = h.unsettled;
})

NotPending-pending_of :
    (n : ℕ) (v : Value) (ps : List (String × ℕ)) (id : String) (k : ℕ)
    → NotPending n ps
    → pending_of v ps ≡ some (id, k)
    → k ≢ n
NotPending-pending_of n (string s) ps id k h e = elim (Option-cases (find_pending s ps)) [
  | inl q ↦ ground arith
  | inr (m, q) ↦ ground (arith, NotPending-find n s ps m h q)
]
NotPending-pending_of n v ps id k h e = absurd (ground arith)

NotPending-answered :
    (n : ℕ) (msg : Value) (ps : List (String × ℕ)) (id : String) (k : ℕ)
    → NotPending n ps
    → answered msg ps ≡ some (id, k)
    → k ≢ n
NotPending-answered n msg ps id k h e =
    NotPending-pending_of n (get_field "id" msg) ps id k h (ground arith)

Unheld-receive : (n : ℕ) (msg : Value) (c : Consumer) → Unheld n c → Unheld n (receive msg c)
Unheld-receive n msg c h =
    Unheld-view n _ _ (view-receive n msg c h.foreign) (Foreign-receive n msg c h.foreign) (
      Unheld-answer n msg (answered msg c.pending) c
        (λ id k. NotPending-answered n msg c.pending id k h.not_pending) h)

pub NotTimed-clear :
    (n : ℕ) (ps : List (String × ℕ)) (ts : List Timer)
    → NotTimed n ts
    → NotTimed n (clear_pending ps ts)
unfolding clear_pending
NotTimed-clear n [] ts h = h
NotTimed-clear n ((id, k) ∷ ps) ts h = NotTimed-clear n ps _ (NotTimed-without n k ts h)

Avoids-any : (n k : ℕ) (ns : List ℕ) → Avoids n ns → any (nat_eq k) ns ≡ true → k ≢ n
Avoids-any n k [] h e = ground arith
Avoids-any n k (m ∷ ns) (p, h) e = ground (arith, nat_eq_iff k m, Avoids-any n k ns h)

NotTimed-any :
    (n : ℕ) (t : Timer) (ts : List Timer)
    → NotTimed n ts
    → any (same_timer t) ts ≡ true
    → t.call ≢ n
NotTimed-any n t [] h e = ground arith
NotTimed-any n t (u ∷ ts) (p, h) e = ground (arith, nat_eq_iff t.call u.call, NotTimed-any n t ts h)

module _ (n : ℕ) (c : Consumer) (h : Unheld n c) where
  Unheld-if : (b : Bool) (x y : Consumer) → Unheld n x → Unheld n y → Unheld n (if b then x else y)
  Unheld-if true x y p q = p
  Unheld-if false x y p q = q

  Unheld-connect : c.calls ≢ n → Unheld n (connect c)
  unfolding connect
  Unheld-connect q = ground arith

  Unheld-on_open : Unheld n (on_open c)
  unfolding on_open
  Unheld-on_open = Unheld-send n _ _ (ground arith)

  Unheld-dropped : Unheld n (dropped c)
  unfolding dropped
  Unheld-dropped = ground arith

  Unheld-close : Unheld n (close c)
  unfolding close
  Unheld-close = ground (arith, NotTimed-clear n c.pending c.timers h.not_timed)

  Unheld-on_error : (k : ℕ) (message : String) → k ≢ n → Unheld n (on_error k message c)
  unfolding on_error
  Unheld-on_error k message p = Unheld-settle n k _ _ p h

  Unheld-auth_timer : (k : ℕ) → k ≢ n → Unheld n (auth_timer_fires k c)
  unfolding auth_timer_fires
  Unheld-auth_timer k p =
      Unheld-settle n k _ _ p
        (ground (arith, Avoids-without n k c.auth_timers h.foreign.not_auth_timer))

  Unheld-ack_timer : (k : ℕ) → k ≢ n → Unheld n (ack_timer_fires k c)
  unfolding ack_timer_fires
  Unheld-ack_timer k p =
      Unheld-settle n k _ _ p
        (ground (arith, Avoids-without n k c.ack_timers h.foreign.not_ack_timer))

  Unheld-timer : (t : Timer) → t.call ≢ n → Unheld n (timer_fires t c)
  unfolding timer_fires
  Unheld-timer t p = Unheld-settle n t.call _ _ p (
      ground (
        arith,
        NotTimed-without n t.call c.timers h.not_timed,
        NotPending-without n t.id c.pending h.not_pending,
      ))

  Unheld-subscribe : (message : Value) → c.calls ≢ n → Unheld n (subscribe message c)
  unfolding subscribe
  Unheld-subscribe message q =
      Unheld-if (is_open c.ws) _ _ (Unheld-send n _ _ (ground arith))
        (Unheld-settle n c.calls _ _ q (ground arith))

  Unheld-send_control :
      (id action : String) (args : Value) → c.calls ≢ n → Unheld n (send_control id action args c)
  unfolding send_control
  Unheld-send_control id action args q =
      Unheld-if (is_open c.ws) _ _
        (Unheld-send n _ _ (ground (arith, NotPending-without n id c.pending h.not_pending)))
        (Unheld-settle n c.calls _ _ q (ground arith))

pub Unheld-step :
    (n : ℕ) (e : Event) (c : Consumer)
    → (makes_promise e ≡ true → c.calls ≢ n)
    → Unheld n c
    → Unheld n (step e c)
unfolding step
Unheld-step n connects c q h = Unheld-connect n c h (q refl)
Unheld-step n opens c q h = Unheld-on_open n c h
Unheld-step n drops c q h = Unheld-dropped n c h
Unheld-step n closes c q h = Unheld-close n c h
Unheld-step n (fails k message) c q h =
    ground
      (arith, Unheld-on_error n c h k message, Avoids-any n k c.auth_waiting h.foreign.not_auth)
Unheld-step n (auth_due k) c q h =
    ground (arith, Unheld-auth_timer n c h k, Avoids-any n k c.auth_timers h.foreign.not_auth_timer)
Unheld-step n (ack_due k) c q h =
    ground (arith, Unheld-ack_timer n c h k, Avoids-any n k c.ack_timers h.foreign.not_ack_timer)
Unheld-step n (subscribes message) c q h = Unheld-subscribe n c h message (q refl)
Unheld-step n (receives msg) c q h = Unheld-receive n msg c h
Unheld-step n (controls id action args) c q h = Unheld-send_control n c h id action args (q refl)
Unheld-step n (control_due t) c q h =
    ground (arith, Unheld-timer n c h t, NotTimed-any n t c.timers h.not_timed)
