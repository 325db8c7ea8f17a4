-- ===== src/Mcp/Consumer/Promises.antt =====
-- How a promise with a given number fares while others are settled.
use code_bridge.Base.{
  ℕ, ◌≡◌, ◌≢◌, String, Option, none, some, List, [], ◌∷◌, arith, if◌then◌else◌, All,
}
use code_bridge.Js.Value.{Value, get_field, undefined}
use code_bridge.Mcp.Consumer.{
  dispatch, has_type, receive, Settlement, resolved, Consumer, Frame, emit, subscribe_ack, outcome,
  settle, without, send, answer, pending_of, handle_message, hear_auth, hear_ack,
}

-- No promise of a list is the one with number n.
abbrev pub Avoids : ℕ → List ℕ → Type 0
Avoids n = All (λ k. k ≢ n)

pub Avoids-without : (n k : ℕ) (ns : List ℕ) → Avoids n ns → Avoids n (without k ns)
Avoids-without n k [] h = tt
Avoids-without n k (m ∷ ns) (p, h) = ground (arith, Avoids-without n k ns h)

-- The promise with number n is not one of `connect` or `subscribe`.
pub record Foreign (n : ℕ) (c : Consumer) : Type 0 where
  pub not_auth : Avoids n c.auth_waiting
  pub not_auth_timer : Avoids n c.auth_timers
  pub not_ack : Avoids n c.ack_waiting
  pub not_ack_timer : Avoids n c.ack_timers

pub outcome-settle :
    (n k : ℕ) (s : Settlement) (c : Consumer)
    → k ≢ n
    → outcome n (settle k s c).settled ≡ outcome n c.settled
unfolding settle outcome
outcome-settle n k s c h = ground arith

pub outcome-settle_self :
    (n : ℕ) (s : Settlement) (c : Consumer)
    → outcome n c.settled ≡ none
    → outcome n (settle n s c).settled ≡ some s
unfolding settle outcome
outcome-settle_self n s c h = ground arith

pub Foreign-settle :
    (n k : ℕ) (s : Settlement) (c : Consumer) → Foreign n c → Foreign n (settle k s c)
unfolding settle
Foreign-settle n k s c h = ground arith

pub Foreign-send : (n : ℕ) (f : Frame) (c : Consumer) → Foreign n c → Foreign n (send f c)
unfolding send
Foreign-send n f c h = ground arith

Foreign-answer :
    (n : ℕ) (msg : Value) (o : Option (String × ℕ)) (c : Consumer)
    → Foreign n c
    → Foreign n (answer msg o c)
unfolding answer
Foreign-answer n msg none c h = h
Foreign-answer n msg (some (id, k)) c h = Foreign-settle n k _ _ (record {
  not_auth = h.not_auth;
  not_auth_timer = h.not_auth_timer;
  not_ack = h.not_ack;
  not_ack_timer = h.not_ack_timer;
})

pub Foreign-handle_message :
    (n : ℕ) (msg : Value) (c : Consumer) → Foreign n c → Foreign n (handle_message msg c)
unfolding handle_message dispatch
Foreign-handle_message n msg c h =
    let o = pending_of (get_field "id" msg) c.pending in ground (arith, Foreign-answer n msg o c h)

pub Foreign-hear_auth :
    (n : ℕ) (ns : List ℕ) (c : Consumer) → Foreign n c → Foreign n (hear_auth ns c)
unfolding hear_auth
Foreign-hear_auth n [] c h = ground arith
Foreign-hear_auth n (k ∷ ns) c h = Foreign-hear_auth n ns _ (
    Foreign-settle n k (resolved undefined) (record c { auth_timers = without k c.auth_timers })
      (record {
        not_auth = h.not_auth;
        not_auth_timer = Avoids-without n k c.auth_timers h.not_auth_timer;
        not_ack = h.not_ack;
        not_ack_timer = h.not_ack_timer;
      }))

Foreign-hear_ack :
    (n : ℕ) (msg : Value) (ns : List ℕ) (c : Consumer) → Foreign n c → Foreign n (hear_ack msg ns c)
unfolding hear_ack
Foreign-hear_ack n msg [] c h = ground arith
Foreign-hear_ack n msg (k ∷ ns) c h = Foreign-hear_ack n msg ns _ (
    Foreign-settle n k (resolved undefined)
      (emit (subscribe_ack msg) (record c { ack_timers = without k c.ack_timers }))
      (record {
        not_auth = h.not_auth;
        not_auth_timer = h.not_auth_timer;
        not_ack = h.not_ack;
        not_ack_timer = Avoids-without n k c.ack_timers h.not_ack_timer;
      }))

pub Foreign-receive : (n : ℕ) (msg : Value) (c : Consumer) → Foreign n c → Foreign n (receive msg c)
unfolding receive
Foreign-receive n msg c h =
    let c₁ = handle_message msg c in
    let h₁ = Foreign-handle_message n msg c h in
    let c₂ = if has_type "auth_success" msg then hear_auth c₁.auth_waiting c₁ else c₁ in
    let h₂ : Foreign n c₂ = ground (arith, Foreign-hear_auth n c₁.auth_waiting c₁ h₁, h₁) in
    ground (arith, Foreign-hear_ack n msg c₂.ack_waiting c₂ h₂, h₂)
