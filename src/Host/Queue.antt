-- ===== src/Host/Queue.antt =====
-- The queue of an HTTP session: what a consumer sends, and what a poll gets.
use mathlib.Core.List.{append-nil, append_assoc}
use code_bridge.Base.{
  ℕ, ◌≡◌, refl, ◌∙◌, ap, sym, some, List, [], ◌∷◌, ◌++◌, nat_eq, find, put, arith,
}
use code_bridge.Js.Value.{Value}
use code_bridge.Host.{Host, Session}
use code_bridge.Host.Consumers.{enqueue_or_post, forward_to}
use code_bridge.Host.Http.{commands, take_queue, on_poll}

pub find-put :
    {V : Type 0} (b : ℕ) (v : V) (m : List (ℕ × V)) → find nat_eq b (put nat_eq b v m) ≡ some v
find-put b v [] = ground arith
find-put b v ((i, w) ∷ m) = ground (arith, find-put b v m)

-- Control requests for a bridge, one after the other.
unfoldable pub forward_each : List Value → ℕ → Host → Host
forward_each [] b h = h
forward_each (m ∷ ms) b h = forward_each ms b (forward_to m b h)

queued :
    (ms : List Value) (b : ℕ) (s : Session) (h : Host)
    → find nat_eq b h.sessions ≡ some s
    → find nat_eq b (forward_each ms b h).sessions ≡ some (record s { queue = s.queue ++ ms })
unfolding forward_each forward_to enqueue_or_post
queued [] b s h e = e ∙ ap (λ q. some (record s { queue = q })) (sym (append-nil s.queue))
queued (m ∷ ms) b s h e =
    let s' : Session = record s { queue = s.queue ++ m ∷ [] } in
    queued ms b s' (forward_to m b h) (rw e (find-put b s' h.sessions))
    ∙ ap (λ q. some (record s { queue = q })) {y = s.queue ++ m ∷ ms}
        (append_assoc s.queue (m ∷ []) ms)

-- A poll of an HTTP session gets the control requests that were waiting and those that were sent
-- to it since, in the order in which they were sent, and the next poll gets none of them again.
pub poll-queue :
    (ms : List Value) (b : ℕ) (s : Session) (h : Host)
    → find nat_eq b h.sessions ≡ some s
    → ((on_poll b (forward_each ms b h)).1 ≡ commands (s.queue ++ ms))
      × ((on_poll b (on_poll b (forward_each ms b h)).0).1 ≡ commands [])
unfolding on_poll take_queue
poll-queue ms b s h e =
    let s' : Session = record s { queue = s.queue ++ ms } in
    let emptied : Session = record s { queue = [] } in
    let h' = forward_each ms b h in
    rw (queued ms b s h e) (refl, rw (find-put b emptied h'.sessions) refl)
