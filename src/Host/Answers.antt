-- ===== src/Host/Answers.antt =====
-- A control request of a consumer, and its answers.
use code_bridge.Base.{ℕ, ◌≡◌, refl, Bool, none, some, List, [], ◌∷◌, nat_eq, find, erase, arith}
use code_bridge.Js.Value.{Value, string}
use code_bridge.Socket.{opened}
use code_bridge.Host.{Host, Frame, conn_of, same_key}
use code_bridge.Host.Bridges.{with_field, drop_request, answer_request, on_control_result}
use code_bridge.Host.Consumers.{on_consumer_control}
use code_bridge.Host.Unsent.{left}

module _ {K V : Type 0} (same : K → K → Bool) where
  find-erase : (k : K) (m : List (K × V)) → find same k (erase same k m) ≡ none
  find-erase k [] = refl
  find-erase k ((j, w) ∷ m) = ground (arith, find-erase k m)

-- The open socket c, which is no session, waits for the answer to a request.
record Waits (c : ℕ) (r : Value) (h : Host) : Type 0 where
  asked : find same_key r h.pending_control ≡ some c
  listening : (conn_of c h).ready ≡ opened
  no_session : find nat_eq c h.sessions ≡ none

dropped :
    (r : Value) (g : Frame) (h : Host) → on_control_result r g (drop_request r h) ≡ drop_request r h
unfolding on_control_result drop_request answer_request
dropped r g h = rw (find-erase same_key r h.pending_control) refl

-- The state that a control request leaves.
unfoldable pub asked_of : ℕ → ℕ → Value → Host → Host
asked_of now c m h = left (on_consumer_control now c m h)

-- The socket is open, and is no session.
abbrev pub IsListening : Host → ℕ → Type 0
IsListening h j = ((conn_of j h).ready ≡ opened) × (find nat_eq j h.sessions ≡ none)

-- The request as the bridges get it.
abbrev pub addressed : Value → Value → Value
addressed r m = with_field "id" r (with_field "type" (string "control_request") m)
