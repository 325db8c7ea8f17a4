-- ===== src/Socket.antt =====
-- The ready states of a WebSocket, as the classes that hold one see them.
use code_bridge.Base.{Bool, true, false, Option, none, some}

pub data ReadyState : Type 0 where
  connecting opened closing closed : ReadyState

-- `ws?.readyState === 1`
abbrev pub is_open : Option ReadyState → Bool
is_open (some opened) = true
is_open _ = false

-- `ws?.close()`
abbrev pub close_ws : Option ReadyState → Option ReadyState
close_ws none = none
close_ws (some closed) = some closed
close_ws (some s) = some closing
