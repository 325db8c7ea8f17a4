-- ===== src/Host/Runs.antt =====
-- What happens to the server, in any order: its sockets, its HTTP requests and its timers. A
-- message, an end and a timeout come only to a socket that is there for it.
use code_bridge.Base.{ℕ, Bool, true, false, Option, List, [], ◌∷◌, if◌then◌else◌}
use code_bridge.Js.Value.{Value}
use code_bridge.Socket.{ReadyState, closed}
use code_bridge.Host.{Host, conn_of}
use code_bridge.Host.Messages.{on_connection, on_message, on_auth_timeout, on_close}
use code_bridge.Host.Http.{Request, on_request, prune_http_sessions}

pub data Event : Type 0 where
  connects : Event
  -- what came in, or `none` where it is no JSON
  receives : ℕ → Option Value → Event
  auth_due closes : ℕ → Event
  requests : Request → Event
  prunes : Event

abbrev pub is_closed : ReadyState → Bool
is_closed closed = true
is_closed r = false

-- A socket that is not closed has an event.
unfoldable pub if_alive : ℕ → Host → Host → Host
if_alive id h' h = if is_closed (conn_of id h).ready then h else h'

unfoldable pub step : ℕ → Event → Host → Host
step now connects h = on_connection h
step now (receives id m) h = if_alive id (on_message now id m h) h
step now (auth_due id) h = if (conn_of id h).auth_timer then on_auth_timeout id h else h
step now (closes id) h = if_alive id (on_close id h) h
step now (requests r) h = (on_request now r h).0
step now prunes h = prune_http_sessions now h

unfoldable pub run : List (ℕ × Event) → Host → Host
run [] h = h
run ((now, e) ∷ es) h = run es (step now e h)
