-- ===== src/Host.antt =====
-- bin/code-bridge-host.js: the state of the server, and its sockets. Objects are told apart by a
-- number: that of a socket, or of an HTTP session. What `console.log` could throw is left out, but
-- for `join` on what is no array.
pub mod Ports
pub mod Lock
pub mod Exclusion
pub mod Levels
pub mod Routing
pub mod Bridges
pub mod Agreement
pub mod Consumers
pub mod Messages
pub mod Http
pub mod Runs
pub mod Static
pub mod Queue
pub mod Answers
pub mod Limits
pub mod Overload
pub mod Delivery
pub mod Outside
pub mod Unsent
pub mod Forwarded
pub mod Handled
pub mod Secrecy
pub mod Owned
pub mod Held
pub mod Roles
pub mod Admitted
pub mod Forgotten
pub mod Sockets
pub mod Endpoints
pub mod Leaks
mod Tests
use code_bridge.Base.{
  ◌&&◌, ℕ, String, Bool, true, false, Option, none, some, List, [], ◌∷◌, ◌++◌, nat_eq, ◌==◌,
  if◌then◌else◌, find, put, map,
}
use code_bridge.Js.Value.{
  Value, Number, nan, infinity, neg_infinity, int, neg, undefined, null, bool, number, string,
  array, object, get_field, truthy,
}
use code_bridge.Socket.{ReadyState, opened, closed, is_open, close_ws}

pub data Role : Type 0 where
  bridge consumer other : Role

-- A socket, and what the closure of its connection holds.
pub record Conn : Type 0 where
  pub ready : ReadyState
  pub is_authenticated : Bool
  pub role : Option Role
  pub client_id : Value
  pub auth_timer : Bool

pub record Session : Type 0 where
  pub session_id : String
  pub queue : List Value
  pub last_seen : ℕ

pub record BridgeMeta : Type 0 where
  pub capabilities : Value
  pub route : Value
  pub url : Value
  pub protocol : Value
  pub platform : Value
  pub project_id : Value

pub record Subscription : Type 0 where
  pub levels : Value
  pub capabilities : Value
  pub llm_filter : String

-- What is sent, as a message of the protocol; `relayed` is the JSON of a message that came in.
pub data Frame : Type 0 where
  relayed : Value → Frame
  auth_success : Role → Value → Frame
  pong : Frame
  hello_ack : Value → Value → Frame
  subscribe_ack : Value → Subscription → Frame
  control_failed : Value → String → Frame
  control_forwarded : Value → ℕ → Frame
  control_answer : Value → Value → Value → Value → Frame
  rate_limit_notice : String → Option ℕ → Frame

pub record Host : Type 0 where
  pub secret : String
  pub next : ℕ
  pub conns : List (ℕ × Conn)
  pub sessions : List (ℕ × Session)
  pub http_bridge_sessions : List (String × ℕ)
  pub bridges : List ℕ
  pub consumers : List ℕ
  pub bridge_capabilities : List (ℕ × BridgeMeta)
  pub consumer_subscriptions : List (ℕ × Subscription)
  -- `replyTo` of each pending control request
  pub pending_control : List (Value × ℕ)
  pub bridge_last_screenshot : List (ℕ × ℕ)
  pub window_start : ℕ
  pub window_count : ℕ
  pub sent : List (ℕ × Frame)

unfoldable pub new : ℕ → String → Host
new now secret = record {
  secret = secret;
  next = 0;
  conns = [];
  sessions = [];
  http_bridge_sessions = [];
  bridges = [];
  consumers = [];
  bridge_capabilities = [];
  consumer_subscriptions = [];
  pending_control = [];
  bridge_last_screenshot = [];
  window_start = now;
  window_count = 0;
  sent = [];
}

-- How a handler ends; an exception keeps what was done before it.
pub data Ran : Type 0 where
  ended threw : Host → Ran

abbrev pub no_conn : Conn
no_conn = record {
  ready = closed;
  is_authenticated = false;
  role = none;
  client_id = undefined;
  auth_timer = false;
}

abbrev pub or_no_conn : Option Conn → Conn
or_no_conn none = no_conn
or_no_conn (some c) = c

unfoldable pub conn_of : ℕ → Host → Conn
conn_of id h = or_no_conn (find nat_eq id h.conns)

unfoldable pub set_conn : ℕ → Conn → Host → Host
set_conn id c h = record h { conns = put nat_eq id c h.conns }

-- `ws.send`: what is sent to a socket that is not open is lost.
unfoldable pub post : ℕ → Frame → Host → Host
unfolding conn_of
post id frame h =
    if is_open (some (conn_of id h).ready)
    then record h { sent = h.sent ++ (id, frame) ∷ [] }
    else h

abbrev pub closing_of : Option ReadyState → ReadyState
closing_of none = closed
closing_of (some r) = r

-- `ws.close(code, reason)`
unfoldable pub close_conn : ℕ → Host → Host
unfolding conn_of set_conn
close_conn id h =
    let c = conn_of id h in
    set_conn id (record c { ready = closing_of (close_ws (some c.ready)) }) h

-- `readyState === 1`, which a session always has
abbrev pub ready_by : Option Session → ReadyState → Bool
ready_by (some s) r = true
ready_by none r = is_open (some r)

unfoldable pub is_ready : ℕ → Host → Bool
unfolding conn_of
is_ready id h = ready_by (find nat_eq id h.sessions) (conn_of id h).ready

abbrev number_key : Number → Number → Bool
number_key nan nan = true
number_key infinity infinity = true
number_key neg_infinity neg_infinity = true
number_key (int m) (int n) = nat_eq m n
number_key (neg m) (neg n) = nat_eq m n
number_key (int m) (neg n) = nat_eq m 0 && nat_eq n 0
number_key (neg m) (int n) = nat_eq m 0 && nat_eq n 0
number_key _ _ = false

-- Equality of the keys of a map. An object or array that was parsed is no other one.
unfoldable pub same_key : Value → Value → Bool
same_key undefined undefined = true
same_key null null = true
same_key (bool true) (bool true) = true
same_key (bool false) (bool false) = true
same_key (number m) (number n) = number_key m n
same_key (string s) (string t) = s == t
same_key _ _ = false

-- `message.type === tag`
abbrev pub has_type : String → Value → Bool
has_type tag message = elim (get_field "type" message) [ string s ↦ s == tag | _ ↦ false ]
