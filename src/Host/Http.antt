-- ===== src/Host/Http.antt =====
-- The HTTP endpoints for bridges that have no socket.
use code_bridge.Base.{
  ◌||◌, ℕ, suc, ◌+◌, String, Bool, true, false, not, Option, none, some, List, [], ◌∷◌, ltb, nat_eq,
  ◌==◌, if◌then◌else◌, find, put, erase, add, remove,
}
use code_bridge.Js.Value.{
  Value, Values, int, null, string, number, array, nil, cons, get_field, or_value,
}
use code_bridge.Js.Spread.{spread}
use code_bridge.Host.{Host, Session, BridgeMeta, relayed, control_answer, Ran, ended, threw}
use code_bridge.Host.Routing.{route_to, equals_text}
use code_bridge.Host.Bridges.{set_bridge_meta, ran_of, fill, on_control_result}

pub data Endpoint : Type 0 where
  connect hello events control_result control_poll heartbeat disconnect elsewhere : Endpoint

-- A request. A body that is empty is the empty object, and one that is no JSON is `none`. The
-- name of a new session is drawn at random.
pub record Request : Type 0 where
  pub is_post : Bool
  pub path : Endpoint
  pub secret_header : Value
  pub body : Option Value
  pub drawn : String

-- What is answered.
pub data Response : Type 0 where
  plain : ℕ → String → Response
  no_content : Response
  connected : String → Response
  acknowledged : String → Response
  commands : List Value → Response

abbrev pub session_stale_ms : ℕ
session_stale_ms = 15_000

unfoldable pub with_id : ℕ → Option Session → Option (ℕ × Session)
with_id id none = none
with_id id (some session) = some (id, session)

unfoldable pub session_at : Option ℕ → Host → Option (ℕ × Session)
session_at none h = none
session_at (some id) h = with_id id (find nat_eq id h.sessions)

-- `getHttpSession(body.sessionId)`
unfoldable pub get_http_session : Value → Host → Option (ℕ × Session)
get_http_session (string s) h = session_at (find (λ a b. a == b) s h.http_bridge_sessions) h
get_http_session v h = none

unfoldable pub remove_http_session : ℕ → Session → Host → Host
remove_http_session id session h = record h {
  http_bridge_sessions = erase (λ a b. a == b) session.session_id h.http_bridge_sessions;
  bridges = remove nat_eq id h.bridges;
  bridge_capabilities = erase nat_eq id h.bridge_capabilities;
  bridge_last_screenshot = erase nat_eq id h.bridge_last_screenshot;
}

unfoldable pub prune_session : ℕ → ℕ → Option Session → Host → Host
prune_session now id none h = h
prune_session now id (some session) h =
    if ltb (session.last_seen + session_stale_ms) now then remove_http_session id session h else h

-- The sessions of a list of entries that were not heard of for too long go.
unfoldable pub prune : ℕ → List (String × ℕ) → Host → Host
prune now [] h = h
prune now ((name, id) ∷ entries) h =
    prune now entries (prune_session now id (find nat_eq id h.sessions) h)

unfoldable pub prune_http_sessions : ℕ → Host → Host
prune_http_sessions now h = prune now h.http_bridge_sessions h

-- `session.lastSeen = Date.now()`
unfoldable pub touch : ℕ → ℕ → Session → Host → Host
touch now id session h = record h {
  sessions = put nat_eq id (record session { last_seen = now }) h.sessions;
}

unfoldable pub add_session : ℕ → String → Host → Host
add_session now drawn h =
    let session : Session = record { session_id = drawn; queue = []; last_seen = now } in
    record h {
      next = suc h.next;
      sessions = put nat_eq h.next session h.sessions;
      http_bridge_sessions = put (λ a b. a == b) drawn h.next h.http_bridge_sessions;
      bridges = add nat_eq h.next h.bridges;
    }

unfoldable pub on_connect : ℕ → Value → Value → String → Host → Host × Response
on_connect now secret_header body drawn h =
    if equals_text h.secret (or_value (get_field "secret" body) secret_header)
    then (add_session now drawn h, connected drawn)
    else (h, plain 401 "unauthorized")

unfoldable pub on_http_hello : ℕ → Session → Value → Host → Host × Response
on_http_hello id session body h =
    let meta : BridgeMeta = record {
      capabilities = or_value (get_field "capabilities" body) (array nil);
      route = get_field "route" body;
      url = get_field "url" body;
      protocol = or_value (get_field "protocol" body) (number (int 2));
      platform = or_value (get_field "platform" body) (string "roblox");
      project_id = get_field "projectId" body;
    } in
    (set_bridge_meta id meta h, acknowledged session.session_id)

-- An event with what it lacks.
unfoldable pub complete_event : ℕ → Value → Value
complete_event now ev =
    fill "type" (string "log")
      (fill "level" (string "info") (fill "timestamp" (number (int now)) (spread ev)))

unfoldable pub deliver_to_consumers : ℕ → Value → ℕ → Host → Ran
deliver_to_consumers now message bridge h =
    ran_of (route_to now (some (relayed message)) message bridge h.consumers h)

-- An exception ends the loop.
abbrev pub and_then : Ran → (Host → Ran) → Ran
and_then (ended h) rest = rest h
and_then (threw h) rest = threw h

unfoldable pub on_events : ℕ → ℕ → Values → Host → Ran
on_events now id nil h = ended h
on_events now id (cons ev evs) h =
    and_then (deliver_to_consumers now (complete_event now ev) id h) (λ h'. on_events now id evs h')

-- `Array.isArray(body.events) ? body.events : []`
abbrev pub events_of : Value → Values
events_of (array vs) = vs
events_of v = nil

-- `session.queue.splice(0, session.queue.length)`
unfoldable pub take_queue : ℕ → Option Session → Host → Host × Response
take_queue id none h = (h, commands [])
take_queue id (some session) h = (
  record h { sessions = put nat_eq id (record session { queue = [] }) h.sessions },
  commands session.queue,
)

unfoldable pub on_poll : ℕ → Host → Host × Response
on_poll id h = take_queue id (find nat_eq id h.sessions) h

-- An exception is answered by 500.
abbrev pub answered : Response → Ran → Host × Response
answered response (ended h) = (h, response)
answered response (threw h) = (h, plain 500 "error")

-- What a session that was found asks for.
unfoldable pub serve : ℕ → Endpoint → ℕ → Session → Value → Host → Host × Response
serve now hello id session body h = on_http_hello id session body h
serve now events id session body h =
    answered no_content (on_events now id (events_of (get_field "events" body)) h)
serve now control_result id session body h =
    let request_id = get_field "id" body in
    (
      on_control_result request_id
          (control_answer request_id (get_field "ok" body) (get_field "result" body)
            (get_field "error" body))
          h,
      no_content,
    )
serve now control_poll id session body h = on_poll id h
serve now _ id session body h = (h, no_content)

unfoldable pub serve_found : ℕ → Endpoint → Value → Option (ℕ × Session) → Host → Host × Response
serve_found now path body none h = (h, plain 404 "session not found")
serve_found now path body (some (id, session)) h =
    serve now path id session body (touch now id session h)

-- A path that needs a session.
unfoldable pub with_session : ℕ → Endpoint → Value → Host → Host × Response
with_session now path body h =
    serve_found now path body (get_http_session (get_field "sessionId" body) h) h

unfoldable pub disconnect_found : Option (ℕ × Session) → Host → Host
disconnect_found none h = h
disconnect_found (some (id, session)) h = remove_http_session id session h

unfoldable pub on_disconnect : Value → Host → Host × Response
on_disconnect body h =
    (disconnect_found (get_http_session (get_field "sessionId" body) h) h, no_content)

unfoldable pub serve_path : ℕ → Request → Endpoint → Value → Host → Host × Response
serve_path now request connect body h = on_connect now request.secret_header body request.drawn h
serve_path now request disconnect body h = on_disconnect body h
serve_path now request path body h = with_session now path body h

-- A body that was read. Reading a field of `null` throws.
unfoldable pub serve_body : ℕ → Request → Value → Host → Host × Response
serve_body now request null h = (h, plain 500 "error")
serve_body now request body h = serve_path now request request.path body h

unfoldable pub on_body : ℕ → Request → Option Value → Host → Host × Response
on_body now request none h = (h, plain 500 "error")
on_body now request (some body) h = serve_body now request body h

abbrev is_elsewhere : Endpoint → Bool
is_elsewhere elsewhere = true
is_elsewhere path = false

unfoldable pub on_request : ℕ → Request → Host → Host × Response
on_request now request h =
    if not request.is_post || is_elsewhere request.path
    then (h, plain 404 "not found")
    else on_body now request request.body h
