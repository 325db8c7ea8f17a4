-- ===== src/Host/Messages.antt =====
-- The handlers of a socket: its first messages, the later ones by role, its timeout and its end.
use Prim.Native.String.{◌++◌ as ◌<>◌}
use code_bridge.Base.{
  suc, ℕ, true, false, Option, none, some, List, [], ◌∷◌, nat_eq, if◌then◌else◌, erase, add, remove,
}
use code_bridge.Js.Value.{Value, null, string, get_field, or_value}
use code_bridge.Js.Print.{to_text, decimal}
use code_bridge.Socket.{opened, closed}
use code_bridge.Host.{
  Host, Conn, Role, bridge, consumer, other, auth_success, pong, Ran, ended, threw, conn_of,
  set_conn, post, close_conn, has_type,
}
use code_bridge.Host.Routing.{equals_text}
use code_bridge.Host.Bridges.{from_bridge}
use code_bridge.Host.Consumers.{from_consumer}

-- The connection of a socket, which is not authenticated and whose timer runs.
unfoldable pub on_connection : Host → Host
unfolding set_conn
on_connection h =
    let c : Conn = record {
      ready = opened;
      is_authenticated = false;
      role = none;
      client_id = null;
      auth_timer = true;
    } in
    record (set_conn h.next c h) { next = suc h.next }

-- `message.role || 'bridge'`
abbrev pub role_of : Value → Role
role_of v =
    if equals_text "bridge" v then bridge else if equals_text "consumer" v then consumer else other

unfoldable pub enrol : Role → ℕ → Host → Host
enrol bridge id h = record h { bridges = add nat_eq id h.bridges }
enrol consumer id h = record h { consumers = add nat_eq id h.consumers }
enrol other id h = h

-- A role that is neither is closed.
unfoldable pub greet : Role → Value → ℕ → Host → Host
greet other client_id id h = close_conn id h
greet role client_id id h = post id (auth_success role client_id) h

unfoldable pub accept : ℕ → ℕ → Value → Host → Host
accept now id message h =
    let given_role = or_value (get_field "role" message) (string "bridge") in
    let role = role_of given_role in
    let client_id =
      or_value (get_field "clientId" message) (string (to_text given_role <> "-" <> decimal now)) in
    let c = conn_of id h in
    let h' : Host = enrol role id (
      set_conn id
        (record c {
          is_authenticated = true;
          role = some role;
          client_id = client_id;
          auth_timer = false;
        })
        h) in
    greet role client_id id h'

-- The first message.
unfoldable pub authenticate : ℕ → ℕ → Value → Host → Host
authenticate now id message h =
    if has_type "auth" message
    then (if equals_text h.secret (get_field "secret" message)
        then accept now id message h
        else close_conn id h)
    else close_conn id h

abbrev pub dispatch : Option Role → ℕ → ℕ → Value → Host → Ran
dispatch (some bridge) now id message h = from_bridge now id message h
dispatch (some consumer) now id message h = from_consumer now id message h
dispatch _ now id message h = ended h

-- A message that was parsed; reading a field of `null` throws.
unfoldable pub handle : ℕ → ℕ → Value → Host → Ran
handle now id null h = threw h
handle now id message h =
    let c = conn_of id h in
    if c.is_authenticated
    then (if has_type "ping" message
        then ended (post id pong h)
        else dispatch c.role now id message h)
    else ended (authenticate now id message h)

-- The `catch` closes the socket.
abbrev pub caught : ℕ → Ran → Host
caught id (ended h) = h
caught id (threw h) = close_conn id h

-- What came in, or `none` where it is no JSON.
unfoldable pub on_message : ℕ → ℕ → Option Value → Host → Host
on_message now id none h = close_conn id h
on_message now id (some message) h = caught id (handle now id message h)

-- The timer of the authentication fires.
unfoldable pub on_auth_timeout : ℕ → Host → Host
on_auth_timeout id h =
    let c = conn_of id h in
    let h' = set_conn id (record c { auth_timer = false }) h in
    if c.is_authenticated then h' else close_conn id h'

unfoldable pub drop_pending : ℕ → List (Value × ℕ) → List (Value × ℕ)
drop_pending id [] = []
drop_pending id ((k, reply_to) ∷ ps) =
    if nat_eq reply_to id then drop_pending id ps else (k, reply_to) ∷ drop_pending id ps

unfoldable pub retire : Option Role → ℕ → Host → Host
retire (some bridge) id h = record h {
  bridges = remove nat_eq id h.bridges;
  bridge_capabilities = erase nat_eq id h.bridge_capabilities;
  bridge_last_screenshot = erase nat_eq id h.bridge_last_screenshot;
}
retire (some consumer) id h = record h {
  consumers = remove nat_eq id h.consumers;
  consumer_subscriptions = erase nat_eq id h.consumer_subscriptions;
}
retire _ id h = h

-- The socket is closed.
unfoldable pub on_close : ℕ → Host → Host
on_close id h =
    let c = conn_of id h in
    let h' = retire c.role id (set_conn id (record c { ready = closed; auth_timer = false }) h) in
    record h' { pending_control = drop_pending id h'.pending_control }
