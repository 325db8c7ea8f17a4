-- ===== src/Client/Requests.antt =====
-- src/client.ts: the requests of node's http and https as `patchModule` wraps them. What the runtime
-- tells of a request is an event. The size of a chunk that is written is what `Buffer.byteLength` or
-- `length` says; of one that is received it is its `length`, which is the units of a string where the
-- caller has set an encoding. A request gets one response at a time.
pub mod Reports
use Prim.Native.String.{◌++◌ as ◌<>◌}
use code_bridge.Base.{
  ℕ, ◌+◌, ◌-◌, String, Bool, true, false, not, ◌&&◌, Option, none, some, List, [], ◌∷◌, ◌++◌, ltb,
  ◌==◌, if◌then◌else◌,
}
use code_bridge.Js.Value.{
  Value, int, undefined, null, string, number, array, object, get_field, or_value, truthy,
}
use code_bridge.Js.Text.{to_upper_case}
use code_bridge.Js.Print.{to_text, decimal}

abbrev upper_text : Value → String
upper_text v = to_upper_case (to_text v)

-- `port ? `:${port}` : ''`
abbrev port_text : Value → String
port_text v = if truthy v then ":" <> to_text v else ""

unfoldable pub composed_url : String → Value → String
composed_url transport opts =
    let host =
      or_value (or_value (get_field "hostname" opts) (get_field "host" opts))
        (string "localhost") in
    let path = or_value (get_field "path" opts) (string "/") in
    transport <> "://" <> to_text host <> port_text (get_field "port" opts) <> to_text path

-- The method of the options after a text.
abbrev method_after : Value → String
method_after second =
    let method = get_field "method" second in if truthy method then upper_text method else "GET"

-- The url and the method of a request, from its first two arguments.
unfoldable pub normalize_node_request_args : String → Value → Value → Value × String
normalize_node_request_args transport (string s) second = (string s, method_after second)
normalize_node_request_args transport (object fs) second =
    let opts = object fs in
    (
      (if truthy (get_field "href" opts)
          then get_field "href" opts
          else string (composed_url transport opts)),
      upper_text (or_value (get_field "method" opts) (string "GET")),
    )
normalize_node_request_args transport (array vs) second =
    (string (composed_url transport (array vs)), "GET")
normalize_node_request_args transport first second = (string "", "GET")

-- What `dispatchNetwork` is called with; the identifier of the request is left out.
pub record Report : Type 0 where
  pub url : Value
  pub method : String
  pub status : Option ℕ
  pub ok : Option Bool
  pub duration_ms : ℕ
  pub request_size : ℕ
  pub response_size : Option ℕ
  pub transport : String
  pub error_message : Value
  pub message : String
  pub breadcrumb_level : String
  pub event_level : String
  pub bypass_throttle : Bool

-- The closure of a wrapped request. Its response is a status with the size so far.
pub record Request : Type 0 where
  pub url : Value
  pub method : String
  pub transport : String
  pub start : ℕ
  pub request_size : ℕ
  pub finished : Bool
  pub response : Option (ℕ × ℕ)
  pub reports : List Report

pub data Event : Type 0 where
  -- `write` or `end` with a chunk of that size
  writes : ℕ → Event
  responds : ℕ → Event
  receives : ℕ → Event
  response_ends : ℕ → Event
  fails : ℕ → Value → Event

unfoldable pub request : ℕ → String → Value → Value → Request
request now transport first second =
    let (url, method) = normalize_node_request_args transport first second in
    record {
      url = url;
      method = method;
      transport = transport;
      start = now;
      request_size = 0;
      finished = false;
      response = none;
      reports = [];
    }

-- `${method} ${url} -> `
abbrev arrow : Request → String
arrow r = r.method <> " " <> to_text r.url <> " -> "

unfoldable pub success : ℕ → ℕ → ℕ → Request → Report
success now status size r =
    let ok = ltb status 400 in
    record {
      url = r.url;
      method = r.method;
      status = some status;
      ok = some ok;
      duration_ms = now - r.start;
      request_size = r.request_size;
      response_size = some size;
      transport = r.transport;
      error_message = undefined;
      message = arrow r <> decimal status;
      breadcrumb_level = if ok then "info" else "warn";
      event_level = if ok then "info" else "error";
      bypass_throttle = not ok;
    }

unfoldable pub failure : ℕ → Value → Request → Report
failure now err r = record {
  url = r.url;
  method = r.method;
  status = none;
  ok = none;
  duration_ms = now - r.start;
  request_size = r.request_size;
  response_size = none;
  transport = r.transport;
  error_message = get_field "message" err;
  message = arrow r <> to_text (or_value (get_field "message" err) (string "request error"));
  breadcrumb_level = "error";
  event_level = "error";
  bypass_throttle = true;
}

-- `if (finished) return; finished = true; dispatchNetwork(...)`
unfoldable pub finish : Report → Request → Request
finish report r =
    if r.finished then r else record r { finished = true; reports = r.reports ++ report ∷ [] }

unfoldable pub more_data : ℕ → Option (ℕ × ℕ) → Option (ℕ × ℕ)
more_data n none = none
more_data n (some (status, size)) = some (status, size + n)

unfoldable pub end_response : ℕ → Option (ℕ × ℕ) → Request → Request
end_response now none r = r
end_response now (some (status, size)) r = finish (success now status size r) r

unfoldable pub step : Event → Request → Request
step (writes n) r = record r { request_size = r.request_size + n }
step (responds status) r = record r { response = some (status, 0) }
step (receives n) r = record r { response = more_data n r.response }
step (response_ends now) r = end_response now r.response r
step (fails now err) r = finish (failure now err r) r

unfoldable pub run : List Event → Request → Request
run [] r = r
run (e ∷ es) r = run es (step e r)
