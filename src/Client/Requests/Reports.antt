-- ===== src/Client/Requests/Reports.antt =====
-- Each request is reported once, with what was sent and received.
use code_bridge.Base.{String, ℕ, ◌+◌, Bool, true, false, none, some, List, [], ◌∷◌, ◌++◌}
use Prim.Native.String.{◌++◌ as ◌<>◌}
use code_bridge.Base.{◌-◌, not, ltb, if◌then◌else◌}
use code_bridge.Js.Value.{Value, undefined, string, get_field, or_value}
use code_bridge.Js.Print.{to_text, decimal}
use code_bridge.Client.Requests.{Report, Request, Event, writes, receives, more_data}

-- Events that send and receive.
abbrev pub is_traffic : Event → Bool
is_traffic (writes n) = true
is_traffic (receives n) = true
is_traffic e = false

unfoldable pub written : List Event → ℕ
written [] = 0
written (writes n ∷ es) = n + written es
written (e ∷ es) = written es

unfoldable pub received : List Event → ℕ
received [] = 0
received (receives n ∷ es) = n + received es
received (e ∷ es) = received es

abbrev moved : ℕ → ℕ → Request → Request
moved w d r = record r { request_size = r.request_size + w; response = more_data d r.response }

-- The request as it was made, with that size sent.
abbrev pub with_size : ℕ → Request → Request
with_size n r = record r { request_size = n }

-- The report of a request that got all of its response.
abbrev pub answered_report : ℕ → ℕ → ℕ → String → Value × String → ℕ → ℕ → Report
answered_report start t status transport (url, method) sent got = record {
  url = url;
  method = method;
  status = some status;
  ok = some (ltb status 400);
  duration_ms = t - start;
  request_size = sent;
  response_size = some got;
  transport = transport;
  error_message = undefined;
  message = (method <> " " <> to_text url <> " -> ") <> decimal status;
  breadcrumb_level = if ltb status 400 then "info" else "warn";
  event_level = if ltb status 400 then "info" else "error";
  bypass_throttle = not (ltb status 400);
}

-- The report of a request that failed, whether or not a response had begun.
abbrev pub failed_report : ℕ → ℕ → Value → String → Value × String → ℕ → Report
failed_report start t err transport (url, method) sent = record {
  url = url;
  method = method;
  status = none;
  ok = none;
  duration_ms = t - start;
  request_size = sent;
  response_size = none;
  transport = transport;
  error_message = get_field "message" err;
  message =
      (method <> " " <> to_text url <> " -> ")
      <> to_text (or_value (get_field "message" err) (string "request error"));
  breadcrumb_level = "error";
  event_level = "error";
  bypass_throttle = true;
}
