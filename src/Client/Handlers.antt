-- ===== src/Client/Handlers.antt =====
-- The handlers of src/client.ts: what they add to the breadcrumbs and what they send.
use code_bridge.Base.{
  ℕ, zero, suc, String, Bool, true, false, not, ◌&&◌, ◌||◌, Option, none, some, List, [], ◌∷◌, ◌++◌,
  ◌==◌, if◌then◌else◌,
}
use code_bridge.Js.Value.{Value, Values, nil, cons, string}
use code_bridge.Protocol.{Text, utf16, NavigationInfo, NetworkInfo}
use code_bridge.Platform.{web}
use code_bridge.WebSocket.{Page}
use code_bridge.WebSocket.Redact.{contains}
use code_bridge.Client.{
  first_given, Client, Draft, add_breadcrumb, send_event, with_default, optional_field,
}

abbrev pub draft : String → String → Text → Draft
draft type level message = record {
  type = some type;
  level = some level;
  message = some message;
  stack = none;
  url = none;
  route = none;
  mime = none;
  body = none;
  args = none;
  navigation = none;
  network = none;
}

-- `window.location.href` and `window.location.pathname`, where the platform is the web.
abbrev pub page_of : Client → Option Page
page_of c = elim c.platform [ web ↦ c.page | _ ↦ none ]

abbrev pub page_url : Client → Option String
page_url c = optional_field (λ (p : Page). p.href) (page_of c)

abbrev pub page_route : Client → Option String
page_route c = optional_field (λ (p : Page). p.pathname) (page_of c)

-- `a || b`
abbrev pub or_text : Option String → String → String
or_text none b = b
or_text (some a) b = if a == "" then b else a

-- `a || b || 'unknown'`
abbrev pub shown : Option String → Option String → String
shown a b = or_text a (or_text b "unknown")

-- The handlers of errors and of rejections, on the web and on node.
unfoldable pub report_error : ℕ → Text → Option String → Client → Client
report_error now message stack c =
    send_event now
      (record (draft "error" "error" message) {
        stack = stack;
        url = page_url c;
        route = page_route c;
      })
      true c

abbrev pub rejection : Text → Text
rejection reason = utf16 "Unhandled rejection: " ++ reason

-- The handler of React Native, which asks for no bypass.
unfoldable pub report_native_error : ℕ → Bool → Text → Option String → Client → Client
report_native_error now is_fatal message stack c =
    send_event now
      (record (draft "error" "error" ((if is_fatal then utf16 "Fatal: " else []) ++ message)) {
        stack = stack;
      })
      false c

-- An argument of a console method: how it reads in the message, and as a value.
pub record Argument : Type 0 where
  pub text : Text
  pub value : Value

-- `join(' ')`
abbrev pub joined : List Argument → Text
joined [] = []
joined (a ∷ []) = a.text
joined (a ∷ b ∷ rest) = a.text ++ utf16 " " ++ joined (b ∷ rest)

-- The first n values.
abbrev pub values : ℕ → List Argument → Values
values n [] = nil
values zero (a ∷ rest) = nil
values (suc n) (a ∷ rest) = cons a.value (values n rest)

-- A patched console method. The values are serialised already, as entries of the array of the
-- arguments, of which `safeSerialize` keeps the first 20.
unfoldable pub console : ℕ → String → List Argument → Client → Client
console now method args c =
    send_event now (record (draft "console" method (joined args)) { args = some (values 20 args) })
      (method == "error" || method == "warn") (add_breadcrumb now method (joined args) c)

abbrev pub text_argument : String → Argument
text_argument s = record { text = utf16 s; value = string s }

-- `emitNavigation`, with the path of the new URL, if it is one.
unfoldable pub emit_navigation :
    ℕ → String → String → Option String → Option String → Client → Client
emit_navigation now initiator to from route c =
    let message =
      utf16 "Navigation ("
      ++ utf16 initiator
      ++ utf16 "): "
      ++ utf16 (or_text from "unknown")
      ++ utf16 " -> "
      ++ utf16 to in
    send_event now
      (record (draft "navigation" "info" message) {
        url = some to;
        route = route;
        navigation = some (record { from = from; to = to; route = route; initiator = initiator });
      })
      true (add_breadcrumb now "info" message c)

-- A change of the history, `popstate` or `hashchange`, after which the page is at `next`.
unfoldable pub moved : ℕ → String → String → Option String → Client → Client
moved now initiator next route c =
    if next == c.last_url
    then c
    else record (emit_navigation now initiator next (some c.last_url) route c) { last_url = next }

unfoldable pub track_pageview : ℕ → Option String → Option String → Client → Client
track_pageview now url route c =
    let final_url = first_given url (page_url c) in
    let final_route = first_given route (page_route c) in
    if c.features.pageview
    then send_event now
        (record (draft "pageview" "info"
          (utf16 "Pageview: " ++ utf16 (shown final_route final_url))) {
            url = final_url;
            route = final_route;
          })
        false c
    else console now "warn"
        (text_argument
            "[code-bridge] Pageview tracking is disabled. Set enablePageview: true in BridgeOptions."
          ∷ [])
        c

unfoldable pub track_navigation : ℕ → NavigationInfo → Client → Client
track_navigation now info c =
    let message =
      utf16 "Navigation ("
      ++ utf16 info.initiator
      ++ utf16 "): "
      ++ utf16 (with_default info.from "unknown")
      ++ utf16 " -> "
      ++ utf16 info.to in
    if c.features.navigation
    then send_event now
        (record (draft "navigation" "info" message) {
          url = some info.to;
          route = info.route;
          navigation = some info;
        })
        true c
    else c

unfoldable pub send_screenshot :
    ℕ → String → String → Option String → Option String → Client → Client
send_screenshot now mime body url route c =
    let final_url = first_given url (page_url c) in
    let final_route = first_given route (page_route c) in
    if c.features.screenshot
    then send_event now
        (record (draft "screenshot" "info"
          (utf16 "Screenshot: " ++ utf16 (shown final_route final_url))) {
            mime = some mime;
            body = some body;
            url = final_url;
            route = final_route;
          })
        true c
    else console now "warn"
        (text_argument
            "[code-bridge] Screenshot sending is disabled. Set enableScreenshot: true in BridgeOptions."
          ∷ [])
        c

-- `bridgeUrl && url && url.includes(bridgeUrl)`
abbrev pub is_own : Option String → String → Bool
is_own none url = false
is_own (some own) url = not (own == "") && not (url == "") && contains url own

-- What `dispatchNetwork` does for one sink, which is skipped for requests to the bridge itself.
unfoldable pub dispatch_network :
    ℕ → Option String → String → String → Text → Bool → NetworkInfo → Client → Client
dispatch_network now bridge_url breadcrumb_level event_level message bypass info c =
    if is_own bridge_url info.url
    then c
    else send_event now (record (draft "network" event_level message) { network = some info })
        bypass (add_breadcrumb now breadcrumb_level message c)
