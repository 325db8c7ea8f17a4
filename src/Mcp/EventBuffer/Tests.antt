-- ===== src/Mcp/EventBuffer/Tests.antt =====
-- src/mcp/event-buffer.ts on a few events.
use code_bridge.Base.{◌≡◌, refl, some, List, [], ◌∷◌, last, keep, get_last?, arith}
use code_bridge.Js.Value.{nan, int}
use code_bridge.Protocol.{BridgeEvent, plain}
use code_bridge.Mcp.EventBuffer.{
  new, push, push_all, slice_last, recent, errors, network, navigation, latest_screenshot, is_error,
  is_network, is_navigation, is_screenshot,
}
use code_bridge.Mcp.EventBuffer.Window.{numbered, capacity, buffer_is_window, nan_size_is_unbounded}
use code_bridge.Mcp.EventBuffer.Latest.{views_of_window}

abbrev events : List BridgeEvent
events =
    plain "console" "error" [] 1
    ∷ plain "screenshot" "info" [] 2
    ∷ plain "network" "error" [] 3
    ∷ plain "pageview" "info" [] 4
    ∷ []

latest_is_second :
    latest_screenshot (push_all events (new (some (int 3))))
    ≡ some (record { event = plain "screenshot" "info" [] 2; id = 2 })
unfolding latest_screenshot push_all push slice_last new
latest_is_second = refl

buffer_is_window_example :
    (push_all events (new (some (int 3)))).events ≡ last (capacity 3) (numbered 0 events)
buffer_is_window_example = buffer_is_window 3 events

nan_size_is_unbounded_example : (push_all events (new (some nan))).events ≡ numbered 0 events
nan_size_is_unbounded_example = nan_size_is_unbounded events

views_of_window_example :
    let b = push_all events (new (some (int 3))) in
    let w = last (capacity 3) (numbered 0 events) in
    (latest_screenshot b ≡ get_last? (keep is_screenshot w))
    × (recent (some (int 1)) b ≡ last 1 w)
    × (errors (some (int 1)) b ≡ last 1 (keep is_error w))
    × (network (some (int 1)) b ≡ last 1 (keep is_network w))
    × (navigation (some (int 1)) b ≡ last 1 (keep is_navigation w))
views_of_window_example = views_of_window 3 1 events (omega arith)
