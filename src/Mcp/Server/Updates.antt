-- ===== src/Mcp/Server/Updates.antt =====
-- `notifyResourceUpdates` against what the resources show.
use code_bridge.Base.{
  get_last?-append, get_last?-drop, ◌-◌, sym, ◌&&◌, sym, get_last?, ◌||◌, ◌==◌, ◌≢◌, if◌then◌else◌,
  length-append, ◌∙◌, List, ap, arith, Bool, ◌+◌, ◌≡◌, suc, String, [], ◌∷◌, ◌++◌, refl, true,
  false, none, some, keep, length, eq_iff,
}
use code_bridge.Js.Text.{includes}
use code_bridge.Js.Value.{int}
use code_bridge.Protocol.{BridgeEvent}
use code_bridge.Mcp.EventBuffer.{
  EventBuffer, BufferedEvent, push, exceeds, slice_last, errors, network, navigation,
  latest_screenshot, is_error, is_network, is_navigation, is_screenshot,
}
use code_bridge.Mcp.Mappers.{listing}
use code_bridge.Mcp.Server.{
  Server, on_bridge_event, read_resource, updated_uris, notify_resource_updates, captured,
}
use code_bridge.Mcp.EventBuffer.Latest.{latest_screenshot-get_last?, keep-append}

-- The buffer has room for one more event.
abbrev pub HasRoom : EventBuffer → Type 0
HasRoom b = exceeds (suc (length b.events)) b.limit ≡ false

abbrev pub stored : BridgeEvent → EventBuffer → BufferedEvent
stored e b = record { event = e; id = b.counter + 1 }

push-room :
    (e : BridgeEvent) (b : EventBuffer)
    → HasRoom b
    → (push e b).1.events ≡ b.events ++ stored e b ∷ []
unfolding push
push-room e b h = ground (arith, length-append b.events (stored e b ∷ []))

keep-push :
    (p : BufferedEvent → Bool) (e : BridgeEvent) (b : EventBuffer)
    → HasRoom b
    → p (stored e b) ≡ false
    → keep p (push e b).1.events ≡ keep p b.events
keep-push p e b h q =
    ap (keep p) (push-room e b h) ∙ ground (arith, keep-append p b.events (stored e b), q)

-- The views that are not of an event's kind.
errors-push :
    (e : BridgeEvent) (b : EventBuffer)
    → HasRoom b
    → (e.level == "error") ≡ false
    → errors none (push e b).1 ≡ errors none b
unfolding errors
errors-push e b h q = ap (slice_last (int 50)) (keep-push is_error e b h q)

network-push :
    (e : BridgeEvent) (b : EventBuffer)
    → HasRoom b
    → (e.type == "network") ≡ false
    → network none (push e b).1 ≡ network none b
unfolding network
network-push e b h q = ap (slice_last (int 50)) (keep-push is_network e b h q)

navigation-push :
    (e : BridgeEvent) (b : EventBuffer)
    → HasRoom b
    → (e.type == "navigation" || e.type == "pageview") ≡ false
    → navigation none (push e b).1 ≡ navigation none b
unfolding navigation
navigation-push e b h q = ap (slice_last (int 50)) (keep-push is_navigation e b h q)

screenshot-push :
    (e : BridgeEvent) (b : EventBuffer)
    → HasRoom b
    → (e.type == "screenshot") ≡ false
    → latest_screenshot (push e b).1 ≡ latest_screenshot b
screenshot-push e b h q =
    latest_screenshot-get_last? (push e b).1
    ∙ ap get_last? (keep-push is_screenshot e b h q)
    ∙ sym (latest_screenshot-get_last? b)

abbrev pub announced : String → String → Bool
announced type uri =
    uri == "bridge://events/recent"
    || uri == "bridge://stats"
    || (type == "error" && uri == "bridge://events/errors")
    || (type == "network" && uri == "bridge://events/network")
    || ((type == "navigation" || type == "pageview") && uri == "bridge://events/navigation")
    || (type == "screenshot" && uri == "bridge://events/screenshot")

eq_comm : (s t : String) → (s == t) ≡ (t == s)
eq_comm s t = ground (arith, eq_iff s t, eq_iff t s)

includes-if :
    (b : Bool) (s : String) (ys : List String) (u : String)
    → includes ((if b then s ∷ [] else []) ++ ys) u ≡ ((b && u == s) || includes ys u)
unfolding includes
includes-if true s ys u = ap (λ c. c || includes ys u) (eq_comm s u)
includes-if false s ys u = refl

includes-updated_uris : (type uri : String) → includes (updated_uris type) uri ≡ announced type uri
unfolding updated_uris includes
includes-updated_uris type uri =
    let shot : List String =
      if type == "screenshot" then "bridge://events/screenshot" ∷ [] else [] in
    let nav : List String =
      (if type == "navigation" || type == "pageview" then "bridge://events/navigation" ∷ [] else [])
      ++ shot in
    let net : List String =
      (if type == "network" then "bridge://events/network" ∷ [] else []) ++ nav in
    ground (
      arith,
      eq_comm "bridge://events/recent" uri,
      eq_comm "bridge://stats" uri,
      eq_comm "bridge://events/screenshot" uri,
      includes-if (type == "error") "bridge://events/errors" net uri,
      includes-if (type == "network") "bridge://events/network" nav uri,
      includes-if (type == "navigation" || type == "pageview") "bridge://events/navigation" shot
          uri,
    )

if-same {ℓ} :
    {A : Type ℓ} (b : Bool) (x x' y y' : A)
    → (b ≡ true → x ≡ x')
    → (b ≡ false → y ≡ y')
    → (if b then x else y) ≡ (if b then x' else y')
if-same true x x' y y' p q = p refl
if-same false x x' y y' p q = q refl

-- If the buffer has room, then a resource of which an event's notifications do not speak shows
-- what it showed before, provided that the event is of type `error` whenever its level is `error`.
pub unnotified_unchanged :
    (e : BridgeEvent) (s : Server) (uri : String)
    → HasRoom s.buffer
    → (e.level ≡ "error" → e.type ≡ "error")
    → includes (updated_uris e.type) uri ≡ false
    → read_resource uri (on_bridge_event e s) ≡ read_resource uri s
unfolding read_resource on_bridge_event notify_resource_updates
unnotified_unchanged e s uri h k n =
    let b = s.buffer in
    let unsaid : announced e.type uri ≡ false = sym (includes-updated_uris e.type uri) ∙ n in
    if-same (uri == "bridge://metadata") _ _ _ _ (λ p. refl)
      (λ p.
        if-same (uri == "bridge://events/recent") _ _ _ _ (λ p. absurd (ground arith))
          (λ p.
            if-same (uri == "bridge://events/errors") _ _ _ _
              (λ p.
                ap (λ es. some (listing es))
                  (errors-push e b h
                    (ground (arith, eq_iff e.level "error", eq_iff e.type "error"))))
              (λ p.
                if-same (uri == "bridge://events/network") _ _ _ _
                  (λ p. ap (λ es. some (listing es)) (network-push e b h (ground arith)))
                  (λ p.
                    if-same (uri == "bridge://events/navigation") _ _ _ _
                      (λ p. ap (λ es. some (listing es)) (navigation-push e b h (ground arith)))
                      (λ p.
                        if-same (uri == "bridge://events/screenshot") _ _ _ _
                          (λ p. ap (λ o. some (captured o)) (screenshot-push e b h (ground arith)))
                          (λ p.
                            if-same (uri == "bridge://stats") _ _ _ _ (λ p. absurd (ground arith))
                              (λ p. refl)))))))

-- If the buffer has room, then after an event of level `error` but of another type the errors
-- resource ends with that event, though the notifications of the event do not speak of it.
pub error_level_unnotified :
    (e : BridgeEvent) (s : Server)
    → HasRoom s.buffer
    → e.level ≡ "error"
    → e.type ≢ "error"
    → (includes (updated_uris e.type) "bridge://events/errors" ≡ false)
      × (get_last? (errors none (on_bridge_event e s).buffer) ≡ some (stored e s.buffer))
unfolding errors on_bridge_event notify_resource_updates
error_level_unnotified e s h l t =
    let b = s.buffer in
    let x = stored e b in
    let before = keep is_error b.events in
    let kept : keep is_error (push e b).1.events ≡ before ++ x ∷ [] =
      ap (keep is_error) (push-room e b h)
      ∙ ground (arith, keep-append is_error b.events x, eq_iff e.level "error") in
    (
      ground (arith, includes-updated_uris e.type "bridge://events/errors", eq_iff e.type "error"),
      ap (λ es. get_last? (slice_last (int 50) es)) kept
          ∙ get_last?-drop (length (before ++ x ∷ []) - 50) (before ++ x ∷ [])
              (omega (arith, length-append before (x ∷ [])))
          ∙ get_last?-append before x,
    )
