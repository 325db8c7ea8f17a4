-- ===== src/Host/Limits.antt =====
-- How often a bridge may send a screenshot, and what an overfull window lets through.
use code_bridge.Base.{
  ◌&&◌, ℕ, ◌+◌, ◌-◌, ◌<◌, ◌≡◌, refl, ◌∙◌, ap, true, none, some, List, ◌∷◌, nat_eq, find, arith,
}
use code_bridge.Js.Value.{Value, get_field, truthy}
use code_bridge.Host.{Host, ended, post, rate_limit_notice}
use code_bridge.Host.Routing.{finished, route_to}
use code_bridge.Host.Bridges.{
  may_send_screenshots, wait_ms, set_last_screenshot, forward_screenshot, forward_if_wanted,
  limit_screenshot, check_screenshot, on_screenshot,
}
use code_bridge.Host.Static.{same_if, static, static-post, static-send_to_all}
use code_bridge.Host.Queue.{find-put}
use code_bridge.Host.Unsent.{left}

-- The consumers that a screenshot goes to, if it is not limited.
unfoldable pub after_screenshot : ℕ → ℕ → Value → Host → Host
after_screenshot now id m h = left (on_screenshot now id m h)

pub static-forward_screenshot :
    (now id : ℕ) (m : Value) (cs : List ℕ) (h : Host)
    → static (forward_screenshot now id m cs h) ≡ static (set_last_screenshot id now h)
unfolding forward_screenshot
static-forward_screenshot now id m cs h =
    same_if static (truthy (get_field "mime" m) && truthy (get_field "data" m)) _ _ _
      (static-send_to_all _ cs (set_last_screenshot id now h))
      (static-post id _ (set_last_screenshot id now h))

after_screenshot-forward :
    (t id c : ℕ) (m : Value) (cs : List ℕ) (h h' : Host)
    → may_send_screenshots (find nat_eq id h.bridge_capabilities) ≡ some true
    → wait_ms t (find nat_eq id h.bridge_last_screenshot) ≡ none
    → route_to t none m id h.consumers h ≡ finished (c ∷ cs) h'
    → after_screenshot t id m h ≡ forward_screenshot t id m (c ∷ cs) h'
unfolding on_screenshot after_screenshot check_screenshot limit_screenshot forward_if_wanted
after_screenshot-forward t id c m cs h h' may w e = rw (may, w, e) refl

limited :
    (t now id : ℕ) (m : Value) (k : Host)
    → 0 < t
    → now < t + 2000
    → may_send_screenshots (find nat_eq id k.bridge_capabilities) ≡ some true
    → find nat_eq id k.bridge_last_screenshot ≡ some t
    → on_screenshot now id m k
      ≡ ended (post id (rate_limit_notice "rate_limit" (some ((t + 2000) - now))) k)
unfolding on_screenshot check_screenshot limit_screenshot wait_ms
limited t now id m k p r may l =
    let e : wait_ms now (some t) ≡ some ((t + 2000) - now) = ground arith in rw (may, l, e) refl

-- A bridge whose screenshot at t goes to some consumer, or lacks its data, has t as the time of its
-- last screenshot. In every state in which a bridge that may send screenshots has that time, up to
-- 2000 milliseconds after it, a screenshot is answered by a notice that says how long it has to wait,
-- and changes nothing else.
pub screenshot-limited :
    (t now id c : ℕ) (m₀ m : Value) (cs : List ℕ) (h h' k : Host)
    → 0 < t
    → now < t + 2000
    → may_send_screenshots (find nat_eq id h.bridge_capabilities) ≡ some true
    → wait_ms t (find nat_eq id h.bridge_last_screenshot) ≡ none
    → route_to t none m₀ id h.consumers h ≡ finished (c ∷ cs) h'
    → may_send_screenshots (find nat_eq id k.bridge_capabilities) ≡ some true
    → find nat_eq id k.bridge_last_screenshot ≡ some t
    → (find nat_eq id (after_screenshot t id m₀ h).bridge_last_screenshot ≡ some t)
      × (on_screenshot now id m k
          ≡ ended (post id (rate_limit_notice "rate_limit" (some ((t + 2000) - now))) k))
unfolding static set_last_screenshot
screenshot-limited t now id c m₀ m cs h h' k p r may w e allowed last =
    let after = forward_screenshot t id m₀ (c ∷ cs) h' in
    let kept : static after ≡ static (set_last_screenshot id t h') =
      static-forward_screenshot t id m₀ (c ∷ cs) h' in
    (
      ap (λ (s : Host). find nat_eq id s.bridge_last_screenshot)
            (after_screenshot-forward t id c m₀ cs h h' may w e)
          ∙ ap (λ (s : Host). find nat_eq id s.bridge_last_screenshot) kept
          ∙ find-put id t h'.bridge_last_screenshot,
      limited t now id m k p r allowed last,
    )
