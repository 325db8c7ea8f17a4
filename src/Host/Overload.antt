-- ===== src/Host/Overload.antt =====
-- The guard against too many events.
use code_bridge.Base.{
  if-false, ap, ◌∙◌, ℕ, suc, ◌+◌, ◌≤◌, ◌≡◌, refl, String, true, false, List, [], ◌∷◌, length, ltb,
  leb, ◌==◌, all, arith,
}
use code_bridge.Js.Value.{Value, string, get_field, or_value}
use code_bridge.Js.Print.{lower_value}
use code_bridge.Host.{Host, Subscription}
use code_bridge.Host.Routing.{
  window_ms, window_limit, count_event, passes, filter_event_for_consumer, equals_text,
}

-- The events that were filtered at these times.
unfoldable pub count_events : List ℕ → Host → Host
count_events [] h = h
count_events (t ∷ ts) h = count_events ts (count_event t h)

abbrev pub filter_of : Subscription → String
filter_of s = lower_value (or_value (string s.llm_filter) (string "off"))

counted_one :
    (t : ℕ) (h : Host)
    → t ≤ h.window_start + window_ms
    → count_event t h ≡ record h { window_count = suc h.window_count }
unfolding count_event
counted_one t h e = if-false (ltb (h.window_start + window_ms) t) _ _ (ground arith)

counted :
    (ts : List ℕ) (h : Host)
    → all (λ t. leb t (h.window_start + window_ms)) ts ≡ true
    → count_events ts h ≡ record h { window_count = h.window_count + length ts }
unfolding count_events
counted [] h e = ap (λ n. record h { window_count = n }) (omega arith)
counted (t ∷ ts) h e =
    let h' : Host = record h { window_count = suc h.window_count } in
    ap (count_events ts) (counted_one t h (ground arith))
    ∙ counted ts h' (ground arith)
    ∙ ap (λ n. record h { window_count = n }) (omega arith)

-- Once 500 events were filtered in a window of ten seconds, whoever of the consumers they were for,
-- every consumer whose filter is not `off` gets only events of the level `error`, written just so,
-- up to the end of the window.
pub filter-overfull :
    (ts : List ℕ) (now : ℕ) (m : Value) (s : Subscription) (h : Host)
    → all (λ t. leb t (h.window_start + window_ms)) ts ≡ true
    → now ≤ h.window_start + window_ms
    → window_limit ≤ length ts
    → (filter_of s == "off") ≡ false
    → (filter_event_for_consumer now m s (count_events ts h)).0
      ≡ equals_text "error" (get_field "level" m)
unfolding filter_event_for_consumer passes
filter-overfull ts now m s h e l n f =
    let h' : Host = record h { window_count = h.window_count + length ts } in
    let over : ltb window_limit (suc (h.window_count + length ts)) ≡ true = ground (arith, n) in
    rw (counted ts h e, counted_one now h' l, over, f) refl
