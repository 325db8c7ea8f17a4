-- ===== src/Mcp/EventBuffer/Latest.antt =====
-- What the resources show of the buffer.
use code_bridge.Base.{
  get_last?-append, inr, inl, ℕ, zero, suc, ◌≤◌, ◌<◌, ◌≡◌, refl, sym, ap, ◌∙◌, Bool, some, List, [],
  ◌∷◌, ◌++◌, arith, if◌then◌else◌, length, last, take, keep, get_elem?, get_last?, Bool-cases,
}
use code_bridge.Js.Value.{int}
use code_bridge.Protocol.{BridgeEvent}
use code_bridge.Mcp.EventBuffer.{
  EventBuffer, BufferedEvent, new, slice_last, push_all, is_error, is_network, is_navigation,
  is_screenshot, errors, network, navigation, recent, scan_down, latest_screenshot,
}
use code_bridge.Mcp.EventBuffer.Window.{numbered, capacity, buffer_is_window}

module _ {ℓ} {A : Type ℓ} where
  pub keep-append :
      (p : A → Bool) (xs : List A) (x : A)
      → keep p (xs ++ x ∷ []) ≡ (if p x then keep p xs ++ x ∷ [] else keep p xs)
  keep-append p [] x = refl
  keep-append p (y ∷ xs) x = ground (arith, keep-append p xs x)

  take_more :
      (i : ℕ) (xs : List A)
      → suc i ≤ length xs
      → (x : A) × (get_elem? xs i ≡ some x) × (take (suc i) xs ≡ take i xs ++ x ∷ [])
  take_more i [] h = absurd (omega arith)
  take_more zero (x ∷ xs) h = (x, refl, refl)
  take_more (suc i) (x ∷ xs) h =
      let (y, e, t) = take_more i xs (omega arith) in (y, e, ap (◌∷◌ x) t)

  take_all : (xs : List A) → take (length xs) xs ≡ xs
  take_all [] = refl
  take_all (x ∷ xs) = ap (◌∷◌ x) (take_all xs)

scan_down-last :
    (xs : List BufferedEvent) (i : ℕ)
    → i ≤ length xs
    → scan_down xs i ≡ get_last? (keep is_screenshot (take i xs))
unfolding scan_down
scan_down-last xs zero h = refl
scan_down-last xs (suc i) h =
    let (x, e, t) = take_more i xs h in
    let before = take i xs in
    let ih : scan_down xs i ≡ get_last? (keep is_screenshot before) =
      scan_down-last xs i (omega arith) in
    elim (Bool-cases (is_screenshot x)) [
      | inl p ↦
          rw (e, scan_down, p, t, keep-append is_screenshot before x, p)
            (sym (get_last?-append (keep is_screenshot before) x))
      | inr p ↦ rw (e, scan_down, p, t, keep-append is_screenshot before x, p) ih
    ]

pub latest_screenshot-get_last? :
    (b : EventBuffer) → latest_screenshot b ≡ get_last? (keep is_screenshot b.events)
unfolding latest_screenshot
latest_screenshot-get_last? b =
    scan_down-last b.events (length b.events) (omega arith)
    ∙ ap (λ es. get_last? (keep is_screenshot es)) (take_all b.events)

slice_last-last {ℓ} : {A : Type ℓ} (m : ℕ) (xs : List A) → 0 < m → slice_last (int m) xs ≡ last m xs
unfolding slice_last
slice_last-last zero xs h = absurd (omega arith)
slice_last-last (suc m) xs h = ground arith

-- What the resources show, for a buffer made for n events after any events: with W the last n of
-- these, the latest screenshot is the last screenshot of W, and a view of at most m > 0 events is
-- the last m of the events of its kind in W.
pub views_of_window :
    (n m : ℕ) (es : List BridgeEvent)
    → 0 < m
    → let b = push_all es (new (some (int n))) in
      let w = last (capacity n) (numbered 0 es) in
      (latest_screenshot b ≡ get_last? (keep is_screenshot w))
      × (recent (some (int m)) b ≡ last m w)
      × (errors (some (int m)) b ≡ last m (keep is_error w))
      × (network (some (int m)) b ≡ last m (keep is_network w))
      × (navigation (some (int m)) b ≡ last m (keep is_navigation w))
unfolding latest_screenshot recent errors network navigation
views_of_window n m es h =
    let xs = (push_all es (new (some (int n)))).events in
    let same = buffer_is_window n es in
    (
      scan_down-last xs (length xs) (omega arith)
          ∙ ap (λ ys. get_last? (keep is_screenshot ys)) (take_all xs ∙ same),
      slice_last-last m xs h ∙ ap (last m) same,
      slice_last-last m (keep is_error xs) h ∙ ap (λ ys. last m (keep is_error ys)) same,
      slice_last-last m (keep is_network xs) h ∙ ap (λ ys. last m (keep is_network ys)) same,
      slice_last-last m (keep is_navigation xs) h ∙ ap (λ ys. last m (keep is_navigation ys)) same,
    )
