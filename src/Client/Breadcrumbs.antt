-- ===== src/Client/Breadcrumbs.antt =====
-- The breadcrumbs that src/client.ts keeps.
use code_bridge.Base.{
  get_last?-append, get_last?-drop, eq_iff, length-last, subst, ◌||◌, Bool, last_all, ◌==◌,
  Bool-cases, inl, inr, if-true, ltb, ltb_iff, ◌⊎◌, ◌<◌, ℕ, suc, ◌-◌, ◌≤◌, ◌≡◌, refl, sym, ap, ◌∙◌,
  String, some, List, [], ◌∷◌, ◌++◌, true, arith, length, last, drop, last-append, length-append,
  get_last?,
}
use mathlib.Core.List.{append_assoc, append-nil}
use code_bridge.Protocol.{Breadcrumb, BridgeEvent}
use code_bridge.Client.{shift, Client, Draft, add_breadcrumb, send_event, full_event, bypasses}
use code_bridge.Client.Handlers.{Argument, console, joined}

abbrev add_all : List Breadcrumb → Client → Client
add_all [] c = c
add_all (b ∷ bs) c = add_all bs (add_breadcrumb b.timestamp b.level b.message c)

shift-drop : (xs : List Breadcrumb) → shift xs ≡ drop 1 xs
shift-drop [] = refl
shift-drop (x ∷ xs) = refl

add_breadcrumb-last :
    (b : Breadcrumb) (c : Client)
    → length c.breadcrumbs ≤ c.max_breadcrumbs
    → (add_breadcrumb b.timestamp b.level b.message c).breadcrumbs
      ≡ last c.max_breadcrumbs (c.breadcrumbs ++ b ∷ [])
unfolding add_breadcrumb
add_breadcrumb-last b c h =
    let xs = c.breadcrumbs ++ b ∷ [] in
    let m = c.max_breadcrumbs in
    let size : length xs ≡ suc (length c.breadcrumbs) =
      length-append c.breadcrumbs (b ∷ []) ∙ omega arith in
    elim (Bool-cases (ltb m (length xs))) [
      | inl p ↦
          ground (arith, p)
          ∙ shift-drop xs
          ∙ ap (λ k. drop k xs) {x = 1} {y = length xs - m}
              (ground (arith, size, ltb_iff m (length xs), p))
      | inr p ↦ ground (arith, p) ∙ sym (last_all m xs (ground (arith, ltb_iff m (length xs), p)))
    ]

-- While no more than the limit are kept at first, the breadcrumbs after adding any are the last
-- of the old and the new ones together, as many as the limit allows, in their order.
breadcrumbs_are_window :
    (bs : List Breadcrumb) (c : Client)
    → length c.breadcrumbs ≤ c.max_breadcrumbs
    → (add_all bs c).breadcrumbs ≡ last c.max_breadcrumbs (c.breadcrumbs ++ bs)
unfolding add_breadcrumb
breadcrumbs_are_window [] c h = sym (
    last_all c.max_breadcrumbs (c.breadcrumbs ++ [])
      (omega (arith, length-append c.breadcrumbs [], h))
    ∙ append-nil c.breadcrumbs)
breadcrumbs_are_window (b ∷ bs) c h =
    let m = c.max_breadcrumbs in
    let d = add_breadcrumb b.timestamp b.level b.message c in
    let one = add_breadcrumb-last b c h in
    breadcrumbs_are_window bs d (
      subst (λ xs. length xs ≤ m) (sym one)
        (omega (arith, length-last m (c.breadcrumbs ++ b ∷ []))))
    ∙ ap (λ xs. last m (xs ++ bs)) one
    ∙ last-append m (c.breadcrumbs ++ b ∷ []) bs
    ∙ ap (last m) (append_assoc c.breadcrumbs (b ∷ []) bs)

get_last?-last {ℓ} :
    {A : Type ℓ} (m : ℕ) (xs : List A) (x : A) → 0 < m → get_last? (last m (xs ++ x ∷ [])) ≡ some x
get_last?-last m xs x h =
    get_last?-drop (length (xs ++ x ∷ []) - m) (xs ++ x ∷ [])
      (omega (arith, length-append xs (x ∷ []), h))
    ∙ get_last?-append xs x

pub send_event-ws :
    (now : ℕ) (d : Draft) (b : Bool) (c : Client)
    → bypasses d b ≡ true
    → (send_event now d b c).ws ≡ code_bridge.WebSocket.send (full_event now d c) c.ws
unfolding send_event
send_event-ws now d b c h = ap (λ (x : Client). x.ws) (if-true _ _ _ h)

-- A console method of level `error` or `warn` sends an event whose message is that of the call,
-- and whose breadcrumbs end with the call itself, if any breadcrumb may be kept.
pub console_carries_itself :
    (now : ℕ) (method : String) (args : List Argument) (c : Client)
    → length c.breadcrumbs ≤ c.max_breadcrumbs
    → 0 < c.max_breadcrumbs
    → (method ≡ "error") ⊎ (method ≡ "warn")
    → (e : BridgeEvent) × ((console now method args c).ws ≡ code_bridge.WebSocket.send e c.ws)
      × (e.message ≡ joined args)
      × (e.level ≡ method)
      × (crumbs : List Breadcrumb) × (e.breadcrumbs ≡ some crumbs)
      × (get_last? crumbs
          ≡ some (record { timestamp = now; level = method; message = joined args }))
unfolding console full_event add_breadcrumb bypasses
console_carries_itself now method args c h k m =
    let b : Breadcrumb = record { timestamp = now; level = method; message = joined args } in
    let d = add_breadcrumb now method (joined args) c in
    let loud : (method == "error" || method == "warn") ≡ true =
      ground (arith, eq_iff method "error", eq_iff method "warn", m) in
    (
      _,
      send_event-ws now _ _ d (ground (arith, loud)),
      refl,
      refl,
      d.breadcrumbs,
      refl,
      ap get_last? (add_breadcrumb-last b c h) ∙ get_last?-last c.max_breadcrumbs c.breadcrumbs b k,
    )
