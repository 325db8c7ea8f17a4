-- ===== src/Host/Static.antt =====
-- What sending and routing leave as it is: all but the window and what was sent.
use code_bridge.Base.{
  ℕ, ◌≡◌, refl, ◌∙◌, Bool, true, false, Option, none, some, List, [], ◌∷◌, if◌then◌else◌,
  Bool-cases, inl, inr, ltb, ◌+◌, suc,
}
use code_bridge.Js.Value.{Value}
use code_bridge.Socket.{is_open}
use code_bridge.Host.{Host, Subscription, Frame, conn_of, post, is_ready}
use code_bridge.Host.Routing.{
  Loop, finished, aborted, window_ms, count_event, filter_event_for_consumer, route_by,
  should_route_to_consumer, after_decision, proceed, offer, route_to,
}
use code_bridge.Host.Bridges.{send_to_all}
use code_bridge.Host.Outside.{left_by}

unfoldable pub static : Host → Host
static h = record h { window_start = 0; window_count = 0; sent = [] }

module _ {ℓ κ} {A : Type ℓ} {B : Type κ} where
  -- Where the branches agree, the condition does not matter.
  pub same_if :
      (f : A → B) (b : Bool) (x y : A) (z : B) → f x ≡ z → f y ≡ z → f (if b then x else y) ≡ z
  same_if f true x y z p q = p
  same_if f false x y z p q = q

pub static-post : (id : ℕ) (f : Frame) (h : Host) → static (post id f h) ≡ static h
unfolding static post
static-post id f h = same_if static (is_open (some (conn_of id h).ready)) _ h _ refl refl

pub static-count_event : (now : ℕ) (h : Host) → static (count_event now h) ≡ static h
unfolding static count_event
static-count_event now h =
    same_if static (ltb (h.window_start + window_ms) now)
      (record h { window_start = now; window_count = 1 })
      (record h { window_count = suc h.window_count }) _ refl refl

pub static-route_by :
    (now : ℕ) (s : Option Subscription) (m caps : Value) (h : Host)
    → static (route_by now s m caps h).1 ≡ static h
unfolding route_by filter_event_for_consumer
static-route_by now none m caps h = refl
static-route_by now (some s) m caps h = static-count_event now h

static-after_decision :
    (c : ℕ) (f : Option Frame) (d : Option Bool) (h : Host)
    → static (after_decision f c d h) ≡ static h
static-after_decision c f none h = refl
static-after_decision c f (some false) h = refl
static-after_decision c none (some true) h = refl
static-after_decision c (some f) (some true) h = static-post c f h

pub static-offer :
    (now b c : ℕ) (f : Option Frame) (m : Value) (h : Host)
    → static (offer now f m b c h).1 ≡ static h
unfolding offer should_route_to_consumer
static-offer now b c f m h = elim (Bool-cases (is_ready c h)) [
  | inl e ↦ rw e (static-after_decision c f _ _ ∙ static-route_by now _ m _ h)
  | inr e ↦ rw e refl
]

static-proceed :
    (c : ℕ) (d : Option Bool) (h : Host) (l : Loop) (z : Host)
    → static h ≡ z
    → static (left_by l) ≡ z
    → static (left_by (proceed c d h l)) ≡ z
static-proceed c none h l z p q = p
static-proceed c (some false) h l z p q = q
static-proceed c (some true) h (finished cs h') z p q = q
static-proceed c (some true) h (aborted h') z p q = q

pub static-route_to :
    (now b : ℕ) (f : Option Frame) (m : Value) (cs : List ℕ) (h : Host)
    → static (left_by (route_to now f m b cs h)) ≡ static h
unfolding route_to
static-route_to now b f m [] h = refl
static-route_to now b f m (c ∷ cs) h =
    let (d, h') = offer now f m b c h in
    let first : static h' ≡ static h = static-offer now b c f m h in
    static-proceed c d h' (route_to now f m b cs h') (static h) first
      (static-route_to now b f m cs h' ∙ first)

pub static-send_to_all :
    (f : Frame) (cs : List ℕ) (h : Host) → static (send_to_all f cs h) ≡ static h
unfolding send_to_all
static-send_to_all f [] h = refl
static-send_to_all f (c ∷ cs) h = static-send_to_all f cs (post c f h) ∙ static-post c f h
