-- ===== src/Host/Forgotten.antt =====
-- What the end of a socket removes.
use code_bridge.Base.{
  ◌∙◌, ℕ, ◌<◌, ◌≡◌, ◌≢◌, refl, sym, ap, subst, ◌⊎◌, inl, inr, Bool, true, false, not, Option, none,
  some, List, [], ◌∷◌, nat_eq, remove, arith,
}
use code_bridge.Js.Value.{Value}
use code_bridge.Socket.{closed}
use code_bridge.Host.{Host, Conn, Role, bridge, consumer, other, conn_of, set_conn}
use code_bridge.Host.Messages.{drop_pending, retire, on_close}
use code_bridge.Host.Outside.{All-keep, has_session}
use code_bridge.Host.Owned.{
  Owned, conn_in, IsAlive, NoBridge, NoConsumer, NotIn, NotOrigin, NotKey-erase, NotKey-erase-same,
  same_or_not, lift,
}
use code_bridge.Host.Roles.{conn_in-put, Owned-update, known-IsAlive}

pub NotIn-remove : (id j : ℕ) (xs : List ℕ) → NotIn id xs → NotIn id (remove nat_eq j xs)
NotIn-remove id j xs h = All-keep (λ i. i ≢ id) (λ i. not (nat_eq i j)) xs h

NotIn-remove-same : (id : ℕ) (xs : List ℕ) → NotIn id (remove nat_eq id xs)
NotIn-remove-same id [] = tt
NotIn-remove-same id (x ∷ xs) = ground (arith, NotIn-remove-same id xs)

NotOrigin-drop :
    (id j : ℕ) (ps : List (Value × ℕ)) → NotOrigin id ps → NotOrigin id (drop_pending j ps)
unfolding drop_pending
NotOrigin-drop id j [] h = tt
NotOrigin-drop id j ((r, i) ∷ ps) (p, h) = ground (arith, NotOrigin-drop id j ps h)

NotOrigin-drop-same : (id : ℕ) (ps : List (Value × ℕ)) → NotOrigin id (drop_pending id ps)
unfolding drop_pending
NotOrigin-drop-same id [] = tt
NotOrigin-drop-same id ((r, i) ∷ ps) = ground (arith, NotOrigin-drop-same id ps)

-- What is left to do when a socket is closed.
unfoldable pub forget : Option Role → ℕ → Host → Host
forget r j h =
    let h' = retire r j h in record h' { pending_control = drop_pending j h'.pending_control }

module _ (id j : ℕ) (h : Host) where
  Owned-retire : (r : Option Role) → Owned id h → Owned id (retire r j h)
  unfolding Owned retire
  Owned-retire none k = k
  Owned-retire (some other) k = k
  Owned-retire (some bridge) k = record {
    fresh = k.fresh;
    unset = k.unset;
    as_bridge =
        lift
          (λ (b : NoBridge id h.bridges h.bridge_capabilities h.bridge_last_screenshot). record {
            not_bridge = NotIn-remove id j h.bridges b.not_bridge;
            no_capabilities = NotKey-erase id j h.bridge_capabilities b.no_capabilities;
            no_screenshot = NotKey-erase id j h.bridge_last_screenshot b.no_screenshot;
          })
          k.as_bridge;
    as_consumer = k.as_consumer;
    as_origin = k.as_origin;
  }
  Owned-retire (some consumer) k = record {
    fresh = k.fresh;
    unset = k.unset;
    as_bridge = k.as_bridge;
    as_consumer =
        lift
          (λ (b : NoConsumer id h.consumers h.consumer_subscriptions). record {
            not_consumer = NotIn-remove id j h.consumers b.not_consumer;
            no_subscription = NotKey-erase id j h.consumer_subscriptions b.no_subscription;
          })
          k.as_consumer;
    as_origin = k.as_origin;
  }

  Owned-drop :
      Owned id h → Owned id (record h { pending_control = drop_pending j h.pending_control })
  unfolding Owned
  Owned-drop k = record {
    fresh = k.fresh;
    unset = k.unset;
    as_bridge = k.as_bridge;
    as_consumer = k.as_consumer;
    as_origin = lift (NotOrigin-drop id j h.pending_control) k.as_origin;
  }

Owned-forget : (id j : ℕ) (r : Option Role) (h : Host) → Owned id h → Owned id (forget r j h)
unfolding forget
Owned-forget id j r h k = Owned-drop id j (retire r j h) (Owned-retire id j h r k)

-- What nothing refers to, but as an HTTP session.
pub record Free (id : ℕ) (h : Host) : Type 0 where
  pub no_bridge :
      NoBridge id h.bridges h.bridge_capabilities h.bridge_last_screenshot
      ⊎ (has_session id h.sessions ≡ true)
  pub no_consumer : NoConsumer id h.consumers h.consumer_subscriptions
  pub no_origin : NotOrigin id h.pending_control

abbrev is_bridge : Option Role → Bool
is_bridge (some bridge) = true
is_bridge r = false

abbrev is_consumer : Option Role → Bool
is_consumer (some consumer) = true
is_consumer r = false

module _ (id : ℕ) (r : Option Role) (h : Host) (e : (conn_in id h.conns).role ≡ r)
    (k : Owned id h) where
  NoBridge-role :
      is_bridge r ≡ false
      → NoBridge id h.bridges h.bridge_capabilities h.bridge_last_screenshot
        ⊎ (has_session id h.sessions ≡ true)
  unfolding Owned
  NoBridge-role n = elim k.as_bridge [
    | inl b ↦ inl b
    | inr (inl s) ↦ inr s
    | inr (inr (q, z)) ↦ absurd (ground (arith, ap is_bridge (sym e ∙ q)))
  ]

  NoConsumer-role : is_consumer r ≡ false → NoConsumer id h.consumers h.consumer_subscriptions
  unfolding Owned
  NoConsumer-role n = elim k.as_consumer [
    | inl b ↦ b
    | inr (q, z) ↦ absurd (ground (arith, ap is_consumer (sym e ∙ q)))
  ]

forget-Free :
    (id : ℕ) (r : Option Role) (h : Host)
    → (conn_in id h.conns).role ≡ r
    → Owned id h
    → Free id (forget r id h)
unfolding forget retire
forget-Free id none h e k = record {
  no_bridge = NoBridge-role id none h e k refl;
  no_consumer = NoConsumer-role id none h e k refl;
  no_origin = NotOrigin-drop-same id h.pending_control;
}
forget-Free id (some other) h e k = record {
  no_bridge = NoBridge-role id (some other) h e k refl;
  no_consumer = NoConsumer-role id (some other) h e k refl;
  no_origin = NotOrigin-drop-same id h.pending_control;
}
forget-Free id (some bridge) h e k = record {
  no_bridge = inl (record {
    not_bridge = NotIn-remove-same id h.bridges;
    no_capabilities = NotKey-erase-same id h.bridge_capabilities;
    no_screenshot = NotKey-erase-same id h.bridge_last_screenshot;
  });
  no_consumer = NoConsumer-role id (some bridge) h e k refl;
  no_origin = NotOrigin-drop-same id h.pending_control;
}
forget-Free id (some consumer) h e k = record {
  no_bridge = NoBridge-role id (some consumer) h e k refl;
  no_consumer = record {
    not_consumer = NotIn-remove-same id h.consumers;
    no_subscription = NotKey-erase-same id h.consumer_subscriptions;
  };
  no_origin = NotOrigin-drop-same id h.pending_control;
}

-- What was not given out yet is free.
pub next-Free : (id : ℕ) (h : Host) → h.next ≡ id → Owned id h → Free id h
unfolding Owned
next-Free id h e k = elim k.fresh [
  | inl l ↦ absurd (omega (arith, e))
  | inr (c, r, s) ↦ record {
    no_bridge = NoBridge-role id none h r k refl;
    no_consumer = NoConsumer-role id none h r k refl;
    no_origin = elim k.as_origin [ inl o ↦ o | inr a ↦ absurd (ground (arith, a, c)) ];
  }
]

-- A socket that nothing refers to may be closed, or be given out.
pub Owned-released :
    (id : ℕ) (c : Conn) (h : Host)
    → id < h.next
    → (c.is_authenticated ≡ true) ⊎ (c.role ≡ none)
    → Free id h
    → Owned id (set_conn id c h)
unfolding Owned set_conn
Owned-released id c h l u f = record {
  fresh = inl l;
  unset = rw (conn_in-put id c h.conns) u;
  as_bridge = elim f.no_bridge [ inl b ↦ inl b | inr s ↦ inr (inl s) ];
  as_consumer = inl f.no_consumer;
  as_origin = inl f.no_origin;
}

-- The end of a socket, in the other order.
forget-set_conn :
    (r : Option Role) (j : ℕ) (c : Conn) (h : Host)
    → forget r j (set_conn j c h) ≡ set_conn j c (forget r j h)
unfolding forget set_conn retire
forget-set_conn none j c h = refl
forget-set_conn (some other) j c h = refl
forget-set_conn (some bridge) j c h = refl
forget-set_conn (some consumer) j c h = refl

next_forget : (r : Option Role) (j : ℕ) (h : Host) → (forget r j h).next ≡ h.next
unfolding forget retire
next_forget none j h = refl
next_forget (some other) j h = refl
next_forget (some bridge) j h = refl
next_forget (some consumer) j h = refl

abbrev end_of : Conn → Conn
end_of c = record c { ready = closed; auth_timer = false }

Owned-end_self :
    (id : ℕ) (h : Host)
    → IsAlive id h.conns
    → Owned id h
    → Owned id (set_conn id (end_of (conn_in id h.conns)) (forget (conn_in id h.conns).role id h))
unfolding Owned
Owned-end_self id h a k =
    let r = (conn_in id h.conns).role in
    Owned-released id (end_of (conn_in id h.conns)) (forget r id h)
      (rw (next_forget r id h) (known-IsAlive id h k a)) k.unset (forget-Free id r h refl k)

pub Owned-on_close :
    (id j : ℕ) (h : Host) → IsAlive j h.conns → Owned id h → Owned id (on_close j h)
unfolding on_close conn_of forget
Owned-on_close id j h a k =
    let c = conn_in j h.conns in
    let after = set_conn j (end_of c) (forget c.role j h) in
    subst (Owned id) (sym (forget-set_conn c.role j (end_of c) h)) (elim (same_or_not j id) [
      | inl q ↦ subst (λ i. Owned i h → Owned i after) q (Owned-end_self j h a) k
      | inr n ↦
          Owned-update id j (end_of c) (forget c.role j h) (λ q. absurd (n q))
            (Owned-forget id j c.role h k)
    ])
