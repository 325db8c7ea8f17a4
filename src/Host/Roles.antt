-- ===== src/Host/Roles.antt =====
-- How the handlers of the sockets keep each one to what its role allows.
use code_bridge.Base.{
  ℕ, ◌<◌, ◌≡◌, ◌≢◌, refl, sym, ap, subst, inl, inr, true, false, none, some, List, [], ◌∷◌, nat_eq,
  find, put, arith,
}
use code_bridge.Socket.{ReadyState, connecting, opened, closing, closed, close_ws}
use code_bridge.Host.{closing_of, Host, Conn, Role, conn_of, set_conn, close_conn, or_no_conn}
use code_bridge.Host.Runs.{is_closed}
use code_bridge.Host.Owned.{Owned, conn_in, IsAlive, same_or_not}

pub conn_in-put : (id : ℕ) (c : Conn) (cs : List (ℕ × Conn)) → conn_in id (put nat_eq id c cs) ≡ c
conn_in-put id c [] = ground arith
conn_in-put id c ((i, d) ∷ cs) = ground (arith, conn_in-put id c cs)

pub find-put-other :
    (id j : ℕ) (c : Conn) (cs : List (ℕ × Conn))
    → j ≢ id
    → find nat_eq id (put nat_eq j c cs) ≡ find nat_eq id cs
find-put-other id j c [] n = ground arith
find-put-other id j c ((i, d) ∷ cs) n = ground (arith, find-put-other id j c cs n)

-- A socket whose role, authentication and end stay as they are.
pub record Same (c d : Conn) : Type 0 where
  pub same_authenticated : c.is_authenticated ≡ d.is_authenticated
  pub same_role : c.role ≡ d.role
  pub same_closed : is_closed c.ready ≡ is_closed d.ready

pub conn_in-other :
    (id j : ℕ) (c : Conn) (cs : List (ℕ × Conn))
    → j ≢ id
    → conn_in id (put nat_eq j c cs) ≡ conn_in id cs
conn_in-other id j c cs n = ap or_no_conn (find-put-other id j c cs n)

Same-put :
    (id j : ℕ) (c : Conn) (cs : List (ℕ × Conn))
    → (j ≡ id → Same c (conn_in id cs))
    → Same (conn_in id (put nat_eq j c cs)) (conn_in id cs)
Same-put id j c cs s = elim (same_or_not j id) [
  | inl e ↦
      subst (λ i. Same (conn_in id (put nat_eq i c cs)) (conn_in id cs)) (sym e)
        (subst (λ d. Same d (conn_in id cs)) (sym (conn_in-put id c cs)) (s e))
  | inr n ↦
      subst (λ d. Same d (conn_in id cs)) (sym (conn_in-other id j c cs n))
        (record { same_authenticated = refl; same_role = refl; same_closed = refl })
]

-- What of the server does not depend on the socket j, if that is the one.
pub Owned-update :
    (id j : ℕ) (c : Conn) (h : Host)
    → (j ≡ id → Same c (conn_in id h.conns))
    → Owned id h
    → Owned id (set_conn j c h)
unfolding Owned set_conn
Owned-update id j c h s k =
    let same = Same-put id j c h.conns s in
    record {
      fresh = rw (same.same_closed, same.same_role) k.fresh;
      unset = rw (same.same_authenticated, same.same_role) k.unset;
      as_bridge = rw (same.same_role, same.same_closed) k.as_bridge;
      as_consumer = rw (same.same_role, same.same_closed) k.as_consumer;
      as_origin = rw same.same_closed k.as_origin;
    }

-- What is known of a socket that something happens to: it was given out, and is the one meant.
pub known-IsAlive : (id : ℕ) (h : Host) → Owned id h → IsAlive id h.conns → id < h.next
unfolding Owned
known-IsAlive id h k a = elim k.fresh [ inl l ↦ l | inr (e, r, s) ↦ absurd (ground (arith, a, e)) ]

closing_same : (r : ReadyState) → is_closed (closing_of (close_ws (some r))) ≡ is_closed r
closing_same connecting = refl
closing_same opened = refl
closing_same closing = refl
closing_same closed = refl

closing-Same : (c : Conn) → Same (record c { ready = closing_of (close_ws (some c.ready)) }) c
closing-Same c = record {
  same_authenticated = refl;
  same_role = refl;
  same_closed = closing_same c.ready;
}

pub Owned-close_conn : (id j : ℕ) (h : Host) → Owned id h → Owned id (close_conn j h)
unfolding close_conn conn_of
Owned-close_conn id j h k =
    let c = conn_of j h in
    let c' : Conn = record c { ready = closing_of (close_ws (some c.ready)) } in
    Owned-update id j c' h (λ e. subst (λ i. Same c' (conn_in i h.conns)) e (closing-Same c)) k

-- The socket has a role now; it had none, and so nothing held it for one.
module _ (id : ℕ) (r : Role) (c : Conn) (h : Host) where
  pub role_set :
      (conn_in id h.conns).is_authenticated ≡ false
      → IsAlive id h.conns
      → c.is_authenticated ≡ true
      → c.role ≡ some r
      → is_closed c.ready ≡ is_closed (conn_in id h.conns).ready
      → Owned id h
      → Owned id (set_conn id c h)
  unfolding Owned set_conn
  role_set u a t e o k =
      let was_none : (conn_in id h.conns).role ≡ none = elim k.unset [
        | inl q ↦ absurd (ground (arith, q))
        | inr q ↦ q
      ] in
      record {
        fresh = inl (known-IsAlive id h k a);
        unset = inl (rw (conn_in-put id c h.conns) t);
        as_bridge = elim k.as_bridge [
          | inl b ↦ inl b
          | inr (inl s) ↦ inr (inl s)
          | inr (inr (q, z)) ↦ absurd (ground (arith, was_none, q))
        ];
        as_consumer = elim k.as_consumer [
          | inl b ↦ inl b
          | inr (q, z) ↦ absurd (ground (arith, was_none, q))
        ];
        as_origin = inr (rw (conn_in-put id c h.conns, o) a);
      }
