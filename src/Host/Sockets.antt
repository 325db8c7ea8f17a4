-- ===== src/Host/Sockets.antt =====
-- How the events of the sockets keep each one to what its role allows.
use code_bridge.Base.{
  ℕ, suc, ◌<◌, refl, sym, subst, inl, inr, true, false, Option, none, some, arith,
}
use code_bridge.Js.Value.{Value, null}
use code_bridge.Socket.{opened}
use code_bridge.Host.{Host, Conn, Ran, ended, threw, conn_of, set_conn}
use code_bridge.Host.Messages.{on_connection, handle, caught, on_message, on_auth_timeout}
use code_bridge.Host.Outside.{if-both}
use code_bridge.Host.Unsent.{left}
use code_bridge.Host.Owned.{Owned, conn_in, IsAlive, same_or_not}
use code_bridge.Host.Roles.{Same, Owned-update, Owned-close_conn}
use code_bridge.Host.Admitted.{Owned-handle}
use code_bridge.Host.Forgotten.{next-Free, Free, Owned-released}

module _ (id : ℕ) where
  Owned-caught : (j : ℕ) (r : Ran) → Owned id (left r) → Owned id (caught j r)
  Owned-caught j (ended h) k = k
  Owned-caught j (threw h) k = Owned-close_conn id j h k

  pub Owned-on_message :
      (now j : ℕ) (o : Option Value) (h : Host)
      → IsAlive j h.conns
      → Owned id h
      → Owned id (on_message now j o h)
  unfolding on_message
  Owned-on_message now j none h a k = Owned-close_conn id j h k
  Owned-on_message now j (some m) h a k =
      Owned-caught j (handle now j m h) (Owned-handle id now j m h a k)

  pub Owned-on_auth_timeout : (j : ℕ) (h : Host) → Owned id h → Owned id (on_auth_timeout j h)
  unfolding on_auth_timeout conn_of
  Owned-on_auth_timeout j h k =
      let c : Conn = record (conn_in j h.conns) { auth_timer = false } in
      let same : Same c (conn_in j h.conns) = record {
        same_authenticated = refl;
        same_role = refl;
        same_closed = refl;
      } in
      let k' = Owned-update id j c h (λ q. subst (λ i. Same c (conn_in i h.conns)) q same) k in
      if-both (Owned id) (conn_in j h.conns).is_authenticated _ _ k'
        (Owned-close_conn id j (set_conn j c h) k')

  -- One more number is given out.
  pub Owned-grow : (h : Host) → Owned id h → Owned id (record h { next = suc h.next })
  unfolding Owned
  Owned-grow h k = record {
    fresh = elim k.fresh [ inl l ↦ inl (omega arith) | inr u ↦ inr u ];
    unset = k.unset;
    as_bridge = k.as_bridge;
    as_consumer = k.as_consumer;
    as_origin = k.as_origin;
  }

  pub Owned-on_connection : (h : Host) → Owned id h → Owned id (on_connection h)
  unfolding on_connection set_conn
  Owned-on_connection h k =
      let c : Conn = record {
        ready = opened;
        is_authenticated = false;
        role = none;
        client_id = null;
        auth_timer = true;
      } in
      let h' : Host = record h { next = suc h.next } in
      elim (same_or_not h.next id) [
        | inl q ↦
            let f = next-Free id h q k in
            let free : Free id h' = record {
              no_bridge = f.no_bridge;
              no_consumer = f.no_consumer;
              no_origin = f.no_origin;
            } in
            let later : id < h'.next = omega (arith, q) in
            subst (λ i. Owned id (set_conn i c h')) (sym q)
              (Owned-released id c h' later (inr refl) free)
        | inr n ↦ Owned-update id h.next c h' (λ q. absurd (n q)) (Owned-grow h k)
      ]
