-- ===== src/Host/Handled.antt =====
-- How the handlers of the sockets leave a socket that nobody authenticated.
use code_bridge.Base.{
  refl, ℕ, String, ◌≡◌, ◌≢◌, sym, subst, inl, inr, Bool, true, false, not, ◌&&◌, Option, none, some,
  List, [], ◌∷◌, nat_eq, find, put, arith, All, Bool-cases,
}
use code_bridge.Js.Value.{Value, null, get_field}
use code_bridge.Host.{
  Host, Conn, Role, bridge, consumer, other, Ran, ended, threw, conn_of, set_conn, or_no_conn,
  close_conn, has_type,
}
use code_bridge.Host.Routing.{equals_text}
use code_bridge.Host.Messages.{
  on_connection, enrol, greet, accept, authenticate, dispatch, handle, caught, on_message,
  on_auth_timeout, drop_pending, retire, on_close,
}
use code_bridge.Host.Runs.{Event, receives}
use code_bridge.Host.Outside.{
  All-keep, All-add, add-harmless, remove-harmless, Outside, if-both, Outside-post,
}
use code_bridge.Host.Unsent.{left, Outside-from_bridge}
use code_bridge.Host.Forwarded.{Outside-from_consumer}

-- `message.type === 'auth' && message.secret === secret`
abbrev presents_secret : String → Value → Bool
presents_secret key m = has_type "auth" m && equals_text key (get_field "secret" m)

-- Whether the event is that the socket presents the secret.
abbrev pub presents : ℕ → String → ℕ × Event → Bool
presents id key (now, receives j (some m)) = nat_eq j id && presents_secret key m
presents id key e = false

unauthenticated-put :
    (id j : ℕ) (c : Conn) (cs : List (ℕ × Conn))
    → (j ≡ id → c.is_authenticated ≡ false)
    → (or_no_conn (find nat_eq id cs)).is_authenticated ≡ false
    → (or_no_conn (find nat_eq id (put nat_eq j c cs))).is_authenticated ≡ false
unauthenticated-put id j c [] n e = ground arith
unauthenticated-put id j c ((i, d) ∷ cs) n e = ground (arith, unauthenticated-put id j c cs n)

module _ (key : String) (id : ℕ) where
  Outside-set_conn :
      (j : ℕ) (c : Conn) (h : Host)
      → (j ≡ id → c.is_authenticated ≡ false)
      → Outside key id h
      → Outside key id (set_conn j c h)
  unfolding Outside set_conn
  Outside-set_conn j c h n k = record {
    same_secret = k.same_secret;
    unauthenticated = unauthenticated-put id j c h.conns n k.unauthenticated;
    not_consumer = k.not_consumer;
    not_bridge = k.not_bridge;
    not_awaited = k.not_awaited;
    unsent = k.unsent;
  }

  -- The socket is not authenticated.
  still_out :
      (j : ℕ) (h : Host) → Outside key id h → j ≡ id → (conn_of j h).is_authenticated ≡ false
  unfolding Outside conn_of
  still_out j h k e = subst (λ i. (conn_of i h).is_authenticated ≡ false) (sym e) k.unauthenticated

  Outside-close_conn : (j : ℕ) (h : Host) → Outside key id h → Outside key id (close_conn j h)
  unfolding close_conn
  Outside-close_conn j h k = Outside-set_conn j _ h (still_out j h k) k

  Outside-enrol :
      (r : Role) (j : ℕ) (h : Host) → j ≢ id → Outside key id h → Outside key id (enrol r j h)
  unfolding Outside enrol
  Outside-enrol bridge j h n k = record {
    same_secret = k.same_secret;
    unauthenticated = k.unauthenticated;
    not_consumer = k.not_consumer;
    not_bridge = add-harmless id j h.bridges n k.not_bridge;
    not_awaited = k.not_awaited;
    unsent = k.unsent;
  }
  Outside-enrol consumer j h n k = record {
    same_secret = k.same_secret;
    unauthenticated = k.unauthenticated;
    not_consumer = All-add id j h.consumers n k.not_consumer;
    not_bridge = k.not_bridge;
    not_awaited = k.not_awaited;
    unsent = k.unsent;
  }
  Outside-enrol other j h n k = k

  Outside-greet :
      (r : Role) (v : Value) (j : ℕ) (h : Host)
      → j ≢ id
      → Outside key id h
      → Outside key id (greet r v j h)
  unfolding greet
  Outside-greet other v j h n k = Outside-close_conn j h k
  Outside-greet bridge v j h n k = Outside-post key id j _ h n k
  Outside-greet consumer v j h n k = Outside-post key id j _ h n k

  Outside-accept :
      (now j : ℕ) (m : Value) (h : Host)
      → j ≢ id
      → Outside key id h
      → Outside key id (accept now j m h)
  unfolding accept
  Outside-accept now j m h n k =
      Outside-greet _ _ j _ n (Outside-enrol _ j _ n (Outside-set_conn j _ h (λ e. absurd (n e)) k))

  presented-other :
      (j : ℕ) (m : Value) (h : Host)
      → Outside key id h
      → (j ≡ id → presents_secret key m ≡ false)
      → has_type "auth" m ≡ true
      → equals_text h.secret (get_field "secret" m) ≡ true
      → j ≢ id
  unfolding Outside
  presented-other j m h k n t e p =
      let q : equals_text key (get_field "secret" m) ≡ true =
        subst (λ z. equals_text z (get_field "secret" m) ≡ true) k.same_secret e in
      ground (arith, n p)

  Outside-authenticate :
      (now j : ℕ) (m : Value) (h : Host)
      → (j ≡ id → presents_secret key m ≡ false)
      → Outside key id h
      → Outside key id (authenticate now j m h)
  unfolding authenticate
  Outside-authenticate now j m h n k = elim (Bool-cases (has_type "auth" m)) [
    | inl t ↦ elim (Bool-cases (equals_text h.secret (get_field "secret" m))) [
      | inl e ↦ rw (t, e) (Outside-accept now j m h (presented-other j m h k n t e) k)
      | inr e ↦ rw (t, e) (Outside-close_conn j h k)
    ]
    | inr t ↦ rw t (Outside-close_conn j h k)
  ]

  Outside-dispatch :
      (r : Option Role) (now j : ℕ) (m : Value) (h : Host)
      → j ≢ id
      → Outside key id h
      → Outside key id (left (dispatch r now j m h))
  Outside-dispatch none now j m h n k = k
  Outside-dispatch (some bridge) now j m h n k = Outside-from_bridge key id now j n m h k
  Outside-dispatch (some consumer) now j m h n k = Outside-from_consumer key id now j n m h k
  Outside-dispatch (some other) now j m h n k = k

  authenticated-other :
      (j : ℕ) (h : Host) → Outside key id h → (conn_of j h).is_authenticated ≡ true → j ≢ id
  authenticated-other j h k t e = ground (arith, still_out j h k e)

  Outside-handle :
      (now j : ℕ) (m : Value) (h : Host)
      → (j ≡ id → presents_secret key m ≡ false)
      → Outside key id h
      → Outside key id (left (handle now j m h))
  unfolding handle
  Outside-handle now j null h n k = k
  Outside-handle now j m h n k = elim (Bool-cases (conn_of j h).is_authenticated) [
    | inl e ↦
        let other = authenticated-other j h k e in
        rw e (
          if-both (λ r. Outside key id (left r)) (has_type "ping" m) _ _
            (Outside-post key id j _ h other k)
            (Outside-dispatch (conn_of j h).role now j m h other k))
    | inr e ↦ rw e (Outside-authenticate now j m h n k)
  ]

  Outside-caught : (j : ℕ) (r : Ran) → Outside key id (left r) → Outside key id (caught j r)
  Outside-caught j (ended h) k = k
  Outside-caught j (threw h) k = Outside-close_conn j h k

  pub Outside-on_message :
      (now j : ℕ) (o : Option Value) (h : Host)
      → presents id key (now, receives j o) ≡ false
      → Outside key id h
      → Outside key id (on_message now j o h)
  unfolding on_message
  Outside-on_message now j none h n k = Outside-close_conn j h k
  Outside-on_message now j (some m) h n k =
      Outside-caught j (handle now j m h) (Outside-handle now j m h (λ e. ground (arith, e)) k)

  pub Outside-on_auth_timeout :
      (j : ℕ) (h : Host) → Outside key id h → Outside key id (on_auth_timeout j h)
  unfolding on_auth_timeout
  Outside-on_auth_timeout j h k =
      let k' = Outside-set_conn j _ h (still_out j h k) k in
      if-both (Outside key id) (conn_of j h).is_authenticated _ _ k' (Outside-close_conn j _ k')

  pub Outside-on_connection : (h : Host) → Outside key id h → Outside key id (on_connection h)
  unfolding Outside on_connection
  Outside-on_connection h k = Outside-set_conn h.next _ h (λ e. refl) k

  All-drop_pending :
      (j : ℕ) (ps : List (Value × ℕ))
      → All (λ (p : Value × ℕ). p.1 ≢ id) ps
      → All (λ (p : Value × ℕ). p.1 ≢ id) (drop_pending j ps)
  unfolding drop_pending
  All-drop_pending j [] h = tt
  All-drop_pending j ((r, i) ∷ ps) (p, h) = ground (arith, All-drop_pending j ps h)

  Outside-retire :
      (r : Option Role) (j : ℕ) (h : Host) → Outside key id h → Outside key id (retire r j h)
  unfolding Outside retire
  Outside-retire none j h k = k
  Outside-retire (some other) j h k = k
  Outside-retire (some bridge) j h k = record {
    same_secret = k.same_secret;
    unauthenticated = k.unauthenticated;
    not_consumer = k.not_consumer;
    not_bridge = remove-harmless id j h.bridges k.not_bridge;
    not_awaited = k.not_awaited;
    unsent = k.unsent;
  }
  Outside-retire (some consumer) j h k = record {
    same_secret = k.same_secret;
    unauthenticated = k.unauthenticated;
    not_consumer = All-keep (λ b. b ≢ id) (λ i. not (nat_eq i j)) h.consumers k.not_consumer;
    not_bridge = k.not_bridge;
    not_awaited = k.not_awaited;
    unsent = k.unsent;
  }

  Outside-drop :
      (j : ℕ) (h : Host)
      → Outside key id h
      → Outside key id (record h { pending_control = drop_pending j h.pending_control })
  unfolding Outside
  Outside-drop j h k = record {
    same_secret = k.same_secret;
    unauthenticated = k.unauthenticated;
    not_consumer = k.not_consumer;
    not_bridge = k.not_bridge;
    not_awaited = All-drop_pending j h.pending_control k.not_awaited;
    unsent = k.unsent;
  }

  pub Outside-on_close : (j : ℕ) (h : Host) → Outside key id h → Outside key id (on_close j h)
  unfolding on_close
  Outside-on_close j h k =
      Outside-drop j _ (Outside-retire _ j _ (Outside-set_conn j _ h (still_out j h k) k))
