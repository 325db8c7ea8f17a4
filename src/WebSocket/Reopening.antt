-- ===== src/WebSocket/Reopening.antt =====
-- `disconnect` leaves the `onclose` handler of its socket in place.
use code_bridge.Base.{ℕ, ◌+◌, ◌≡◌, refl, true, false, none, some, [], ◌∷◌}
use code_bridge.WebSocket.{reconnect_fires, on_close, disconnect, Bridge, connecting}
use code_bridge.WebSocket.Events.{run, disconnects, socket_closed, reconnect_due}

-- Right after `disconnect` a bridge has no socket and no timer to reconnect. But the close event
-- of the socket that it let go sets such a timer, and when that is due the bridge connects again.
pub disconnect_reconnects :
    (b : Bridge) (t₁ t₂ t₃ : ℕ)
    → let left = run ((t₁, disconnects) ∷ []) b in
      let told = run ((t₁, disconnects) ∷ (t₂, socket_closed false) ∷ []) b in
      let back =
        run ((t₁, disconnects) ∷ (t₂, socket_closed false) ∷ (t₃, reconnect_due true) ∷ []) b in
      (left.ws ≡ none)
      × (left.reconnect_timeout ≡ none)
      × (told.reconnect_timeout ≡ some (t₂ + b.reconnect_delay))
      × (back.ws ≡ some connecting)
unfolding run disconnect on_close reconnect_fires
disconnect_reconnects b t₁ t₂ t₃ = (refl, refl, refl, refl)
