-- ===== src/Client/Meta/Found.antt =====
-- A client against the host: the metadata that one finds healthy keep another host from starting.
use Prim.Native.String.{[], ◌∷◌, ◌++◌}
use text.Mathlib.TextLemmas.{append-eq-nil_iff}
use code_bridge.Base.{
  ap, eq_iff, ℕ, ◌<◌, ◌≡◌, String, Bool, true, false, ◌==◌, Option, none, some, arith, Bool-cases,
  inl, inr,
}
use code_bridge.Js.Value.{get_field, get, set, truthy}
use code_bridge.Js.Print.{decimal}
use code_bridge.Host.Lock.{
  Files, System, Locking, acquired, exited, holder_is_alive, is_stale, lock_data_of, write_lock,
  reclaim, try_acquire_lock, metadata_of, write_metadata, beat, heartbeat,
}
use code_bridge.Host.Exclusion.{running}
use code_bridge.Client.Meta.{is_fresh, healthy_value, read_healthy_meta}

abbrev pub has_value {ℓ} : {A : Type ℓ} → Option A → Bool
has_value none = false
has_value (some a) = true

abbrev pub is_exited : Locking → Bool
is_exited (exited files) = true
is_exited (acquired files) = false

is_nil : String → Bool
is_nil [] = true
is_nil (c ∷ s) = false

url-given : (s : String) → ("ws://127.0.0.1:" ++ s == "") ≡ false
unfolding is_nil
url-given s = elim (Bool-cases ("ws://127.0.0.1:" ++ s == "")) [
  | inl e ↦
      (let empty : "ws://127.0.0.1:" ≡ "" =
          (append-eq-nil_iff.0 ((eq_iff ("ws://127.0.0.1:" ++ s) "").0 e)).0 in
        absurd (ground (arith, ap is_nil empty)))
  | inr e ↦ e
]

-- Once a host has written its lock and its metadata, with a secret that is not empty and a number
-- of its process that is not 0, a client that reads the metadata at any time takes the host for
-- healthy exactly if another host that starts at that time exits.
pub healthy-exited :
    (sys : System) (t₀ t₁ now mtime pid other port : ℕ) (workspace other_workspace secret : String)
    (files : Files)
    → 0 < pid
    → (secret == "") ≡ false
    → has_value (
        read_healthy_meta sys (record {
          now = now;
          mtime = mtime;
          file = (running sys t₀ t₁ pid workspace port secret files).meta;
        }))
      ≡ is_exited (
          try_acquire_lock sys now other other_workspace
            (running sys t₀ t₁ pid workspace port secret files))
unfolding try_acquire_lock reclaim running heartbeat beat metadata_of write_metadata write_lock
    lock_data_of holder_is_alive is_stale get_field get set truthy read_healthy_meta healthy_value
    is_fresh
healthy-exited sys t₀ t₁ now mtime pid other port workspace other_workspace secret files p e =
    ground (arith, p, e, url-given (decimal port))
