-- ===== src/Host/Exclusion.antt =====
-- Which hosts can hold a workspace, and what a restart keeps.
use code_bridge.Base.{
  if-false, not, ◌&&◌, if-true, ℕ, ◌+◌, ◌≡◌, ◌≤◌, ◌<◌, refl, String, Bool, true, false, ◌==◌, none,
  arith,
}
use code_bridge.Js.Value.{Value, int, string, number, get, set, get_field, truthy}
use code_bridge.Host.Lock.{
  holds, or_text, Files, System, acquired, exited, holder_is_alive, is_stale, lock_data_of,
  write_lock, reclaim, try_acquire_lock, release_lock, load_existing_secret, metadata_of,
  write_metadata, beat, heartbeat, choose_secret,
}

-- The files of a host that has the port and started at t₀, after its heartbeat at t₁.
unfoldable pub running : System → ℕ → ℕ → ℕ → String → ℕ → String → Files → Files
running sys t₀ t₁ pid workspace port secret files =
    heartbeat sys t₁ (metadata_of sys t₀ pid workspace port secret)
      (write_metadata sys t₀ pid workspace port secret (write_lock sys t₀ pid workspace files))

is_stale-fresh :
    (sys : System) (now : ℕ) (v : Value) (t : ℕ)
    → sys.date_ms (get_field "heartbeatAt" v) ≡ int t
    → now ≤ t + 15_000
    → is_stale sys now (holds v) ≡ false
unfolding is_stale
is_stale-fresh sys now v t d h = rw d (ground arith)

-- Where the texts of times are read back as these times: as long as a host that started with a
-- number other than 0 is alive, and its last heartbeat is at most 15 seconds old, no other one gets
-- the workspace, and the attempt changes no file.
pub running-exited :
    (sys : System) (t₀ t₁ now pid other port : ℕ) (workspace other_workspace secret : String)
    (files : Files)
    → sys.date_ms (string (sys.iso t₁)) ≡ int t₁
    → sys.is_alive (number (int pid)) ≡ true
    → 0 < pid
    → now ≤ t₁ + 15_000
    → try_acquire_lock sys now other other_workspace
        (running sys t₀ t₁ pid workspace port secret files)
      ≡ exited (running sys t₀ t₁ pid workspace port secret files)
unfolding try_acquire_lock reclaim running heartbeat beat metadata_of write_metadata write_lock
    lock_data_of holder_is_alive is_stale get_field get set truthy
running-exited sys t₀ t₁ now pid other port workspace other_workspace secret files d a p h =
    let alive : holder_is_alive sys (lock_data_of sys t₀ pid workspace) ≡ true = ground arith in
    let fresh : is_stale sys now (running sys t₀ t₁ pid workspace port secret files).meta ≡ false =
      is_stale-fresh sys now (beat sys t₁ (metadata_of sys t₀ pid workspace port secret)) t₁ d h in
    if-true
      (holder_is_alive sys (lock_data_of sys t₀ pid workspace)
        && not (is_stale sys now (running sys t₀ t₁ pid workspace port secret files).meta))
      _ _ (rw (alive, fresh) refl)

-- A host that starts with no secret in its environment takes the secret of the host that ran
-- before, if that one was not empty, and not the one that was drawn.
pub restart-secret :
    (sys : System) (t₀ t₁ pid port : ℕ) (workspace secret drawn : String) (files : Files)
    → (secret == "") ≡ false
    → choose_secret none none
        (release_lock (running sys t₀ t₁ pid workspace port secret files)).meta
        drawn
      ≡ secret
unfolding choose_secret release_lock running heartbeat beat metadata_of write_metadata write_lock
    load_existing_secret get_field get set
restart-secret sys t₀ t₁ pid port workspace secret drawn files e = rw (e, or_text, e) refl

-- A host whose last heartbeat is older than 15 seconds loses the workspace to
-- the next one that starts. If it stops after that, it removes the lock of the next one, and a
-- third host gets the workspace at the same time.
pub stale-acquired :
    (sys : System) (t₀ t₁ now pid next third port : ℕ) (workspace secret : String) (files : Files)
    → sys.date_ms (string (sys.iso t₁)) ≡ int t₁
    → (sys.iso t₁ == "") ≡ false
    → t₁ + 15_000 < now
    → (taken : Files) × (try_acquire_lock sys now next workspace
          (running sys t₀ t₁ pid workspace port secret files)
        ≡ acquired taken)
      × (try_acquire_lock sys now third workspace
            (release_lock (running sys now now next workspace port secret taken))
          ≡ acquired (
              write_lock sys now third workspace
                (running sys now now next workspace port secret taken)))
unfolding try_acquire_lock reclaim running heartbeat beat metadata_of write_metadata write_lock
    release_lock lock_data_of holder_is_alive is_stale get_field get set truthy
stale-acquired sys t₀ t₁ now pid next third port workspace secret files d e h =
    let stale : is_stale sys now (running sys t₀ t₁ pid workspace port secret files).meta ≡ true =
      rw d (ground arith) in
    let lost : Bool =
      holder_is_alive sys (lock_data_of sys t₀ pid workspace)
      && not (is_stale sys now (running sys t₀ t₁ pid workspace port secret files).meta) in
    (_, if-false lost _ _ (ground (arith, stale)), refl)
