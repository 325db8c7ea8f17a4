-- ===== src/Client/Meta.antt =====
-- src/client.ts: the metadata of a host, and the host that a client starts. The files and the system
-- are those of the host; each reading has its time, the time of the file, and the file.
pub mod Found
use code_bridge.Base.{
  ℕ, ◌+◌, String, Bool, true, false, not, ◌&&◌, ◌||◌, Option, none, some, List, [], ◌∷◌, ltb,
  if◌then◌else◌,
}
use code_bridge.Js.Value.{Value, Number, int, neg, neg_infinity, get_field, truthy}
use code_bridge.Platform.{Environment, is_dev_mode}
use code_bridge.Host.Lock.{File, absent, invalid, holds, System}

abbrev pub host_heartbeat_stale_ms : ℕ
host_heartbeat_stale_ms = 15_000

-- `age > HOST_HEARTBEAT_STALE_MS` of a date, and `false` where that is NaN
abbrev pub is_stale_at : ℕ → Number → Bool
is_stale_at now (int t) = ltb (t + host_heartbeat_stale_ms) now
is_stale_at now (neg t) = ltb host_heartbeat_stale_ms (now + t)
is_stale_at now neg_infinity = true
is_stale_at now _ = false

pub record Reading : Type 0 where
  pub now : ℕ
  pub mtime : ℕ
  pub file : File

-- The tests of the process, the heartbeat, and of the file where neither is there.
unfoldable pub is_fresh : System → ℕ → ℕ → Value → Bool
is_fresh sys now mtime meta =
    let pid = get_field "pid" meta in
    let at = get_field "heartbeatAt" meta in
    (not (truthy pid) || sys.is_alive pid)
    && (not (truthy at) || not (is_stale_at now (sys.date_ms at)))
    && (truthy at || truthy pid || not (ltb (mtime + host_heartbeat_stale_ms) now))

-- Reading a field of `null` throws, and a field of any other value that is no object is missing.
unfoldable pub healthy_value : System → ℕ → ℕ → Value → Option Value
healthy_value sys now mtime meta =
    if truthy (get_field "url" meta)
      && truthy (get_field "secret" meta)
      && is_fresh sys now mtime meta
    then some meta
    else none

unfoldable pub read_healthy_meta : System → Reading → Option Value
read_healthy_meta sys r = elim r.file [
  | holds meta ↦ healthy_value sys r.now r.mtime meta
  | absent ↦ none
  | invalid ↦ none
]

pub record Command : Type 0 where
  pub cmd : String
  pub args : List String

-- `fs.existsSync` of the file in node_modules/.bin is an argument.
unfoldable pub resolve_host_bin : String → String → Bool → Command
resolve_host_bin workspace local_bin exists =
    if exists
    then record { cmd = local_bin; args = workspace ∷ [] }
    else record { cmd = "npx"; args = "code-bridge-host" ∷ workspace ∷ [] }

abbrev pub or_next {ℓ} : {A : Type ℓ} → Option A → Option A → Option A
or_next (some a) next = some a
or_next none next = next

-- The readings up to the deadline.
unfoldable pub poll : System → List Reading → Option Value
poll sys [] = none
poll sys (r ∷ rs) = or_next (read_healthy_meta sys r) (poll sys rs)

-- `spawn` throws, or else the readings up to the deadline and the one after it.
unfoldable pub start_host : System → Option (List Reading × Reading) → Option Value
start_host sys none = none
start_host sys (some (polls, after)) = or_next (poll sys polls) (read_healthy_meta sys after)

-- Whether node's modules could be loaded is an argument.
unfoldable pub ensure_host_if_possible :
    System → Environment → Bool → Reading → Option (List Reading × Reading) → Option Value
ensure_host_if_possible sys env has_modules first spawned =
    if not (is_dev_mode env)
    then none
    else if not env.is_node
    then none
    else if not has_modules
    then none
    else or_next (read_healthy_meta sys first) (start_host sys spawned)
