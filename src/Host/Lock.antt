-- ===== src/Host/Lock.antt =====
-- bin/code-bridge-host.js: the lock and the metadata file of a workspace. A file is absent, or
-- holds a value, or what is no JSON. The processes that are alive, the numbers of processes, and the
-- texts of dates are parameters; that a file cannot be written is left out.
use Prim.Native.String.{◌++◌}
use code_bridge.Base.{
  ℕ, ◌+◌, String, Bool, true, false, not, ◌&&◌, Option, none, some, ltb, ◌==◌, if◌then◌else◌,
}
use code_bridge.Js.Value.{
  Value, Number, neg_infinity, int, neg, undefined, null, number, string, object, end, field,
  get_field, truthy, set,
}
use code_bridge.Js.Print.{decimal}

-- A file: absent, or what `JSON.parse` makes of it, or `invalid`.
pub data File : Type 0 where
  absent invalid : File
  holds : Value → File

pub record Files : Type 0 where
  pub lock : File
  pub meta : File

pub data Locking : Type 0 where
  acquired : Files → Locking
  -- another host runs, or the lock could not be read
  exited : Files → Locking

abbrev pub heartbeat_stale_ms : ℕ
heartbeat_stale_ms = 15_000

-- `n > 15000` of an age, which is not NaN for a date
abbrev pub is_older : ℕ → Number → Bool
is_older now (int t) = ltb (t + heartbeat_stale_ms) now
is_older now (neg t) = ltb heartbeat_stale_ms (now + t)
is_older now neg_infinity = true
is_older now _ = false

-- What the code asks of the system: whether a signal to a process succeeds, the time of a date,
-- and the text of a time.
pub record System : Type 0 where
  pub is_alive : Value → Bool
  pub date_ms : Value → Number
  pub iso : ℕ → String

-- A file that is read but in which a field of `null` is asked for throws.
abbrev pub is_readable : File → Bool
is_readable absent = false
is_readable invalid = false
is_readable (holds null) = false
is_readable (holds v) = true

abbrev pub value_of : File → Value
value_of (holds v) = v
value_of file = undefined

unfoldable pub holder_is_alive : System → Value → Bool
holder_is_alive sys lock_data =
    let pid = get_field "pid" lock_data in truthy pid && sys.is_alive pid

-- A heartbeat that is missing or cannot be read is not stale.
unfoldable pub is_stale : System → ℕ → File → Bool
is_stale sys now meta =
    let at = get_field "heartbeatAt" (value_of meta) in truthy at && is_older now (sys.date_ms at)

unfoldable pub lock_data_of : System → ℕ → ℕ → String → Value
lock_data_of sys now pid workspace = object (
    field "pid" (number (int pid))
      (field "startedAt" (string (sys.iso now)) (field "workspacePath" (string workspace) end)))

unfoldable pub write_lock : System → ℕ → ℕ → String → Files → Files
write_lock sys now pid workspace files = record files {
  lock = holds (lock_data_of sys now pid workspace);
}

unfoldable pub reclaim : System → ℕ → ℕ → String → Files → Locking
reclaim sys now pid workspace files =
    if not (is_readable files.lock)
    then exited files
    else if holder_is_alive sys (value_of files.lock) && not (is_stale sys now files.meta)
    then exited files
    else acquired (write_lock sys now pid workspace files)

abbrev pub is_absent : File → Bool
is_absent absent = true
is_absent file = false

unfoldable pub try_acquire_lock : System → ℕ → ℕ → String → Files → Locking
try_acquire_lock sys now pid workspace files =
    if is_absent files.lock
    then acquired (write_lock sys now pid workspace files)
    else reclaim sys now pid workspace files

unfoldable pub release_lock : Files → Files
release_lock files = record files { lock = absent }

abbrev pub non_empty_text : Value → Option String
non_empty_text (string s) = if s == "" then none else some s
non_empty_text v = none

-- `null` where there is no secret to reuse
unfoldable pub load_existing_secret : File → Option String
load_existing_secret file = non_empty_text (get_field "secret" (value_of file))

unfoldable pub metadata_of : System → ℕ → ℕ → String → ℕ → String → Value
metadata_of sys now pid workspace port secret = object (
    field "url" (string ("ws://127.0.0.1:" ++ decimal port)) (
      field "port" (number (int port)) (
        field "secret" (string secret) (
          field "workspacePath" (string workspace) (
            field "startedAt" (string (sys.iso now))
              (field "pid" (number (int pid)) (field "heartbeatAt" (string (sys.iso now)) end)))))))

unfoldable pub write_metadata : System → ℕ → ℕ → String → ℕ → String → Files → Files
write_metadata sys now pid workspace port secret files = record files {
  meta = holds (metadata_of sys now pid workspace port secret);
}

-- A round of the heartbeat, on the metadata that the host wrote.
unfoldable pub beat : System → ℕ → Value → Value
beat sys now (object fs) = object (set "heartbeatAt" (string (sys.iso now)) fs)
beat sys now v = v

unfoldable pub heartbeat : System → ℕ → Value → Files → Files
heartbeat sys now metadata files = record files { meta = holds (beat sys now metadata) }

abbrev pub or_text : Option String → String → String
or_text none t = t
or_text (some s) t = if s == "" then t else s

-- From the environment, or the earlier one, or the one that was drawn at random.
unfoldable pub choose_secret : Option String → Option String → File → String → String
choose_secret secret_var host_secret_var meta drawn =
    or_text secret_var (or_text host_secret_var (or_text (load_existing_secret meta) drawn))
