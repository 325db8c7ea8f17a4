-- ===== src/Constants.antt =====
-- src/constants.ts
use code_bridge.Base.{ℕ}

abbrev pub protocol_version : ℕ
protocol_version = 2

abbrev pub heartbeat_interval_ms : ℕ
heartbeat_interval_ms = 15_000

abbrev pub heartbeat_timeout_ms : ℕ
heartbeat_timeout_ms = 30_000

abbrev pub reconnect_initial_delay_ms : ℕ
reconnect_initial_delay_ms = 1_000

abbrev pub reconnect_max_delay_ms : ℕ
reconnect_max_delay_ms = 30_000

abbrev pub buffer_limit : ℕ
buffer_limit = 200
