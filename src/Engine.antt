-- ===== src/Engine.antt =====
-- The engine: one cycle, and the loop around it (src/agsync/sync/engine.py).
-- Times are in milliseconds; the fields of the status that only describe the install (the
-- vendor's names, the totals, the time of the next run) are left out.
pub mod Cycle
pub mod Breaker
use integration_hub.Prelude.{
  ℕ, suc, ◌+◌, ◌*◌, String, Bool, true, false, ◌&&◌, Option, none, some, leb, min, max, is_some,
  if◌then◌else◌,
}

-- `CycleResult`
pub record CycleResult : Type 0 where
  pub duration_ms : ℕ
  pub provisioned : ℕ
  pub status_changes : ℕ
  pub deleted : ℕ
  pub ag_to_pacs : ℕ
  pub retried : ℕ
  pub field_updates : ℕ
  pub error : Option String
  pub counts_as_failure : Bool

-- `EngineStatus`
pub record EngineStatus : Type 0 where
  pub paused : Bool
  pub last_cycle : Option CycleResult
  pub last_error : Option String
  pub cached_interval_ms : ℕ
  pub consecutive_errors : ℕ
  pub pacs_reachable : Bool
  pub ag_reachable : Bool
  pub reconnect_required : Bool
  pub pacs_writes_credentials : Option Bool
  pub last_pacs_read : Option ℕ

abbrev pub min_interval_ms : ℕ
min_interval_ms = 60000

abbrev pub max_interval_ms : ℕ
max_interval_ms = 600000

abbrev pub interval_multiplier : ℕ
interval_multiplier = 3

abbrev pub error_backoff_ms : ℕ
error_backoff_ms = 30000

abbrev pub reconnect_retry_ms : ℕ
reconnect_retry_ms = 120000

abbrev pub max_consecutive_errors : ℕ
max_consecutive_errors = 10

-- The status of a new engine.
abbrev pub initial_status : EngineStatus
initial_status = record {
  paused = false;
  last_cycle = none;
  last_error = none;
  cached_interval_ms = min_interval_ms;
  consecutive_errors = 0;
  pacs_reachable = true;
  ag_reachable = true;
  reconnect_required = false;
  pacs_writes_credentials = none;
  last_pacs_read = none;
}

unfoldable pub dynamic_interval : ℕ → ℕ
dynamic_interval duration_ms =
    max min_interval_ms (min max_interval_ms (duration_ms * interval_multiplier))

-- What the loop makes of a cycle's result.
unfoldable pub after_cycle : EngineStatus → CycleResult → EngineStatus
unfolding dynamic_interval
after_cycle s result =
    if is_some result.error && result.counts_as_failure
    then record s {
      last_cycle = some result;
      consecutive_errors = s.consecutive_errors + 1;
      last_error = result.error;
      cached_interval_ms = error_backoff_ms;
    }
    else if s.reconnect_required
    then record s { last_cycle = some result; cached_interval_ms = reconnect_retry_ms }
    else record s {
      last_cycle = some result;
      consecutive_errors = 0;
      last_error = none;
      cached_interval_ms = dynamic_interval result.duration_ms;
    }

-- The breaker, at the top of the loop.
unfoldable pub is_tripped : EngineStatus → Bool
is_tripped s = leb max_consecutive_errors s.consecutive_errors

-- The wait of a tripped engine: a trigger ends it, and nothing else does.
unfoldable pub wait_paused : Bool → EngineStatus → EngineStatus
wait_paused triggered s =
    if triggered
    then record s { paused = false; consecutive_errors = 0 }
    else record s { paused = true }

-- `session_restored`, on the status.
unfoldable pub session_restored : EngineStatus → EngineStatus
session_restored s = record s {
  reconnect_required = false;
  pacs_reachable = true;
  consecutive_errors = 0;
  paused = false;
}
