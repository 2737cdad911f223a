-- ===== src/Status/Payload.antt =====
-- What a report says of the engine's status (src/agsync/status/payload.py).
use integration_hub.Prelude.{
  ℕ, String, Bool, true, false, not, ◌&&◌, ◌||◌, ◌≡◌, Option, none, some, List, [], ◌∷◌, ◌++◌,
  if◌then◌else◌, ltb, is_nil, is_some, ◌==◌, string_eq, arith, refl, any, count_if,
}
use integration_hub.Tracking.{Row, Table}
use integration_hub.Engine.{EngineStatus}

-- `NOT_CONFIGURED` and so on
pub data Connection : Type 0 where
  connected session_expired unreachable not_configured : Connection

-- `RUNNING`, `PAUSED`, `STOPPED`
pub data SyncState : Type 0 where
  running paused stopped : SyncState

-- `_direction`
unfoldable pub direction : Option Bool → Option String
direction none = none
direction (some writes_credentials) =
    some (if writes_credentials then "ag_to_pacs" else "pacs_to_ag")

-- `_connection_status`
unfoldable pub connection_status : EngineStatus → Bool → Connection
connection_status status configured =
    if not configured
    then not_configured
    else if status.reconnect_required
    then session_expired
    else if not status.pacs_reachable
    then unreachable
    else connected

-- `_sync_state`, where `is_running` is the status's `running`.
unfoldable pub sync_state : Bool → EngineStatus → SyncState
sync_state is_running status =
    if not is_running then stopped else if status.paused then paused else running

is_expired : Connection → Bool
is_expired session_expired = true
is_expired _ = false

is_unreachable : Connection → Bool
is_unreachable unreachable = true
is_unreachable _ = false

is_paused : SyncState → Bool
is_paused paused = true
is_paused _ = false

abbrev when : Bool → String → List String
when b name = if b then name ∷ [] else []

-- The total `failed` of `_totals`: the rows with that status.
unfoldable pub failed_total : Table → ℕ
failed_total rows = count_if (λ r. r.status == "failed") rows

-- `_conditions`, where `failed` is that total, 0 before the first cycle.
unfoldable pub conditions : EngineStatus → Connection → SyncState → ℕ → List String
unfolding is_expired is_unreachable is_paused
conditions status connection state failed =
    when (is_expired connection) "pacs_session_expired"
    ++ (when (is_unreachable connection) "pacs_unreachable"
        ++ (when (not status.ag_reachable) "ag_unreachable"
            ++ (when (is_paused state) "engine_paused"
                ++ (when (not (is_some status.last_cycle)) "never_synced"
                    ++ when (ltb 0 failed) "provision_failures"))))

-- The conditions of a whole report.
unfoldable pub report_conditions : Bool → Bool → Table → EngineStatus → List String
unfolding connection_status sync_state conditions failed_total
report_conditions is_running configured rows status =
    conditions status (connection_status status configured) (sync_state is_running status)
      (failed_total rows)

counts_none : (p : Row → Bool) (rows : Table) → ltb 0 (count_if p rows) ≡ any p rows
unfolding count_if any
counts_none p [] = refl
counts_none p (r ∷ rows) = ground (arith, counts_none p rows)

-- A report lists no condition exactly when no session has expired and the PACS answers (or no PACS
-- is set up), AccessGrid answers, the engine is not paused (or does not run), a cycle has been made,
-- and no row of the table that was counted has the status `failed`.
pub report_conditions-nil :
    (is_running configured : Bool) (rows : Table) (status : EngineStatus)
    → is_nil (report_conditions is_running configured rows status) ≡ (
        (not configured || (not status.reconnect_required && status.pacs_reachable))
        && (status.ag_reachable
            && ((not is_running || not status.paused)
                && (is_some status.last_cycle && not (any (λ r. r.status == "failed") rows)))))
unfolding report_conditions
report_conditions-nil is_running configured rows status =
    ground (arith, counts_none (λ r. r.status == "failed") rows)
