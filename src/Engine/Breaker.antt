-- ===== src/Engine/Breaker.antt =====
-- The breaker and the waits of the loop (`_run_loop` of src/agsync/sync/engine.py).
use integration_hub.Prelude.{
  ℕ, ◌≤◌, ◌≡◌, refl, arith, inl, inr, Bool-cases, Bool, true, false, not, ◌||◌, Option, none, some,
}
use integration_hub.World.{
  Services, World, Exn, ag_error, auth_expired, record_unavailable, other, Result, ok, raised,
}
use integration_hub.Snapshot.{Snapshot}
use integration_hub.Phases.Params.{Config}
use integration_hub.Engine.{
  CycleResult, EngineStatus, initial_status, after_cycle, dynamic_interval, is_tripped, wait_paused,
  session_restored,
}
use integration_hub.Engine.Cycle.{
  Ending, finished, abandoned, failed, close_cycle, handle_auth_expired, snapshot_failed,
  snapshot_status, Setup, on_snapshot, read_and_run, with_pacs, derived_params, with_ag,
  run_one_cycle, timed, turn,
}

-- What a cycle leaves of the status to the loop.
pub record Frame (s t : EngineStatus) : Type 0 where
  pub errors : t.consecutive_errors ≡ s.consecutive_errors
  pub paused : t.paused ≡ s.paused
  pub interval : t.cached_interval_ms ≡ s.cached_interval_ms

same : (s : EngineStatus) → Frame s s
same s = record { errors = refl; paused = refl; interval = refl }

close_cycle-Frame :
    (e : Ending) (s : EngineStatus) (r : CycleResult) → Frame s (close_cycle e s r).1
unfolding close_cycle handle_auth_expired
close_cycle-Frame finished s r = same s
close_cycle-Frame abandoned s r = same s
close_cycle-Frame (failed (auth_expired text)) s r = record {
  errors = refl;
  paused = refl;
  interval = refl;
}
close_cycle-Frame (failed (ag_error text)) s r = same s
close_cycle-Frame (failed (record_unavailable text)) s r = same s
close_cycle-Frame (failed (other name text)) s r = same s

snapshot_failed-Frame :
    (e : Exn) (s : EngineStatus) (r : CycleResult) → Frame s (snapshot_failed e s r).1
unfolding snapshot_failed handle_auth_expired
snapshot_failed-Frame (auth_expired text) s r = record {
  errors = refl;
  paused = refl;
  interval = refl;
}
snapshot_failed-Frame (ag_error text) s r = record { errors = refl; paused = refl; interval = refl }
snapshot_failed-Frame (record_unavailable text) s r = record {
  errors = refl;
  paused = refl;
  interval = refl;
}
snapshot_failed-Frame (other name text) s r = record {
  errors = refl;
  paused = refl;
  interval = refl;
}

module _ (env : Services) where
  on_snapshot-Frame :
      (cfg : Config) (s : EngineStatus) (r : Result Snapshot) (w : World)
      → Frame s (on_snapshot env cfg s r w).0.1
  unfolding on_snapshot snapshot_status
  on_snapshot-Frame cfg s (ok snapshot) w =
      let f = close_cycle-Frame _ (snapshot_status (env.now w) snapshot s) _ in
      record { errors = f.errors; paused = f.paused; interval = f.interval }
  on_snapshot-Frame cfg s (raised e) w = snapshot_failed-Frame e s _

  with_pacs-Frame :
      (cfg : Config) (r : Result (Unit {0})) (s : EngineStatus) (w : World)
      → Frame s (with_pacs env cfg r s w).0.1
  unfolding with_pacs read_and_run
  with_pacs-Frame cfg (ok _) s w =
      let f =
        on_snapshot-Frame cfg
          (record s { pacs_writes_credentials = some env.supports_credential_writeback }) _ _ in
      record { errors = f.errors; paused = f.paused; interval = f.interval }
  with_pacs-Frame cfg (raised e) s w = record { errors = refl; paused = refl; interval = refl }

  with_ag-Frame :
      (setup : Setup) (r : Result (Unit {0})) (s : EngineStatus) (w : World)
      → Frame s (with_ag env setup r s w).0.1
  unfolding with_ag
  with_ag-Frame setup (ok _) s w =
      with_pacs-Frame setup.config (setup.pacs_init (derived_params env setup w).0) s _
  with_ag-Frame setup (raised e) s w = record { errors = refl; paused = refl; interval = refl }

  pub run_one_cycle-Frame :
      (setup : Option Setup) (s : EngineStatus) (w : World)
      → Frame s (run_one_cycle env setup s w).0.1
  unfolding run_one_cycle
  run_one_cycle-Frame none s w = same s
  run_one_cycle-Frame (some setup) s w = with_ag-Frame setup setup.ag_init s w

-- The statuses that the loop can come to, whatever the settings, triggers, services and worlds.
pub data Reachable : EngineStatus → Type 0 where
  started : Reachable initial_status
  turned :
      {s : EngineStatus} (env : Services) (setup : Option Setup) (triggered : Bool) (w : World)
      → Reachable s
      → Reachable (turn env setup triggered s w).0
  restored : {s : EngineStatus} → Reachable s → Reachable (session_restored s)

-- The errors stay within the breaker's limit, the interval that is kept between half a minute and ten minutes, and
-- only a tripped engine is paused.
pub record IsSound (s : EngineStatus) : Type 0 where
  pub few : s.consecutive_errors ≤ 10
  pub at_least : 30000 ≤ s.cached_interval_ms
  pub at_most : s.cached_interval_ms ≤ 600000
  pub for_cause : (not s.paused || is_tripped s) ≡ true

interval-bounds : (d : ℕ) → (30000 ≤ dynamic_interval d) × (dynamic_interval d ≤ 600000)
unfolding dynamic_interval
interval-bounds d = (omega arith, omega arith)

after_cycle-IsSound :
    (s t : EngineStatus) (r : CycleResult)
    → IsSound s
    → is_tripped s ≡ false
    → Frame s t
    → IsSound (after_cycle t r)
unfolding after_cycle is_tripped
after_cycle-IsSound s t r h calm f = record {
  few = ground (arith, h.few, f.errors);
  at_least = ground (arith, interval-bounds r.duration_ms);
  at_most = ground (arith, interval-bounds r.duration_ms);
  for_cause = ground (arith, h.for_cause, f.paused);
}

wait_paused-IsSound :
    (s : EngineStatus) (triggered : Bool)
    → IsSound s
    → is_tripped s ≡ true
    → IsSound (wait_paused triggered s)
unfolding wait_paused is_tripped
wait_paused-IsSound s triggered h full = record {
  few = ground (arith, h.few);
  at_least = ground (arith, h.at_least);
  at_most = ground (arith, h.at_most);
  for_cause = ground arith;
}

session_restored-IsSound : (s : EngineStatus) → IsSound s → IsSound (session_restored s)
unfolding session_restored is_tripped
session_restored-IsSound s h = record {
  few = omega arith;
  at_least = h.at_least;
  at_most = h.at_most;
  for_cause = refl;
}

turn-IsSound :
    (env : Services) (setup : Option Setup) (triggered : Bool) (s : EngineStatus) (w : World)
    → IsSound s
    → IsSound (turn env setup triggered s w).0
unfolding turn timed
turn-IsSound env setup triggered s w h = elim (Bool-cases (is_tripped s)) [
  | inl e ↦ rw e (wait_paused-IsSound s triggered h e)
  | inr e ↦ rw e (after_cycle-IsSound s _ _ h e (run_one_cycle-Frame env setup s w))
]

-- In every status that the loop comes to, whatever the services answer, at most ten errors are
-- counted, the interval kept for the wait after a cycle is between half a minute and ten minutes,
-- and the engine is paused only if its breaker has tripped.
pub Reachable-IsSound : {s : EngineStatus} → Reachable s → IsSound s
unfolding is_tripped
Reachable-IsSound started = record {
  few = omega arith;
  at_least = omega arith;
  at_most = omega arith;
  for_cause = refl;
}
Reachable-IsSound (turned env setup triggered w r) =
    turn-IsSound env setup triggered _ w (Reachable-IsSound r)
Reachable-IsSound (restored r) = session_restored-IsSound _ (Reachable-IsSound r)
