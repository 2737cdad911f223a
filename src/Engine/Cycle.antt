-- ===== src/Engine/Cycle.antt =====
-- `_run_one_cycle_locked` of src/agsync/sync/engine.py, and one turn of `_run_loop`.
pub mod Calls
use Prim.Native.String.{◌++◌ as str_append}
use integration_hub.Prelude.{
  ℕ, ◌-◌, ◌/◌, String, Bool, true, false, not, Option, none, some, List, [], ◌∷◌, is_nil, nonempty,
  strip, lower, ◌==◌, string_eq, if◌then◌else◌,
}
use integration_hub.World.{
  Services, World, Exn, auth_expired, message, Result, ok, raised, Exec, ag_read_template,
  pacs_finish_cycle, perform,
}
use integration_hub.Snapshot.{Snapshot}
use integration_hub.Snapshot.Build.{build_snapshot}
use integration_hub.Phases.Params.{Config}
use integration_hub.Phases.Provision
use integration_hub.Phases.LocalToAg
use integration_hub.Phases.Deletions
use integration_hub.Phases.AgToLocal
use integration_hub.Phases.Retries
use integration_hub.Phases.FieldChanges
use integration_hub.Engine.{CycleResult, EngineStatus, after_cycle, is_tripped, wait_paused}

-- How the phases ended.
pub data Ending : Type 0 where
  finished abandoned : Ending
  failed : Exn → Ending

-- The phases fill in the result as they go, so that what a failing one leaves behind is kept.
abbrev pub Stage : Type 0
Stage = CycleResult → World → (CycleResult × Ending) × World

abbrev pub after_phase : (ℕ → CycleResult → CycleResult) → Stage → Result ℕ → Stage
after_phase set next (ok n) result w = next (set n result) w
after_phase set next (raised e) result w = ((result, failed e), w)

unfoldable pub run_phase : Exec ℕ → (ℕ → CycleResult → CycleResult) → Stage → Stage
run_phase phase set next result w = let (r, w') = phase w in after_phase set next r result w'

abbrev pub ending_of : Result (Unit {0}) → Ending
ending_of (ok _) = finished
ending_of (raised e) = failed e

module _ (env : Services) where
  -- `if superseded(): return self._abandon(…)`
  unfoldable pub unless_superseded : Stage → Stage
  unless_superseded next result w =
      if env.superseded w then ((result, abandoned), w) else next result w

  -- `finish()`, where the adapter has one.
  unfoldable pub finish : Stage
  finish result w =
      let (r, w') = perform pacs_finish_cycle env.finish_cycle w in ((result, ending_of r), w')

  unfoldable pub last_phases : Config → Snapshot → Stage
  last_phases cfg snapshot =
      run_phase (AgToLocal.run env snapshot) (λ n r. record r { ag_to_pacs = n })
        (run_phase (Retries.run env cfg snapshot) (λ n r. record r { retried = n })
          (run_phase (FieldChanges.run env snapshot) (λ n r. record r { field_updates = n })
            finish))

  unfoldable pub middle_phases : Config → Snapshot → Stage
  middle_phases cfg snapshot =
      run_phase (LocalToAg.run env snapshot) (λ n r. record r { status_changes = n })
        (run_phase (Deletions.run env snapshot) (λ n r. record r { deleted = n })
          (unless_superseded (last_phases cfg snapshot)))

  unfoldable pub run_phases : Config → Snapshot → Stage
  run_phases cfg snapshot =
      run_phase (Provision.run env cfg Provision.max_provisions_per_cycle snapshot)
        (λ n r. record r { provisioned = n }) (unless_superseded (middle_phases cfg snapshot))

abbrev pub with_error : String → Bool → CycleResult → CycleResult
with_error error counts result = record result { error = some error; counts_as_failure = counts }

-- `_handle_auth_expired`, but for the mail
unfoldable pub handle_auth_expired :
    String → EngineStatus → CycleResult → CycleResult × EngineStatus
handle_auth_expired text s result = (
  with_error (str_append "pacs_auth_expired: " text) false result,
  record s { reconnect_required = true; pacs_reachable = false },
)

-- The handlers round the phases, and `_abandon`.
unfoldable pub close_cycle : Ending → EngineStatus → CycleResult → CycleResult × EngineStatus
close_cycle finished s result = (result, s)
close_cycle abandoned s result = (with_error "superseded" false result, s)
close_cycle (failed (auth_expired text)) s result = handle_auth_expired text s result
close_cycle (failed e) s result = (with_error (str_append "phase: " (message e)) true result, s)

-- The handlers round the snapshot.
unfoldable pub snapshot_failed : Exn → EngineStatus → CycleResult → CycleResult × EngineStatus
snapshot_failed (auth_expired text) s result = handle_auth_expired text s result
snapshot_failed e s result = (
  with_error (str_append "snapshot: " (message e)) true result,
  record s { pacs_reachable = false },
)

-- What a snapshot says of the two systems.
unfoldable pub snapshot_status : ℕ → Snapshot → EngineStatus → EngineStatus
snapshot_status now snapshot s = record s {
  pacs_reachable = not (is_nil snapshot.people);
  ag_reachable = true;
  reconnect_required = false;
  last_pacs_read = if is_nil snapshot.people then s.last_pacs_read else some now;
}

abbrev pub empty_result : CycleResult
empty_result = record {
  duration_ms = 0;
  provisioned = 0;
  status_changes = 0;
  deleted = 0;
  ag_to_pacs = 0;
  retried = 0;
  field_updates = 0;
  error = none;
  counts_as_failure = true;
}

abbrev pub Outcome : Type 0
Outcome = (CycleResult × EngineStatus) × World

-- A cycle's settings: none before the wizard is completed, else the configuration, whether the
-- vendor's mode is that of the card template, and what comes of building the two clients, the
-- second of them with the mode and the pairing that were derived.
pub record Setup : Type 0 where
  pub config : Config
  pub derives_mode : Bool
  pub ag_init : Result (Unit {0})
  pub pacs_init : Option (String × Bool) → Result (Unit {0})

-- The first protocol that is not empty.
unfoldable pub protocol_of : List String → String
protocol_of [] = ""
protocol_of (p ∷ ps) =
    let rest = protocol_of ps in if nonempty (strip p) then lower (strip p) else rest

abbrev is_pair : List String → Bool
is_pair (p ∷ q ∷ ps) = true
is_pair _ = false

-- `template_shape`, from the answer; an exception makes ("", False).
unfoldable pub shape_of : Result (List String) → String × Bool
shape_of (ok protocols) = (protocol_of protocols, is_pair protocols)
shape_of (raised e) = ("", false)

-- A template that cannot be read leaves the integration one that reads only.
unfoldable pub mode_of : String → String
mode_of protocol = if protocol == "seos" then "seos" else "desfire"

module _ (env : Services) where
  abbrev closed : EngineStatus → (CycleResult × Ending) × World → Outcome
  closed s ((result, ending), w) = (close_cycle ending s result, w)

  unfoldable pub on_snapshot : Config → EngineStatus → Result Snapshot → World → Outcome
  on_snapshot cfg s (ok snapshot) w =
      closed (snapshot_status (env.now w) snapshot s) (run_phases env cfg snapshot empty_result w)
  on_snapshot cfg s (raised e) w = (snapshot_failed e s empty_result, w)

  -- The snapshot's cache is empty at the start of each cycle.
  unfoldable pub read_and_run : Config → EngineStatus → World → Outcome
  read_and_run cfg s w =
      let (r, w') = build_snapshot env cfg.template_id (record w { ag_card_detail = [] }) in
      on_snapshot cfg s r w'

  unfoldable pub with_pacs : Config → Result (Unit {0}) → EngineStatus → World → Outcome
  with_pacs cfg (ok _) s w =
      read_and_run cfg
        (record s { pacs_writes_credentials = some env.supports_credential_writeback }) w
  with_pacs cfg (raised e) s w = (
    (
      with_error (str_append "pacs_init: " (message e)) true empty_result,
      record s { pacs_reachable = false },
    ),
    w,
  )

  -- `derived_pacs_params`: the template is read in each cycle of a vendor that asks for it.
  unfoldable pub derived_params : Setup → World → Option (String × Bool) × World
  derived_params setup w =
      if setup.derives_mode
      then (let (r, w') =
            perform (ag_read_template setup.config.template_id)
              (λ u. env.read_template u setup.config.template_id) w in
          (some (mode_of (shape_of r).0, (shape_of r).1), w'))
      else (none, w)

  unfoldable pub with_ag : Setup → Result (Unit {0}) → EngineStatus → World → Outcome
  with_ag setup (ok _) s w =
      let (shape, w') = derived_params setup w in
      with_pacs setup.config (setup.pacs_init shape) s w'
  with_ag setup (raised e) s w = (
    (
      with_error (str_append "ag_init: " (message e)) true empty_result,
      record s { ag_reachable = false },
    ),
    w,
  )

  unfoldable pub run_one_cycle : Option Setup → EngineStatus → World → Outcome
  run_one_cycle none s w = ((with_error "not_configured" true empty_result, s), w)
  run_one_cycle (some setup) s w = with_ag setup setup.ag_init s w

  -- `int((time.time() - start_ms) * 1000)`, from the clock's microseconds.
  unfoldable pub timed : World → Outcome → Outcome
  timed start ((result, s), w) =
      ((record result { duration_ms = (env.now w - env.now start) / 1000 }, s), w)

  abbrev settle : Outcome → EngineStatus × World
  settle ((result, s), w) = (after_cycle s result, w)

  -- One turn of the loop: a tripped engine waits, any other runs a cycle.
  unfoldable pub turn : Option Setup → Bool → EngineStatus → World → EngineStatus × World
  turn setup triggered s w =
      if is_tripped s
      then (wait_paused triggered s, w)
      else settle (timed w (run_one_cycle setup s w))
