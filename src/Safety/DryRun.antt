-- ===== src/Safety/DryRun.antt =====
-- A cycle and the dry-run switch (src/agsync/dryrun.py, src/agsync/sync/engine.py).
use integration_hub.Prelude.{◌≡◌, refl, ℕ, Bool, true, false, Option, List}
use integration_hub.Tracking.{Row}
use integration_hub.World.{
  Services, World, Call, ag_provision, ag_delete, ag_suspend, ag_resume, ag_update,
}
use integration_hub.World.Calls.{Adds, Adds-map}
use integration_hub.Snapshot.{Snapshot}
use integration_hub.Phases
use integration_hub.Phases.Params.{Config}
use integration_hub.Engine.{EngineStatus}
use integration_hub.Engine.Cycle.{Setup, run_one_cycle}
use integration_hub.Engine.Cycle.Calls.{Parts, run_one_cycle-at}

-- The calls that change something in AccessGrid.
abbrev pub mutates_ag : Call → Bool
mutates_ag (ag_provision params) = true
mutates_ag (ag_delete id) = true
mutates_ag (ag_suspend id) = true
mutates_ag (ag_resume id) = true
mutates_ag (ag_update id changes) = true
mutates_ag _ = false

abbrev pub SparesAg : World → Call → Type 0
SparesAg u c = mutates_ag c ≡ false

module _ (env : Services) (dry : (w : World) → env.dry_run w ≡ true) where
  never_live : (u : World) → ¬ (env.dry_run u ≡ false)
  never_live u live = cc (live, dry u)

  provision-SparesAg :
      (cfg : Config) (snapshot : Snapshot) (u : World) (c : Call)
      → Phases.Provision.Licence.Licence env cfg snapshot u c
      → mutates_ag c ≡ false
  provision-SparesAg cfg snapshot u (ag_provision params) l = absurd (never_live _ l.0.2.due.live)
  provision-SparesAg cfg snapshot u (ag_delete id) l = absurd l.0
  provision-SparesAg cfg snapshot u (ag_suspend id) l = absurd l.0
  provision-SparesAg cfg snapshot u (ag_resume id) l = absurd l.0
  provision-SparesAg cfg snapshot u (ag_update id changes) l = absurd l.0
  provision-SparesAg cfg snapshot u _ l = refl

  local_to_ag-SparesAg :
      (snapshot : Snapshot) (rows : List Row) (u : World) (c : Call)
      → Phases.LocalToAg.Licence.Licence env snapshot rows u c
      → mutates_ag c ≡ false
  local_to_ag-SparesAg snapshot rows u (ag_provision params) l = absurd l
  local_to_ag-SparesAg snapshot rows u (ag_delete id) l = absurd (never_live u l.0)
  local_to_ag-SparesAg snapshot rows u (ag_suspend id) l = absurd (never_live u l.0)
  local_to_ag-SparesAg snapshot rows u (ag_resume id) l = absurd (never_live u l.0)
  local_to_ag-SparesAg snapshot rows u (ag_update id changes) l = absurd l
  local_to_ag-SparesAg snapshot rows u _ l = refl

  deletions-SparesAg :
      (snapshot : Snapshot) (previous : ℕ) (rows : List Row) (u : World) (c : Call)
      → Phases.Deletions.Licence.Licence env snapshot previous rows u c
      → mutates_ag c ≡ false
  deletions-SparesAg snapshot previous rows u (ag_provision params) l = absurd l
  deletions-SparesAg snapshot previous rows u (ag_delete id) l = absurd (never_live u l.0)
  deletions-SparesAg snapshot previous rows u (ag_suspend id) l = absurd l
  deletions-SparesAg snapshot previous rows u (ag_resume id) l = absurd l
  deletions-SparesAg snapshot previous rows u (ag_update id changes) l = absurd l
  deletions-SparesAg snapshot previous rows u _ l = refl

  ag_to_local-SparesAg :
      (snapshot : Snapshot) (rows : List Row) (u : World) (c : Call)
      → Phases.AgToLocal.Licence.Licence env snapshot rows u c
      → mutates_ag c ≡ false
  ag_to_local-SparesAg snapshot rows u (ag_provision params) l = absurd l
  ag_to_local-SparesAg snapshot rows u (ag_delete id) l = absurd l
  ag_to_local-SparesAg snapshot rows u (ag_suspend id) l = absurd l
  ag_to_local-SparesAg snapshot rows u (ag_resume id) l = absurd l
  ag_to_local-SparesAg snapshot rows u (ag_update id changes) l = absurd l
  ag_to_local-SparesAg snapshot rows u _ l = refl

  retries-SparesAg :
      (cfg : Config) (snapshot : Snapshot) (rows : List Row) (u : World) (c : Call)
      → Phases.Retries.Licence.Licence env cfg snapshot rows u c
      → mutates_ag c ≡ false
  retries-SparesAg cfg snapshot rows u (ag_provision params) l = absurd (never_live _ l.3.live)
  retries-SparesAg cfg snapshot rows u (ag_delete id) l = absurd l
  retries-SparesAg cfg snapshot rows u (ag_suspend id) l = absurd l
  retries-SparesAg cfg snapshot rows u (ag_resume id) l = absurd l
  retries-SparesAg cfg snapshot rows u (ag_update id changes) l = absurd l
  retries-SparesAg cfg snapshot rows u _ l = refl

  field_changes-SparesAg :
      (snapshot : Snapshot) (rows : List Row) (u : World) (c : Call)
      → Phases.FieldChanges.Licence.Licence env snapshot rows u c
      → mutates_ag c ≡ false
  field_changes-SparesAg snapshot rows u (ag_provision params) l = absurd l
  field_changes-SparesAg snapshot rows u (ag_delete id) l = absurd l
  field_changes-SparesAg snapshot rows u (ag_suspend id) l = absurd l
  field_changes-SparesAg snapshot rows u (ag_resume id) l = absurd l
  field_changes-SparesAg snapshot rows u (ag_update id changes) l = absurd (never_live u l.0)
  field_changes-SparesAg snapshot rows u _ l = refl

  spared : Parts env SparesAg
  spared = record {
    people = λ a. refl;
    credentials = λ pid a. refl;
    cards = λ template a. refl;
    shape = λ template a. refl;
    provision = λ cfg snapshot. record {
      at = λ w.
          Adds-map (provision-SparesAg cfg snapshot)
            (Phases.Provision.Licence.provision_run-Licence env cfg _ snapshot w);
    };
    local_to_ag = λ _ snapshot. record {
      at = λ w.
          Adds-map (local_to_ag-SparesAg snapshot _)
            (Phases.LocalToAg.Licence.local_to_ag_run-Licence env snapshot w);
    };
    deletions = λ _ snapshot. record {
      at = λ w.
          Adds-map (deletions-SparesAg snapshot _ _)
            (Phases.Deletions.Licence.deletions_run-Licence env snapshot w);
    };
    ag_to_local = λ _ snapshot. record {
      at = λ w.
          Adds-map (ag_to_local-SparesAg snapshot _)
            (Phases.AgToLocal.Licence.ag_to_local_run-Licence env snapshot w);
    };
    retries = λ _ cfg snapshot. record {
      at = λ w.
          Adds-map (retries-SparesAg cfg snapshot _)
            (Phases.Retries.Licence.retries_run-Licence env cfg snapshot w);
    };
    field_changes = λ _ snapshot. record {
      at = λ w.
          Adds-map (field_changes-SparesAg snapshot _)
            (Phases.FieldChanges.Licence.field_changes_run-Licence env snapshot w);
    };
    closing = λ _ a. refl;
  }

-- If the dry-run switch always reads as on, then a whole cycle, whatever its settings, the state
-- it starts from and the answers of the services, adds to the history no call that provisions,
-- deletes, suspends, resumes or updates a pass in AccessGrid.
pub run_one_cycle-SparesAg :
    (env : Services) (dry : (w : World) → env.dry_run w ≡ true) (setup : Option Setup)
    (s : EngineStatus) (w : World)
    → Adds SparesAg w.history (run_one_cycle env setup s w).1.history
run_one_cycle-SparesAg env dry = run_one_cycle-at env (spared env dry)
