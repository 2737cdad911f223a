-- ===== src/Engine/Cycle/Calls.antt =====
-- The calls of a cycle, from those of its snapshot and of its phases (src/agsync/sync/engine.py).
use integration_hub.Prelude.{
  ℕ, ◌≡◌, refl, Bool, true, false, String, Option, none, some, if◌then◌else◌, inl, inr, Bool-cases,
}
use integration_hub.World.{
  Services, World, Call, Result, ok, raised, Exec, pacs_list_people, pacs_list_credentials, ag_list,
  ag_read_template, pacs_finish_cycle,
}
use integration_hub.World.Calls.{Adds, none_added, Adds-trans, Only, Only-perform}
use integration_hub.Snapshot.{Snapshot}
use integration_hub.Snapshot.Build.Calls.{build_snapshot-Only}
use integration_hub.Phases.Params.{Config}
use integration_hub.Phases.Provision
use integration_hub.Phases.LocalToAg
use integration_hub.Phases.Deletions
use integration_hub.Phases.AgToLocal
use integration_hub.Phases.Retries
use integration_hub.Phases.FieldChanges
use integration_hub.Engine.{CycleResult, EngineStatus}
use integration_hub.Engine.Cycle.{
  Stage, after_phase, run_phase, unless_superseded, finish, last_phases, middle_phases, run_phases,
  on_snapshot, read_and_run, with_pacs, derived_params, with_ag, run_one_cycle, Setup, Ending,
}

-- A stage adds only events that satisfy `J`.
pub record OnlyStage (J : World → Call → Type 0) (stage : Stage) : Type 0 where
  pub at : (result : CycleResult) (w : World) → Adds J w.history (stage result w).1.history

module _ {J : World → Call → Type 0} where
  after_phase-at :
      (set : ℕ → CycleResult → CycleResult) (next : Stage)
      → OnlyStage J next
      → (r : Result ℕ) (result : CycleResult) (w : World)
      → Adds J w.history (after_phase set next r result w).1.history
  after_phase-at set next k (ok n) result w = k.at (set n result) w
  after_phase-at set next k (raised e) result w = none_added

  pub run_phase-Only :
      (phase : Exec ℕ) (set : ℕ → CycleResult → CycleResult) (next : Stage)
      → Only J phase
      → OnlyStage J next
      → OnlyStage J (run_phase phase set next)
  unfolding run_phase
  run_phase-Only phase set next kp kn = record {
    at = λ result w.
        Adds-trans (kp.at w) (after_phase-at set next kn (phase w).0 result (phase w).1);
  }

-- Some state in which a test was made, and what it said.
pub record Saw (test : World → Bool) (answer : Bool) : Type 0 where
  pub state : World
  pub said : test state ≡ answer

-- What the parts of a cycle may call; the phases behind a check of the settings may use that the
-- check has passed.
pub record Parts (env : Services) (J : World → Call → Type 0) : Type 0 where
  pub people : (w : World) → J w pacs_list_people
  pub credentials : (pid : String) (w : World) → J w (pacs_list_credentials pid)
  pub cards : (template : String) (w : World) → J w (ag_list template)
  pub shape : (template : String) (w : World) → J w (ag_read_template template)
  pub provision :
      (cfg : Config) (snapshot : Snapshot)
      → Only J (Provision.run env cfg Provision.max_provisions_per_cycle snapshot)
  pub local_to_ag :
      Saw env.superseded false → (snapshot : Snapshot) → Only J (LocalToAg.run env snapshot)
  pub deletions :
      Saw env.superseded false → (snapshot : Snapshot) → Only J (Deletions.run env snapshot)
  pub ag_to_local :
      Saw env.superseded false → (snapshot : Snapshot) → Only J (AgToLocal.run env snapshot)
  pub retries :
      Saw env.superseded false
      → (cfg : Config) (snapshot : Snapshot) → Only J (Retries.run env cfg snapshot)
  pub field_changes :
      Saw env.superseded false → (snapshot : Snapshot) → Only J (FieldChanges.run env snapshot)
  pub closing : Saw env.superseded false → (w : World) → J w pacs_finish_cycle

module _ (env : Services) {J : World → Call → Type 0} (parts : Parts env J) where
  unless_superseded-Only :
      (next : Stage)
      → (Saw env.superseded false → OnlyStage J next)
      → OnlyStage J (unless_superseded env next)
  unfolding unless_superseded
  unless_superseded-Only next k = record {
    at = λ result w. by_check result w (env.superseded w) refl;
  }
    where
      by_check :
          (result : CycleResult) (w : World) (b : Bool)
          → env.superseded w ≡ b
          → Adds J w.history
              (if b then ((result, Ending.abandoned), w) else next result w).1.history
      by_check result w true e = none_added
      by_check result w false e = (k (record { state = w; said = e })).at result w

  finish-Only : Saw env.superseded false → OnlyStage J (finish env)
  unfolding finish
  finish-Only saw = record {
    at = λ result w. (Only-perform pacs_finish_cycle env.finish_cycle (parts.closing saw)).at w;
  }

  run_phases-Only : (cfg : Config) (snapshot : Snapshot) → OnlyStage J (run_phases env cfg snapshot)
  unfolding run_phases middle_phases last_phases
  run_phases-Only cfg snapshot = run_phase-Only _ _ _ (parts.provision cfg snapshot) (
      unless_superseded-Only _ λ saw. run_phase-Only _ _ _ (parts.local_to_ag saw snapshot) (
        run_phase-Only _ _ _ (parts.deletions saw snapshot) (
          unless_superseded-Only _ λ saw. run_phase-Only _ _ _ (parts.ag_to_local saw snapshot) (
            run_phase-Only _ _ _ (parts.retries saw cfg snapshot)
              (run_phase-Only _ _ _ (parts.field_changes saw snapshot) (finish-Only saw))))))

  on_snapshot-at :
      (cfg : Config) (s : EngineStatus) (r : Result Snapshot) (w : World)
      → Adds J w.history (on_snapshot env cfg s r w).1.history
  unfolding on_snapshot
  on_snapshot-at cfg s (ok snapshot) w = (run_phases-Only cfg snapshot).at _ w
  on_snapshot-at cfg s (raised e) w = none_added

  read_and_run-at :
      (cfg : Config) (s : EngineStatus) (w : World)
      → Adds J w.history (read_and_run env cfg s w).1.history
  unfolding read_and_run
  read_and_run-at cfg s w =
      Adds-trans
        ((build_snapshot-Only env parts.people parts.credentials parts.cards cfg.template_id).at _)
        (on_snapshot-at cfg s _ _)

  with_pacs-at :
      (cfg : Config) (r : Result (Unit {0})) (s : EngineStatus) (w : World)
      → Adds J w.history (with_pacs env cfg r s w).1.history
  unfolding with_pacs
  with_pacs-at cfg (ok _) s w = read_and_run-at cfg _ w
  with_pacs-at cfg (raised e) s w = none_added

  derived_params-at :
      (setup : Setup) (w : World) → Adds J w.history (derived_params env setup w).1.history
  unfolding derived_params
  derived_params-at setup w = elim (Bool-cases setup.derives_mode) [
    | inl e ↦ rw e (
        (Only-perform (ag_read_template setup.config.template_id)
            (λ u. env.read_template u setup.config.template_id)
            (parts.shape setup.config.template_id)).at
          w)
    | inr e ↦ rw e none_added
  ]

  with_ag-at :
      (setup : Setup) (r : Result (Unit {0})) (s : EngineStatus) (w : World)
      → Adds J w.history (with_ag env setup r s w).1.history
  unfolding with_ag
  with_ag-at setup (ok _) s w =
      Adds-trans (derived_params-at setup w) (with_pacs-at setup.config _ s _)
  with_ag-at setup (raised e) s w = none_added

  pub run_one_cycle-at :
      (setup : Option Setup) (s : EngineStatus) (w : World)
      → Adds J w.history (run_one_cycle env setup s w).1.history
  unfolding run_one_cycle
  run_one_cycle-at none s w = none_added
  run_one_cycle-at (some setup) s w = with_ag-at setup setup.ag_init s w
