-- ===== src/Safety/Superseded.antt =====
-- A cycle whose settings have changed since it was started (src/agsync/sync/engine.py).
use integration_hub.Prelude.{◌≡◌, true, false, Bool, Option, refl}
use integration_hub.World.{
  Services, World, Call, pacs_list_people, pacs_list_credentials, ag_list, ag_read_template,
}
use integration_hub.World.Calls.{Adds, Adds-map}
use integration_hub.Snapshot.{Snapshot}
use integration_hub.Phases
use integration_hub.Phases.Params.{Config}
use integration_hub.Engine.{EngineStatus}
use integration_hub.Engine.Cycle.{Setup, run_one_cycle}
use integration_hub.Engine.Cycle.Calls.{Saw, Parts, run_one_cycle-at}

-- The reads that a cycle begins with: of the card template, and those that build a snapshot.
abbrev pub reads_snapshot : Call → Bool
reads_snapshot pacs_list_people = true
reads_snapshot (pacs_list_credentials pid) = true
reads_snapshot (ag_list template) = true
reads_snapshot (ag_read_template template) = true
reads_snapshot _ = false

abbrev pub OnlyReads : World → Call → Type 0
OnlyReads u c = reads_snapshot c ≡ true

module _ (env : Services) (stale : (w : World) → env.superseded w ≡ true) where
  never_current : ¬ Saw env.superseded false
  never_current saw = cc (saw.said, stale saw.state)

  provision-OnlyReads :
      (cfg : Config) (snapshot : Snapshot) (u : World) (c : Call)
      → Phases.Provision.Licence.Licence env cfg snapshot u c
      → reads_snapshot c ≡ true
  provision-OnlyReads cfg snapshot u c l =
      absurd (never_current (record { state = l.1.state; said = l.1.said }))

  read_only : Parts env OnlyReads
  read_only = record {
    people = λ a. refl;
    credentials = λ pid a. refl;
    cards = λ template a. refl;
    shape = λ template a. refl;
    provision = λ cfg snapshot. record {
      at = λ w.
          Adds-map (provision-OnlyReads cfg snapshot)
            (Phases.Provision.Licence.provision_run-Licence env cfg _ snapshot w);
    };
    local_to_ag = λ saw. absurd (never_current saw);
    deletions = λ saw. absurd (never_current saw);
    ag_to_local = λ saw. absurd (never_current saw);
    retries = λ saw. absurd (never_current saw);
    field_changes = λ saw. absurd (never_current saw);
    closing = λ saw. absurd (never_current saw);
  }

-- If the settings always read as changed, then a cycle makes no call but the read of the card
-- template and the three reads of its snapshot: it issues, changes, deletes and releases nothing in either system.
pub run_one_cycle-OnlyReads :
    (env : Services) (stale : (w : World) → env.superseded w ≡ true) (setup : Option Setup)
    (s : EngineStatus) (w : World)
    → Adds OnlyReads w.history (run_one_cycle env setup s w).1.history
run_one_cycle-OnlyReads env stale = run_one_cycle-at env (read_only env stale)
