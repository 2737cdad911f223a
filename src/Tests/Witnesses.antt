-- ===== src/Tests/Witnesses.antt =====
-- The theorems at concrete inputs: the small site, with its person, its credential and its rows.
use integration_hub.Prelude.{◌≡◌, refl, false, some, [], ◌∷◌, count_if, ◌+◌, ◌≤◌, ℕ}
use integration_hub.Tracking
use integration_hub.Tracking.{Row, Table, Upsert, FieldTracking, has_key}
use integration_hub.World.{ok}
use integration_hub.World.Calls.{Adds}
use integration_hub.Phases
use integration_hub.Phases.Deletions.{is_complete, previous_or_0}
use integration_hub.Phases.Retries.{max_retries}
use integration_hub.Engine.{initial_status}
use integration_hub.Engine.Cycle.{run_one_cycle, turn}
use integration_hub.Engine.Breaker.{Reachable, IsSound, Reachable-IsSound}
use integration_hub.Safety.Outage.{HasRun, turns-HasRun_outage, turns-HasRun_signed_out}
use integration_hub.Safety.DryRun.{SparesAg, run_one_cycle-SparesAg}
use integration_hub.Safety.Superseded.{OnlyReads, run_one_cycle-OnlyReads}
use integration_hub.Safety.Roster.{IsUnread, run_one_cycle-IsUnread}
use integration_hub.Phases.FieldChanges.{synced_fields}
use integration_hub.Phases.AgToLocal.{desired_card_status}
use integration_hub.Tests.Data.{
  two_people, issued, orphan, refused, at_work, before_issue, site, dry_site, stale_site,
  signed_out_site, expired_session, config, setup, holding, down_site, refused_connection,
}

provision_run-IsCapped_example :
    (n : ℕ) × ((Phases.Provision.run site config 1 two_people (holding [])).0 ≡ ok n)
    × (n ≤ 1)
    × (n + count_if Phases.Provision.Cap.issued []
        ≡ count_if Phases.Provision.Cap.issued
            (Phases.Provision.run site config 1 two_people (holding [])).1.history)
provision_run-IsCapped_example =
    Phases.Provision.Cap.provision_run-IsCapped site config 1 two_people (holding [])

deletions_run-Licence_example :
    Adds
      (Phases.Deletions.Licence.Licence site at_work 2
        (Tracking.all_tracked (issued ∷ orphan ∷ [])))
      []
      (Phases.Deletions.run site at_work (holding (issued ∷ orphan ∷ []))).1.history
deletions_run-Licence_example =
    Phases.Deletions.Licence.deletions_run-Licence site at_work (holding (issued ∷ orphan ∷ []))

ag_to_local_run-Licence_example :
    Adds
      (Phases.AgToLocal.Licence.Licence site at_work
        (Tracking.all_tracked (record issued { last_known_ag_state = "suspended" } ∷ [])))
      []
      (Phases.AgToLocal.run site at_work
        (holding (record issued { last_known_ag_state = "suspended" } ∷ []))).1.history
ag_to_local_run-Licence_example =
    Phases.AgToLocal.Licence.ag_to_local_run-Licence site at_work
      (holding (record issued { last_known_ag_state = "suspended" } ∷ []))

retries_run-Licence_example :
    Adds
      (Phases.Retries.Licence.Licence site config before_issue
        (Tracking.failed_records max_retries (refused ∷ [])))
      []
      (Phases.Retries.run site config before_issue (holding (refused ∷ []))).1.history
retries_run-Licence_example =
    Phases.Retries.Licence.retries_run-Licence site config before_issue (holding (refused ∷ []))

field_changes_run-Licence_example :
    Adds
      (Phases.FieldChanges.Licence.Licence site at_work (Tracking.all_tracked (issued ∷ [])))
      []
      (Phases.FieldChanges.run site at_work (holding (issued ∷ []))).1.history
field_changes_run-Licence_example =
    Phases.FieldChanges.Licence.field_changes_run-Licence site at_work (holding (issued ∷ []))

run_one_cycle-SparesAg_example :
    Adds SparesAg []
      (run_one_cycle dry_site
        (some setup)
        initial_status
        (holding (issued ∷ orphan ∷ []))).1.history
run_one_cycle-SparesAg_example =
    run_one_cycle-SparesAg dry_site (λ w. refl) (some setup) initial_status
      (holding (issued ∷ orphan ∷ []))

run_one_cycle-OnlyReads_example :
    Adds OnlyReads []
      (run_one_cycle stale_site
        (some setup)
        initial_status
        (holding (issued ∷ orphan ∷ []))).1.history
run_one_cycle-OnlyReads_example =
    run_one_cycle-OnlyReads stale_site (λ w. refl) (some setup) initial_status
      (holding (issued ∷ orphan ∷ []))

run_one_cycle-IsUnread_example :
    IsUnread signed_out_site setup initial_status (holding (issued ∷ [])) expired_session
run_one_cycle-IsUnread_example =
    run_one_cycle-IsUnread signed_out_site setup initial_status (holding (issued ∷ []))
      expired_session refl (λ shape. refl) refl

Reachable-IsSound_example : IsSound (turn site (some setup) false initial_status (holding [])).0
Reachable-IsSound_example =
    Reachable-IsSound (Reachable.turned site (some setup) false (holding []) Reachable.started)

turns-HasRun_outage_example : HasRun down_site setup (holding (issued ∷ [])) 12 10 10
turns-HasRun_outage_example =
    turns-HasRun_outage down_site setup refused_connection refl (λ shape. refl) (λ w. refl) refl
      (holding (issued ∷ [])) 12

turns-HasRun_signed_out_example : HasRun signed_out_site setup (holding (issued ∷ [])) 12 0 12
turns-HasRun_signed_out_example =
    turns-HasRun_signed_out signed_out_site setup expired_session refl (λ shape. refl) (λ w. refl)
      refl (holding (issued ∷ [])) 12
