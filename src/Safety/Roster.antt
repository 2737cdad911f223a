-- ===== src/Safety/Roster.antt =====
-- A cycle that cannot list the people of the PACS (src/agsync/sync/engine.py).
use integration_hub.Prelude.{
  ◌≡◌, refl, ap, ◌∙◌, true, false, Option, some, List, [], ◌∷◌, arith, not, ◌||◌, inl, inr, String,
  Bool, Bool-cases, is_some, if◌then◌else◌,
}
use integration_hub.World.{
  Services, World, Exn, auth_expired, ok, is_ok, raised, Event, event_at, pacs_list_people,
  ag_read_template, perform, ◌>>=◌,
}
use integration_hub.Snapshot.Build.{build_snapshot}
use integration_hub.Engine.{EngineStatus}
use integration_hub.Engine.Cycle.{
  Setup, Outcome, on_snapshot, snapshot_failed, handle_auth_expired, read_and_run, with_pacs,
  derived_params, with_ag, run_one_cycle,
}

-- The history once the card template has been read, by a vendor whose mode comes from it.
abbrev pub shape_read : Services → Setup → World → List Event
shape_read env setup w =
    let id = setup.config.template_id in
    if setup.derives_mode
    then event_at w (ag_read_template id) (is_ok (env.read_template w id)) ∷ w.history
    else w.history

-- Where a cycle begins to read the snapshot: its cache is empty.
abbrev pub start : Services → Setup → World → World
start env setup w = record w { ag_card_detail = []; history = shape_read env setup w }

derived_params-start :
    (env : Services) (setup : Setup) (w : World)
    → record (derived_params env setup w).1 { ag_card_detail = [] } ≡ start env setup w
unfolding derived_params perform
derived_params-start env setup w = elim (Bool-cases setup.derives_mode) [
  | inl e ↦ rw e refl
  | inr e ↦ rw e refl
]

abbrev pub is_auth_expired : Exn → Bool
is_auth_expired (auth_expired text) = true
is_auth_expired _ = false

-- What became of a cycle that could not list the people for the reason `e`.
pub record IsUnread (env : Services) (setup : Setup) (s : EngineStatus) (w : World) (e : Exn)
    : Type 0 where
  pub calls :
      (run_one_cycle env (some setup) s w).1.history
      ≡ event_at (start env setup w) pacs_list_people false ∷ shape_read env setup w
  pub same_rows : (run_one_cycle env (some setup) s w).1.rows ≡ w.rows
  pub same_size : (run_one_cycle env (some setup) s w).1.last_complete ≡ w.last_complete
  pub unreachable : (run_one_cycle env (some setup) s w).0.1.pacs_reachable ≡ false
  pub counted : (run_one_cycle env (some setup) s w).0.0.counts_as_failure ≡ not (is_auth_expired e)
  pub reconnect :
      (run_one_cycle env (some setup) s w).0.1.reconnect_required
      ≡ (is_auth_expired e || s.reconnect_required)
  pub failed : is_some (run_one_cycle env (some setup) s w).0.0.error ≡ true

-- The status in which the snapshot is read.
abbrev reading : Services → EngineStatus → EngineStatus
reading env s = record s { pacs_writes_credentials = some env.supports_credential_writeback }

abbrev from_snapshot : Services → Setup → EngineStatus → World → Outcome
from_snapshot env setup s w =
    let (r, w') = build_snapshot env setup.config.template_id w in
    on_snapshot env setup.config (reading env s) r w'

-- With both clients built, a cycle is what comes of reading the snapshot from `start`.
run_one_cycle-reads :
    (env : Services) (setup : Setup) (s : EngineStatus) (w : World)
    → setup.ag_init ≡ ok tt
    → setup.pacs_init (derived_params env setup w).0 ≡ ok tt
    → run_one_cycle env (some setup) s w ≡ from_snapshot env setup s (start env setup w)
unfolding run_one_cycle with_ag with_pacs read_and_run
run_one_cycle-reads env setup s w ag pacs =
    ap (λ r. with_ag env setup r s w) ag
    ∙ ap (λ r. with_pacs env setup.config r s (derived_params env setup w).1) pacs
    ∙ ap (from_snapshot env setup s) (derived_params-start env setup w)

-- If both clients are built and listing the people raises, whatever it raises, then the cycle makes
-- that call, before it the read of the card template where the vendor's mode comes from that, and no
-- other; the tracking table and the size of the last complete read stay as
-- they were; the cycle ends with an error and the PACS is marked as not reachable. An expired
-- session asks for a person to reconnect and is not counted as a failure; any other exception is.
pub run_one_cycle-IsUnread :
    (env : Services) (setup : Setup) (s : EngineStatus) (w : World) (e : Exn)
    → setup.ag_init ≡ ok tt
    → ((shape : Option (String × Bool)) → setup.pacs_init shape ≡ ok tt)
    → env.list_people (start env setup w) ≡ raised e
    → IsUnread env setup s w e
unfolding build_snapshot on_snapshot snapshot_failed handle_auth_expired ◌>>=◌
run_one_cycle-IsUnread env setup s w e ag pacs h =
    let reads = run_one_cycle-reads env setup s w ag (pacs (derived_params env setup w).0) in
    ground (arith, reads, h)
