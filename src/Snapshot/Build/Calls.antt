-- ===== src/Snapshot/Build/Calls.antt =====
-- The calls of `build_snapshot` (src/agsync/sync/snapshot.py).
use integration_hub.Prelude.{String, List, [], ◌∷◌}
use integration_hub.Pacs.{Person}
use integration_hub.World.{Services, World, Call, pacs_list_people, pacs_list_credentials, ag_list}
use integration_hub.World.Calls.{Only, Only-pure, Only-perform, Only-try_any, Only-bind, only_rules}
use integration_hub.Snapshot.{Snapshot}
use integration_hub.Snapshot.Build.{add_credentials, add_all_credentials, build_snapshot}

module _ (env : Services) {J : World → Call → Type 0} (people : (w : World) → J w pacs_list_people)
    (credentials : (pid : String) (w : World) → J w (pacs_list_credentials pid))
    (cards : (template : String) (w : World) → J w (ag_list template)) where
  add_credentials-Only :
      (person : Person) (pid : String) (snap : Snapshot)
      → Only J (add_credentials env person pid snap)
  unfolding add_credentials
  add_credentials-Only person pid snap = search (only_rules, credentials) depth 8

  add_all_credentials-Only :
      (all : List (String × Person)) (snap : Snapshot) → Only J (add_all_credentials env all snap)
  unfolding add_all_credentials
  add_all_credentials-Only [] snap = Only-pure snap
  add_all_credentials-Only ((pid, person) ∷ rest) snap =
      Only-bind _ _ (add_credentials-Only person pid snap) (add_all_credentials-Only rest)

  pub build_snapshot-Only : (template : String) → Only J (build_snapshot env template)
  unfolding build_snapshot
  build_snapshot-Only template = Only-bind _ _ (Only-perform _ _ people) λ all.
      Only-bind _ _ (add_all_credentials-Only _ _) λ read.
        Only-bind _ _ (Only-try_any _ _ (Only-perform _ _ (cards template)) (λ _. Only-pure []))
          (λ listed. Only-pure _)
