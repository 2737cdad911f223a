-- ===== src/Snapshot/Build.antt =====
-- `build_snapshot` of src/agsync/sync/snapshot.py.
pub mod Calls
use integration_hub.Prelude.{
  String, not, string_eq, pair_eq, Option, none, some, List, [], ◌∷◌, lookup, insert, append_at,
  either, text_of, nonempty, if◌then◌else◌,
}
use integration_hub.Pacs.{Person}
use integration_hub.AccessGrid.{Card, card_id}
use integration_hub.World.{
  Services, Exec, pacs_list_people, pacs_list_credentials, ag_list, pure, perform, try_any, ◌>>=◌,
}
use integration_hub.Snapshot.{Snapshot}

unfoldable pub empty_snapshot : Snapshot
empty_snapshot = record {
  people = [];
  credentials_by_person = [];
  ag_cards_by_employee = [];
  ag_cards_by_token = [];
  ag_card_by_id = [];
  ag_cards_by_sync_ref = [];
  ag_cards_by_site_card = [];
}

-- `for person in pacs.list_people(): snap.people[person.id] = person`
unfoldable pub add_people : List Person → Snapshot → Snapshot
add_people [] snap = snap
add_people (person ∷ rest) snap =
    add_people rest (record snap { people = insert person.id person snap.people })

-- The card under its sync reference.
unfoldable pub add_by_ref : Card → Snapshot → Snapshot
add_by_ref card snap =
    let ref = text_of (lookup "sync_ref" card.metadata) in
    if nonempty ref
    then record snap { ag_cards_by_sync_ref = append_at ref card snap.ag_cards_by_sync_ref }
    else snap

-- The card under its employee, and under the employee and the PACS credential.
unfoldable pub add_by_employee : Card → Snapshot → Snapshot
add_by_employee card snap =
    let emp = text_of (lookup "employee_id" card.attrs) in
    let token =
      either (text_of (lookup "pacs_credential_id" card.metadata))
        (text_of (lookup "avigilon_token_id" card.metadata)) in
    let by_employee = record snap {
      ag_cards_by_employee = append_at emp card snap.ag_cards_by_employee;
    } in
    if nonempty emp
    then (if nonempty token
        then record by_employee {
          ag_cards_by_token = append_at (emp, token) card snap.ag_cards_by_token;
        }
        else by_employee)
    else snap

unfoldable pub site_card_entry : Card → Option String → Option String → Snapshot → Snapshot
site_card_entry card (some site) (some card_no) snap = record snap {
  ag_cards_by_site_card = insert (site, card_no) card snap.ag_cards_by_site_card;
}
site_card_entry card _ _ snap = snap

-- The card under its id. A listed card has one; a card that had none would be filed under `None`,
-- which no lookup names.
unfoldable pub add_by_id : Card → Option String → Snapshot → Snapshot
add_by_id card none snap = snap
add_by_id card (some id) snap = record snap { ag_card_by_id = insert id card snap.ag_card_by_id }

-- The body of `for card in cards`.
unfoldable pub add_card : Card → Snapshot → Snapshot
add_card card snap =
    site_card_entry card (lookup "site_code" card.metadata) (lookup "card_number" card.metadata)
      (add_by_employee card (add_by_ref card (add_by_id card (card_id card) snap)))

unfoldable pub add_cards : List Card → Snapshot → Snapshot
add_cards [] snap = snap
add_cards (card ∷ cards) snap = add_cards cards (add_card card snap)

module _ (env : Services) where
  -- The body of `for pid, person in snap.people.items()`: an inactive person has no credentials,
  -- and one whose record could not be read has no entry at all.
  unfoldable pub add_credentials : Person → String → Snapshot → Exec Snapshot
  add_credentials person pid snap =
      if not person.active
      then pure (record snap { credentials_by_person = insert pid [] snap.credentials_by_person })
      else (try_any
          (do
            creds ← perform (pacs_list_credentials pid) (λ w. env.list_credentials w pid)
            pure (record snap {
              credentials_by_person = insert pid creds snap.credentials_by_person;
            }))
          (λ _. pure snap))

  unfoldable pub add_all_credentials : List (String × Person) → Snapshot → Exec Snapshot
  add_all_credentials [] snap = pure snap
  add_all_credentials ((pid, person) ∷ rest) snap = do
    next ← add_credentials person pid snap
    add_all_credentials rest next

  -- A failed listing of the cards reads as no cards; a failed listing of the people ends the cycle.
  unfoldable pub build_snapshot : String → Exec Snapshot
  build_snapshot template_id = do
    people ← perform pacs_list_people env.list_people
    let listed = add_people people empty_snapshot
    read ← add_all_credentials listed.people listed
    cards ←
        try_any (perform (ag_list template_id) (λ w. env.list_cards w template_id)) (λ _. pure [])
    pure (add_cards cards read)
