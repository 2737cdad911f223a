-- ===== src/Snapshot.antt =====
-- The view of both systems that one cycle works from (src/agsync/sync/snapshot.py).
pub mod Build
pub mod Resolve
pub mod Reads
use integration_hub.Prelude.{
  String, Bool, not, ◌&&◌, ◌==◌, string_eq, pair_eq, Option, none, some, List, [], ◌∷◌, lookup,
  insert, lookup_list, find, is_nil, nonempty, if◌then◌else◌,
}
use integration_hub.Pacs.{Person, Credential}
use integration_hub.AccessGrid.{Card, card_id}
use integration_hub.Tracking.{Row}
use integration_hub.World.{
  Services, World, Exec, ok, ag_get, pure, gets, perform, try_any, ◌>>=◌, ◌>>◌,
}

-- `Snapshot`, without the cache of cards that are read again, which is part of the world.
pub record Snapshot : Type 0 where
  pub people : List (String × Person)
  pub credentials_by_person : List (String × List Credential)
  pub ag_cards_by_employee : List (String × List Card)
  pub ag_cards_by_token : List ((String × String) × List Card)
  pub ag_card_by_id : List (String × Card)
  pub ag_cards_by_sync_ref : List (String × List Card)
  pub ag_cards_by_site_card : List ((String × String) × Card)

-- `snapshot.people.get(tracked.pacs_person_id)`
unfoldable pub person_of : Snapshot → Row → Option Person
person_of snapshot tracked = lookup tracked.pacs_person_id snapshot.people

-- `next((c for c in creds if c.id == tracked.pacs_credential_id), None)`
unfoldable pub credential_of : Snapshot → Row → Option Credential
credential_of snapshot tracked =
    find (λ c. c.id == tracked.pacs_credential_id)
      (lookup_list tracked.pacs_person_id snapshot.credentials_by_person)

-- The last index: the person and the credential together.
unfoldable pub cards_by_token : Snapshot → String → String → List Card
cards_by_token snapshot person_id credential_id =
    if nonempty person_id && nonempty credential_id
    then lookup_list (person_id, credential_id) snapshot.ag_cards_by_token
    else []

unfoldable pub card_by_id : Snapshot → Option String → Option Card
card_by_id snapshot none = none
card_by_id snapshot (some id) = if nonempty id then lookup id snapshot.ag_card_by_id else none

unfoldable pub resolve_ag_cards : Snapshot → Option String → String → String → String → List Card
resolve_ag_cards snapshot ag_card_id person_id credential_id sync_ref =
    let by_ref = lookup_list sync_ref snapshot.ag_cards_by_sync_ref in
    if nonempty sync_ref && not (is_nil by_ref)
    then by_ref
    else elim (card_by_id snapshot ag_card_id) [
      | some card ↦ card ∷ []
      | none ↦ if nonempty sync_ref then [] else cards_by_token snapshot person_id credential_id
    ]

unfoldable pub resolve_ag_card : Snapshot → Option String → String → String → String → Option Card
resolve_ag_card snapshot ag_card_id person_id credential_id sync_ref =
    elim (resolve_ag_cards snapshot ag_card_id person_id credential_id sync_ref) [
      | [] ↦ none
      | card ∷ cards ↦ some card
    ]

module _ (env : Services) where
  -- `self.ag_card_detail[card_id] = card`
  abbrev store_detail : String → Card → Exec (Unit {0})
  store_detail id card w = (ok tt, record w { ag_card_detail = insert id card w.ag_card_detail })

  -- A card that is not in the cache: read again, and kept as it was where the read fails.
  unfoldable pub read_card : String → Card → Exec Card
  read_card id card = do
    fresh ← try_any (perform (ag_get id) (λ w. env.get_card w id)) (λ _. pure card)
    store_detail id fresh
    pure fresh

  unfoldable pub cached_card : String → Card → Option Card → Exec Card
  cached_card id card (some known) = pure known
  cached_card id card none = read_card id card

  unfoldable pub detail_of : Card → Option String → Exec Card
  detail_of card none = pure card
  detail_of card (some id) =
      if nonempty id
      then (do known ← gets (λ w. lookup id w.ag_card_detail); cached_card id card known)
      else pure card

  unfoldable pub details_of : List Card → Exec (List Card)
  details_of [] = pure []
  details_of (card ∷ cards) = do
    detail ← detail_of card (card_id card)
    rest ← details_of cards
    pure (detail ∷ rest)

  unfoldable pub detailed_cards : Snapshot → Row → Exec (List Card)
  detailed_cards snapshot tracked = details_of (
      resolve_ag_cards snapshot tracked.ag_card_id tracked.pacs_person_id tracked.pacs_credential_id
        tracked.sync_ref)
