-- ===== src/Snapshot/Reads.antt =====
-- The calls of `detailed_cards` (src/agsync/sync/snapshot.py).
use integration_hub.Prelude.{refl, String, Option, none, some, List, [], ◌∷◌}
use integration_hub.AccessGrid.{Card, card_id}
use integration_hub.Tracking.{Row}
use integration_hub.World.{Services, World, Call, ag_get}
use integration_hub.World.Calls.{Adds, Only, Only-pure, Only-bind, only_rules}
use integration_hub.World.Keeps.{Keeps, Keeps-pure, Keeps-bind, keeps_rules}
use integration_hub.Snapshot.{
  Snapshot, store_detail, read_card, cached_card, detail_of, details_of, detailed_cards,
}

module _ (env : Services) {J : World → Call → Type 0}
    (reads : (id : String) (w : World) → J w (ag_get id)) where
  store_detail-Only : (id : String) (card : Card) → Only J (store_detail env id card)
  store_detail-Only id card = record { at = λ w. Adds.none_added }

  read_card-Only : (id : String) (card : Card) → Only J (read_card env id card)
  unfolding read_card
  read_card-Only id card = search (only_rules, reads, store_detail-Only) depth 8

  cached_card-Only :
      (id : String) (card : Card) (o : Option Card) → Only J (cached_card env id card o)
  unfolding cached_card
  cached_card-Only id card (some known) = search only_rules
  cached_card-Only id card none = read_card-Only id card

  detail_of-Only : (card : Card) (o : Option String) → Only J (detail_of env card o)
  unfolding detail_of
  detail_of-Only card none = search only_rules
  detail_of-Only card (some id) = search (only_rules, cached_card-Only)

  details_of-Only : (cards : List Card) → Only J (details_of env cards)
  unfolding details_of
  details_of-Only [] = search only_rules
  details_of-Only (card ∷ cards) =
      Only-bind _ _ (detail_of-Only card (card_id card))
        (λ detail. Only-bind _ _ (details_of-Only cards) (λ rest. Only-pure (detail ∷ rest)))

  pub detailed_cards-Only : (snapshot : Snapshot) (t : Row) → Only J (detailed_cards env snapshot t)
  unfolding detailed_cards
  detailed_cards-Only snapshot t = details_of-Only _

module _ (env : Services) where
  store_detail-Keeps : (id : String) (card : Card) → Keeps (store_detail env id card)
  store_detail-Keeps id card = record { at = λ w. refl }

  read_card-Keeps : (id : String) (card : Card) → Keeps (read_card env id card)
  unfolding read_card
  read_card-Keeps id card = search (keeps_rules, store_detail-Keeps) depth 8

  cached_card-Keeps :
      (id : String) (card : Card) (o : Option Card) → Keeps (cached_card env id card o)
  unfolding cached_card
  cached_card-Keeps id card (some known) = Keeps-pure known
  cached_card-Keeps id card none = read_card-Keeps id card

  detail_of-Keeps : (card : Card) (o : Option String) → Keeps (detail_of env card o)
  unfolding detail_of
  detail_of-Keeps card none = Keeps-pure card
  detail_of-Keeps card (some id) = search (keeps_rules, cached_card-Keeps)

  details_of-Keeps : (cards : List Card) → Keeps (details_of env cards)
  unfolding details_of
  details_of-Keeps [] = Keeps-pure []
  details_of-Keeps (card ∷ cards) =
      Keeps-bind _ _ (detail_of-Keeps card (card_id card))
        (λ detail. Keeps-bind _ _ (details_of-Keeps cards) (λ rest. Keeps-pure (detail ∷ rest)))

  pub detailed_cards-Keeps : (snapshot : Snapshot) (t : Row) → Keeps (detailed_cards env snapshot t)
  unfolding detailed_cards
  detailed_cards-Keeps snapshot t = details_of-Keeps _
