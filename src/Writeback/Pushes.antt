-- ===== src/Writeback/Pushes.antt =====
-- The calls of `push_allocated_identities` (src/agsync/sync/phases/writeback.py).
use integration_hub.Prelude.{String, false, ◌&&◌, not, is_nil, List}
use integration_hub.AccessGrid.{Card}
use integration_hub.World.{Services, World, Call, pacs_write_back}
use integration_hub.World.Calls.{
  Only, OnlyAt, Only-pure, if-at, try_any-at, call-at, pure-at, only_rules,
}
use integration_hub.Writeback.{identities_from_cards, push_allocated_identities}

module _ (env : Services) {J : World → Call → Type 0} (person credential : String) where
  pub push_allocated_identities-at :
      (cards : List Card) (w : World)
      → J w (pacs_write_back person credential (identities_from_cards env cards))
      → OnlyAt J (push_allocated_identities env person credential cards) w
  unfolding push_allocated_identities
  push_allocated_identities-at cards w j =
      if-at (env.supports_credential_writeback && not (is_nil (identities_from_cards env cards))) _
        _ w (λ _. try_any-at _ _ (λ _. Only-pure false) w (call-at _ _ w j)) (λ _. pure-at false w)

  pub push_allocated_identities-Only :
      (cards : List Card)
      → ((w : World) → J w (pacs_write_back person credential (identities_from_cards env cards)))
      → Only J (push_allocated_identities env person credential cards)
  unfolding push_allocated_identities
  push_allocated_identities-Only cards writes = search (only_rules, writes)
