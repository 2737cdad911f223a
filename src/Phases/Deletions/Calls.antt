-- ===== src/Phases/Deletions/Calls.antt =====
-- What deleting one pass may call, and in which states (the loop of
-- src/agsync/sync/phases/phase3_deletions.py).
use integration_hub.Prelude.{
  ◌≡◌, refl, ap, arith, ◌⊎◌, inl, inr, String, true, false, ◌&&◌, Option, List, [], ◌∷◌, is_nil,
  text_of, string_eq, Bool-cases,
}
use integration_hub.Pacs.{Credential}
use integration_hub.AccessGrid.{Card}
use integration_hub.Tracking.{Row}
use integration_hub.World.{
  Services, World, Call, ok, event_at, ag_get, ag_delete, pacs_retire, ◌>>=◌,
}
use integration_hub.World.Calls.{
  Only, OnlyAt, Only-at, pure-at, if-at, gets-at, rows-at, perform-at, bind-at, try_ag-at,
  only_rules,
}
use integration_hub.Snapshot.{Snapshot, detailed_cards}
use integration_hub.Snapshot.Reads.{detailed_cards-Only}
use integration_hub.Writeback.{identities_from_cards}
use integration_hub.Phases.Deletions.{
  Tally, is_expired, delete_failed, retire_expired, delete_pass, expired_cards_of, delete_for,
}

-- The pass of a row has been deleted in the state `d`, by the last call before `u`.
abbrev pub Deleted : Row → World → World → Type 0
Deleted t d u = u.history ≡ event_at d (ag_delete (text_of t.ag_card_id)) true ∷ d.history

-- The call that releases the identities of some cards for a row.
abbrev pub release : Services → Row → List Card → Call
release env t cards =
    pacs_retire t.pacs_person_id t.pacs_credential_id (identities_from_cards env cards)

module _ (env : Services) (snapshot : Snapshot) {J : World → Call → Type 0}
    (reads : (id : String) (w : World) → J w (ag_get id)) (t : Row) where
  delete_failed-Only :
      (tally : Tally) (text : String) → Only J (delete_failed env snapshot tally t text)
  unfolding delete_failed
  delete_failed-Only tally text = search only_rules

  retire_expired-at :
      (cards : List Card) (u : World)
      → (is_nil cards ≡ false → J u (release env t cards))
      → OnlyAt J (retire_expired env snapshot t cards) u
  unfolding retire_expired
  retire_expired-at cards u retires =
      if-at (is_nil cards) _ _ u (λ _. pure-at tt u)
        (λ e. perform-at _ _ _ u (retires e) (λ _ _. pure-at tt _))

  delete_pass-at :
      (cards : List Card) (d : World)
      → (env.dry_run d ≡ false → J d (ag_delete (text_of t.ag_card_id)))
      → (is_nil cards ≡ false → (u : World) → Deleted t d u → J u (release env t cards))
      → (tally : Tally) → OnlyAt J (delete_pass env snapshot tally t cards) d
  unfolding delete_pass
  delete_pass-at cards d deletes retires tally = try_ag-at _ _ (delete_failed-Only tally) d (
      gets-at _ _ d (
        if-at (env.dry_run d) _ _ d (λ _. pure-at tally d)
          λ live. perform-at _ _ _ d (deletes live) λ _ _. rows-at _ _ _ (
            try_ag-at _ _ (delete_failed-Only _) _ (
              bind-at _ _ _ (retire_expired-at cards _ (λ some_card. retires some_card _ refl))
                (λ _ _. pure-at _ _)))))

  pub delete_for-at :
      (cred : Option Credential) (v : World)
      → ((d : World)
          → (d ≡ v) ⊎ (d ≡ (detailed_cards env snapshot t v).1)
          → env.dry_run d ≡ false
          → J d (ag_delete (text_of t.ag_card_id)))
      → (env.supports_credential_retirement ≡ true
          → is_expired (env.now v) cred ≡ true
          → (cards : List Card) (d : World) → detailed_cards env snapshot t v ≡ (ok cards, d)
          → (u : World) → Deleted t d u
          → J u (release env t cards))
      → (tally : Tally) → OnlyAt J (delete_for env snapshot tally t cred) v
  unfolding delete_for expired_cards_of ◌>>=◌
  delete_for-at cred v deletes retires tally = record {
    adds = elim (Bool-cases (env.supports_credential_retirement && is_expired (env.now v) cred)) [
      | inl e ↦ rw e (
          (bind-at (detailed_cards env snapshot t) (λ cards. delete_pass env snapshot tally t cards)
            v (Only-at (detailed_cards-Only env reads snapshot t) v)
            (λ cards got.
              delete_pass-at cards (detailed_cards env snapshot t v).1 (deletes _ (inr refl))
                (λ _.
                  retires (ground (arith, e)) (ground (arith, e)) cards _
                    (ap (λ r. (r, (detailed_cards env snapshot t v).1)) got))
                tally)).adds)
      | inr e ↦ rw e ((delete_pass-at [] v (deletes v (inl refl)) (λ n. cc) tally).adds)
    ];
  }
