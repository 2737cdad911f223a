-- ===== src/Phases/AgToLocal/Desired.antt =====
-- What a card of the PACS should be, given the cards of its pass (`_desired_card_status` of
-- src/agsync/sync/phases/phase4_ag_to_local.py).
use mathlib.Core.List.{Memᴰ}
use integration_hub.Prelude.{
  ◌≡◌, sym, ap, ◌∙◌, arith, Bool, true, false, not, inl, inr, Bool-cases, ◌==◌, string_eq, eq_iff,
  List, [], ◌∷◌, any, keep,
}
use integration_hub.Pacs.{suspended}
use integration_hub.AccessGrid.{Card}
use integration_hub.Writeback.{is_dead, state_of}
use integration_hub.Phases.AgToLocal.{desired_card_status}

module _ {A : Type 0} where
  keep-Mem : (p : A → Bool) (xs : List A) {x : A} → Memᴰ x xs → p x ≡ true → Memᴰ x (keep p xs)
  unfolding keep
  keep-Mem p [] m h = elim m [ ]
  keep-Mem p (y ∷ xs) (Memᴰ.head e) h = rw (sym (ap p e) ∙ h) (Memᴰ.head e)
  keep-Mem p (y ∷ xs) (Memᴰ.tail m) h = elim (Bool-cases (p y)) [
    | inl e ↦ rw e (Memᴰ.tail (keep-Mem p xs m h))
    | inr e ↦ rw e (keep-Mem p xs m h)
  ]

  any-Mem : (p : A → Bool) (xs : List A) {x : A} → Memᴰ x xs → p x ≡ true → any p xs ≡ true
  unfolding any
  any-Mem p [] m h = elim m [ ]
  any-Mem p (y ∷ xs) (Memᴰ.head e) h = ground (arith, ap p e, h)
  any-Mem p (y ∷ xs) (Memᴰ.tail m) h = ground (arith, any-Mem p xs m h)

-- A suspended card among those that are not deleted is enough: whatever the other cards are, and
-- whatever devices the pass is installed on, the card of the PACS should be suspended.
pub desired_card_status-suspended :
    (cards : List Card) (c : Card)
    → Memᴰ c cards
    → is_dead c.attrs ≡ false
    → state_of c.attrs ≡ "suspended"
    → desired_card_status cards ≡ suspended
unfolding desired_card_status
desired_card_status-suspended cards c m live s = ground (
  arith,
  any-Mem (λ d. state_of d.attrs == "suspended") (keep (λ d. not (is_dead d.attrs)) cards)
      (keep-Mem (λ d. not (is_dead d.attrs)) cards m (ground (arith, live)))
      ((eq_iff (state_of c.attrs) "suspended").1 s),
)
