-- ===== src/Writeback/Identities.antt =====
-- The identities that are written to the PACS, and those that it may release
-- (src/agsync/sync/phases/writeback.py).
use mathlib.Core.List.{Memᴰ}
use integration_hub.Prelude.{
  ℕ, ◌≡◌, refl, arith, inl, inr, String, Bool, true, false, ◌||◌, ◌==◌, pair_eq, pair_same_iff,
  Option, List, [], ◌∷◌, ◌++◌, any, nonempty, Bool-cases, All, if◌then◌else◌,
}
use integration_hub.Pacs.{CredentialIdentity}
use integration_hub.AccessGrid.{Attrs, Card}
use integration_hub.World.{Services}
use integration_hub.Writeback.{
  is_dead, identity_key, device_entries, key_of, is_seen, is_new, entry_identity, add_entries,
  card_identity, identities_from_card, merge_identities, merge_cards, identities_from_cards,
}

-- Every identity has a card number, and no two have the same site code and card number.
abbrev pub IsClean : List CredentialIdentity → Type 0
IsClean [] = Unit
IsClean (i ∷ rest) =
    (nonempty i.card_number ≡ true) × (is_seen (key_of i) rest ≡ false) × IsClean rest

is_seen-append :
    (key : String × String) (out : List CredentialIdentity) (i : CredentialIdentity)
    → is_seen key (out ++ i ∷ []) ≡ (is_seen key out || key_of i == key)
unfolding is_seen any
is_seen-append key [] i = ground arith
is_seen-append key (j ∷ out) i = ground (arith, is_seen-append key out i)

pair_same-sym : (p q : String × String) → (p == q) ≡ (q == p)
pair_same-sym p q = ground (arith, pair_same_iff p q, pair_same_iff q p)

append-IsClean :
    (out : List CredentialIdentity) (i : CredentialIdentity)
    → IsClean out
    → nonempty i.card_number ≡ true
    → is_seen (key_of i) out ≡ false
    → IsClean (out ++ i ∷ [])
unfolding is_seen any
append-IsClean [] i h full new = (full, refl, tt)
append-IsClean (j ∷ out) i h full new = (
  h.0,
  ground (arith, h.1, new, is_seen-append (key_of j) out i, pair_same-sym (key_of i) (key_of j)),
  append-IsClean out i h.2 full (ground (arith, new)),
)

-- The step of every loop of the file: an identity is appended under a test that makes it new.
append_if-IsClean :
    (b : Bool) (out : List CredentialIdentity) (i : CredentialIdentity)
    → IsClean out
    → (b ≡ true → (nonempty i.card_number ≡ true) × (is_seen (key_of i) out ≡ false))
    → IsClean (if b then out ++ i ∷ [] else out)
append_if-IsClean true out i h f = append-IsClean out i h (f refl).0 (f refl).1
append_if-IsClean false out i h f = h

module _ (env : Services) where
  add_entries-IsClean :
      (activate expire : Option ℕ) (entries : List Attrs) (out : List CredentialIdentity)
      → IsClean out
      → IsClean (add_entries env activate expire entries out)
  unfolding add_entries is_new entry_identity
  add_entries-IsClean activate expire [] out h = h
  add_entries-IsClean activate expire (entry ∷ entries) out h =
      add_entries-IsClean activate expire entries _
        (append_if-IsClean _ out _ h (λ e. (ground arith, ground arith)))

  identities_from_card-IsClean : (card : Card) → IsClean (identities_from_card env card)
  unfolding identities_from_card is_new card_identity
  identities_from_card-IsClean card =
      append_if-IsClean _ _ _ (add_entries-IsClean _ _ (device_entries card) [] tt)
        (λ e. (ground arith, ground arith))

  merge_identities-IsClean :
      (new out : List CredentialIdentity)
      → IsClean new
      → IsClean out
      → IsClean (merge_identities env new out)
  unfolding merge_identities
  merge_identities-IsClean [] out k h = h
  merge_identities-IsClean (i ∷ new) out k h =
      merge_identities-IsClean new _ k.2 (elim (Bool-cases (is_seen (key_of i) out)) [
        | inl e ↦ rw e h
        | inr e ↦ rw e (append-IsClean out i h k.0 e)
      ])

  merge_cards-IsClean :
      (cards : List Card) (out : List CredentialIdentity)
      → IsClean out
      → IsClean (merge_cards env cards out)
  unfolding merge_cards
  merge_cards-IsClean [] out h = h
  merge_cards-IsClean (card ∷ cards) out h =
      merge_cards-IsClean cards _
        (merge_identities-IsClean _ out (identities_from_card-IsClean card) h)

-- The identities of any cards each have a card number, and no two of them have the same site code
-- and card number, within a card and across cards: none is offered twice to the PACS.
pub identities_from_cards-IsClean :
    (env : Services) (cards : List Card) → IsClean (identities_from_cards env cards)
unfolding identities_from_cards
identities_from_cards-IsClean env cards = merge_cards-IsClean env cards [] tt

-- Why an identity may be released: it is that of an entry of one of the cards, or of the card
-- itself, and the entry or its whole card is deleted.
pub record IsGone (cards : List Card) (i : CredentialIdentity) : Type 0 where
  pub card : Card
  pub listed : Memᴰ card cards
  pub entry : Attrs
  pub part : Memᴰ entry (device_entries card ++ card.attrs ∷ [])
  pub named : key_of i ≡ identity_key entry
  pub dead : (is_dead card.attrs || is_dead entry) ≡ true

-- What is built up by `deleted_identities_from_cards`.
abbrev IsReleasable : List Card → List CredentialIdentity → Type 0
IsReleasable cards out = IsClean out × All (IsGone cards) out
