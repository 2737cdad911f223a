-- ===== src/Millennium/Settled.antt =====
-- About the recorded cards after an import (src/agsync/lib/pacs/millennium_ultra/adapter.py).
use mathlib.Core.Path.{sym}
use integration_hub.Prelude.{
  ◌≡◌, refl, ◌∙◌, Bool, true, false, not, ◌&&◌, some, none, List, [], ◌∷◌, map, if◌then◌else◌,
  pair_same, any, keep, Option, All, Bool-cases, inl, inr, arith,
}
use integration_hub.Millennium.Cardholders.{
  Entry, CardKey, Pending, write, insert, activate, deactivate, delete, entry_card, awaits_write,
}
use integration_hub.Millennium.Placed.{All-keep}
use integration_hub.Millennium.Imports.{is_change, awaits_activate, settle_entry, is_taken, settle}

abbrev pub is_changing : Option Pending → Bool
is_changing p = elim p [
  | some activate ↦ true
  | some deactivate ↦ true
  | some insert ↦ true
  | _ ↦ false
]

abbrev pub is_writing : Option Pending → Bool
is_writing p = elim p [ some write ↦ true | _ ↦ false ]

module _ (skipped : List CardKey) where
  -- A change that an import was to make and did not skip.
  abbrev pub is_due : Entry → Bool
  is_due e = is_changing e.pending && not (any (λ card. pair_same card (entry_card e)) skipped)

  -- A card that an import was to insert and did not skip.
  abbrev pub has_gone_in : Entry → Bool
  has_gone_in e =
      elim e.pending [ some insert ↦ true | _ ↦ false ]
      && not (any (λ card. pair_same card (entry_card e)) skipped)

  abbrev settled_if : Bool → Entry → Entry
  settled_if b e = if b then (record e { active = some (awaits_activate e); pending = none }) else e

  done_if : (b : Bool) (e : Entry) → is_due e ≡ b → is_due (settled_if b e) ≡ false
  done_if true e h = refl
  done_if false e h = h

  change-not_write : (p : Option Pending) → is_changing p ≡ true → is_writing p ≡ false
  change-not_write none h = refl
  change-not_write (some write) h = cc
  change-not_write (some insert) h = refl
  change-not_write (some activate) h = refl
  change-not_write (some deactivate) h = refl
  change-not_write (some delete) h = refl

  and-left : (a b : Bool) → (a && b) ≡ true → a ≡ true
  and-left a b h = ground arith

  write_if : (b : Bool) (e : Entry) → is_due e ≡ b → awaits_write (settled_if b e) ≡ awaits_write e
  write_if true e h = sym (change-not_write e.pending (and-left (is_change e) _ h))
  write_if false e h = refl

  settle_entry-done : (e : Entry) → is_due (settle_entry skipped e) ≡ false
  unfolding settle_entry
  settle_entry-done e = done_if (is_due e) e refl

  awaits_write-settle_entry : (e : Entry) → awaits_write (settle_entry skipped e) ≡ awaits_write e
  unfolding settle_entry
  awaits_write-settle_entry e = write_if (is_due e) e refl

  map-done :
      (entries : List Entry) → All (λ e. is_due e ≡ false) (map (settle_entry skipped) entries)
  map-done [] = tt
  map-done (e ∷ entries) = (settle_entry-done e, map-done entries)

  any-map :
      (entries : List Entry)
      → any awaits_write (map (settle_entry skipped) entries) ≡ any awaits_write entries
  unfolding any
  any-map [] = refl
  any-map (e ∷ entries) = ground (arith, awaits_write-settle_entry e, any-map entries)

  any-keep :
      (entries : List Entry) → any awaits_write (keep (λ e. not (awaits_write e)) entries) ≡ false
  unfolding any keep
  any-keep [] = refl
  any-keep (e ∷ entries) = ground (arith, any-keep entries)

  and-true : (b : Bool) → (b && not false) ≡ b
  and-true b = ground arith

  and-false : (b : Bool) → (b && not true) ≡ false
  and-false b = ground arith

  -- After an import, no change that was due and not skipped is left waiting, and a trigger card is
  -- recorded exactly if one was before and no card has gone in for the pass.
  pub settle-IsSettled :
      (entries : List Entry)
      → All (λ e. is_due e ≡ false) (settle skipped entries)
        × (any (λ e. is_writing e.pending) (settle skipped entries)
            ≡ (any (λ e. is_writing e.pending) entries && not (any has_gone_in entries)))
  unfolding settle is_taken
  settle-IsSettled entries = elim (Bool-cases (any has_gone_in entries)) [
    | inl taken ↦ rw taken (
      All-keep _ _ (map (settle_entry skipped) entries) (map-done entries),
      any-keep (map (settle_entry skipped) entries) ∙ sym (and-false (any awaits_write entries)),
    )
    | inr none_taken ↦
        rw none_taken
          (map-done entries, any-map entries ∙ sym (and-true (any awaits_write entries)))
  ]
