-- ===== src/Millennium/Deletes.antt =====
-- About the cards that `_delete_cards` asks Millennium to delete
-- (src/agsync/lib/pacs/millennium_ultra/adapter.py).
use mathlib.Core.List.{Memᴰ}
use integration_hub.Prelude.{
  ◌≡◌, refl, ap, String, Bool, true, false, not, ◌&&◌, none, some, List, [], ◌∷◌, if◌then◌else◌,
  ◌==◌, string_eq, pair_same, pair_same_iff, eq_iff, any, keep, lookup, All, All-mem, All-map,
  Bool-cases, Option-cases, inl, inr, arith,
}
use integration_hub.Millennium.Cardholders.{
  Slot, Cardholder, Entry, CardKey, entry_card, awaits_delete, holds_card,
}
use integration_hub.Millennium.WriteBack.{Holders}
use integration_hub.Millennium.Ledger.{Table, all}
use integration_hub.Millennium.Cycle.{
  Deleted, Deletions, delete_one, delete_entries, delete_passes, delete_cards,
}

abbrev pub Passes : Type 0
Passes = List ((String × String) × List Entry)

-- A card of a cardholder is marked for deletion in a pass of theirs.
abbrev pub is_wanted : Passes → String × CardKey → Bool
is_wanted passes (pid, card) =
    any
      (λ pass.
        pass.0.0 == pid && any (λ e. awaits_delete e && pair_same (entry_card e) card) pass.1)
      passes

-- A card is on a cardholder of the export.
abbrev pub is_present : Holders → String × CardKey → Bool
is_present holders (pid, card) = elim (lookup pid holders) [
  | none ↦ false
  | some holder ↦ holds_card card holder.slots
]

module _ (dry : Bool) (answer : List (String × CardKey) → String → CardKey → Deleted) where
  module _ (P : String × CardKey → Type 0) where
    one_call :
        (marked present off gone : Bool) (calls : List (String × CardKey)) (call : String × CardKey)
        → ((marked && (present && not off)) ≡ true → P call)
        → All P calls
        → All P (
            (if◌then◌else◌ {A = Bool × List (String × CardKey)}
              (not marked)
              (false, calls)
              (if not present
                then (true, calls)
                else if off
                then (false, calls)
                else (gone, call ∷ calls))).1)
    one_call false present off gone calls call may h = h
    one_call true false off gone calls call may h = h
    one_call true true true gone calls call may h = h
    one_call true true false gone calls call may h = (may refl, h)

    -- The calls keep a predicate that holds of each card that may be asked for.
    delete_one-All :
        (pid : String) (slots : List Slot) (calls : List (String × CardKey)) (e : Entry)
        → ((awaits_delete e && (holds_card (entry_card e) slots && not dry)) ≡ true
            → P (pid, entry_card e))
        → All P calls
        → All P ((delete_one dry answer pid slots calls e).1)
    unfolding delete_one
    delete_one-All pid slots calls e may h =
        one_call (awaits_delete e) (holds_card (entry_card e) slots) dry _ calls (pid, entry_card e)
          may h

    calls_if :
        (b : Bool) (e : Entry) (d : Deletions)
        → All P d.calls
        → All P ((if◌then◌else◌ {A = Deletions} b d (record d { left = e ∷ d.left })).calls)
    calls_if true e d h = h
    calls_if false e d h = h

    delete_entries-All :
        (pid : String) (slots : List Slot) (calls : List (String × CardKey)) (entries : List Entry)
        → All
            (λ e.
              (awaits_delete e && (holds_card (entry_card e) slots && not dry)) ≡ true
              → P (pid, entry_card e))
            entries
        → All P calls
        → All P ((delete_entries dry answer pid slots calls entries).calls)
    unfolding delete_entries
    delete_entries-All pid slots calls [] may h = h
    delete_entries-All pid slots calls (e ∷ entries) may h =
        let one = (delete_one dry answer pid slots calls e).1 in
        calls_if _ e (delete_entries dry answer pid slots one entries) (
          delete_entries-All pid slots one entries may.1 (delete_one-All pid slots calls e may.0 h))

    module _ (encrypt decrypt : String → String) (holders : Holders) where
      abbrev May : (String × String) × List Entry → Type 0
      May pass =
          All
            (λ e.
              (awaits_delete e && (is_present holders (pass.0.0, entry_card e) && not dry)) ≡ true
              → P (pass.0.0, entry_card e))
            pass.1

      present_in :
          (pid : String) (e : Entry) (holder : Cardholder)
          → lookup pid holders ≡ some holder
          → (awaits_delete e && (holds_card (entry_card e) holder.slots && not dry)) ≡ true
          → (awaits_delete e && (is_present holders (pid, entry_card e) && not dry)) ≡ true
      present_in pid e holder found p = ground arith

      delete_passes-All :
          (passes : Passes) (calls : List (String × CardKey)) (table : Table)
          → All May passes
          → All P calls
          → All P ((delete_passes dry answer encrypt decrypt holders passes calls table).0)
      unfolding delete_passes
      delete_passes-All [] calls table may h = h
      delete_passes-All (((pid, credential), entries) ∷ passes) calls table may h =
          elim (Option-cases (lookup pid holders)) [
            | inl absent ↦ rw (absent, delete_passes) (delete_passes-All passes calls table may.1 h)
            | inr (holder, found) ↦ elim (Bool-cases (any awaits_delete entries)) [
              | inl some_marked ↦
                  rw (found, some_marked, delete_passes)
                    (delete_passes-All passes _ _ may.1 (
                      delete_entries-All pid holder.slots calls entries
                        (All-map _ _ (λ e m p. m (present_in pid e holder found p)) entries may.0)
                        h))
              | inr none_marked ↦
                  rw (found, none_marked, delete_passes)
                    (delete_passes-All passes calls table may.1 h)
            ]
          ]

-- A call is for a card marked for deletion in a recorded pass of the cardholder and present on the
-- cardholder, and is made outside of a dry run.
abbrev pub IsLicensed : Bool → Holders → Passes → String × CardKey → Type 0
IsLicensed dry holders passes call =
    (is_wanted passes call ≡ true) × (is_present holders call ≡ true) × (dry ≡ false)

any-mem {ℓ} :
    {A : Type ℓ} (p : A → Bool) (x : A) (xs : List A) → Memᴰ x xs → p x ≡ true → any p xs ≡ true
unfolding any
any-mem p x [] m h = elim m [ ]
any-mem p x (y ∷ xs) (Memᴰ.head e) h = ground (arith, ap p e)
any-mem p x (y ∷ xs) (Memᴰ.tail m) h = ground (arith, any-mem p x xs m h)

both : (a b : Bool) → a ≡ true → b ≡ true → (a && b) ≡ true
both a b p q = ground arith

parts : (a b c : Bool) → (a && (b && not c)) ≡ true → (a ≡ true) × (b ≡ true) × (c ≡ false)
parts true true false h = (refl, refl, refl)
parts true true true h = cc
parts true false c h = cc
parts false b c h = cc

-- An entry that is listed in a pass makes its card wanted.
is_wanted-mem :
    (passes : Passes) (pass : (String × String) × List Entry) (e : Entry)
    → Memᴰ pass passes
    → Memᴰ e pass.1
    → awaits_delete e ≡ true
    → is_wanted passes (pass.0.0, entry_card e) ≡ true
is_wanted-mem passes pass e among listed marked = any-mem _ pass passes among (
    both _ _ ((eq_iff pass.0.0 pass.0.0).1 refl) (
      any-mem _ e pass.1 listed
        (both _ _ marked ((pair_same_iff (entry_card e) (entry_card e)).1 refl))))

-- Whatever Millennium answers, a cycle asks it to delete a card of a cardholder only if a pass
-- recorded for that cardholder has the card marked for deletion, the card is on the cardholder in
-- this cycle's export, and the install is not in a dry run.
pub delete_cards-IsLicensed :
    (dry : Bool) (answer : List (String × CardKey) → String → CardKey → Deleted)
    → (encrypt decrypt : String → String) (holders : Holders) (table : Table)
    → All
        (IsLicensed dry holders (all decrypt table))
        ((delete_cards dry answer encrypt decrypt holders table).0)
unfolding delete_cards
delete_cards-IsLicensed dry answer encrypt decrypt holders table =
    let passes = all decrypt table in
    delete_passes-All dry answer (IsLicensed dry holders passes) encrypt decrypt holders passes []
      table
      (All-mem passes λ pass among. All-mem pass.1 λ e listed may.
        let p = parts (awaits_delete e) (is_present holders (pass.0.0, entry_card e)) dry may in
        (is_wanted-mem passes pass e among listed p.0, p.1, p.2))
      tt

-- Of the entries of a pass, the deletions drop none that is not marked for deletion; and in a dry
-- run none whose card is on the cardholder. The entries kept stay in their order.
pub delete_entries-keep :
    (dry : Bool) (answer : List (String × CardKey) → String → CardKey → Deleted)
    → (pid : String) (slots : List Slot) (calls : List (String × CardKey)) (entries : List Entry)
    → (keep (λ e. not (awaits_delete e)) ((delete_entries dry answer pid slots calls entries).left)
        ≡ keep (λ e. not (awaits_delete e)) entries)
      × (keep
            (λ e. holds_card (entry_card e) slots)
            ((delete_entries true answer pid slots calls entries).left)
          ≡ keep (λ e. holds_card (entry_card e) slots) entries)
unfolding delete_entries delete_one keep
delete_entries-keep dry answer pid slots calls [] = (refl, refl)
delete_entries-keep dry answer pid slots calls (e ∷ entries) =
    let rest =
      delete_entries-keep dry answer pid slots ((delete_one dry answer pid slots calls e).1)
        entries in
    let dry_rest =
      delete_entries-keep dry answer pid slots ((delete_one true answer pid slots calls e).1)
        entries in
    (ground (arith, rest.0), ground (arith, dry_rest.1))
