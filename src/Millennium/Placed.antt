-- ===== src/Millennium/Placed.antt =====
-- About the entries that `write_back_credentials` adds and those that `retire_credentials` marks
-- (src/agsync/lib/pacs/millennium_ultra/adapter.py).
use mathlib.Core.List.{Memᴰ}
use mathlib.Core.Path.{subst, sym}
use integration_hub.Prelude.{
  ℕ, ◌+◌, ◌≡◌, refl, ◌⊎◌, String, Bool, true, false, not, ◌&&◌, ◌||◌, Option, none, some, List, [],
  ◌∷◌, map, if◌then◌else◌, nat_eqb, any, keep, find, count_if, is_nil, is_some, All, arith,
  Bool-cases, inl, inr, ltb, length, All-map,
}
use integration_hub.Pacs.{CredentialIdentity}
use integration_hub.Millennium.Cardholders.{
  Slot, Cardholder, Entry, CardKey, entry_card, is_empty, awaits_write, awaits_insert,
  awaits_delete, is_unwritten, has_card,
}
use integration_hub.Millennium.WriteBack.{
  Holders, Outcome, slots_taken, adds, refused, nothing_new, identity_card, on_any, free_slots,
  writable, place, fit, open_slots, write_back, is_marked, mark,
}

-- A card that may be written: on no cardholder, and not recorded for the pass.
abbrev pub IsNew : Holders → List Entry → CardKey → Type 0
IsNew holders entries card = (on_any holders card ≡ false) × (has_card card entries ≡ false)

-- A slot that may be written to: the trigger card's, or an empty one that no card is recorded in.
abbrev pub is_open : List Entry → (ℕ → Bool) → List Slot → ℕ → Bool
is_open entries taken slots index =
    elim (find awaits_write entries) [ none ↦ false | some trigger ↦ nat_eqb trigger.slot index ]
    || any (λ slot. is_empty slot && not (taken slot.index) && nat_eqb slot.index index) slots

module _ {ℓ κ} {A : Type ℓ} where
  pub All-keep : (p : A → Bool) (P : A → Type κ) (xs : List A) → All P xs → All P (keep p xs)
  unfolding keep
  All-keep p P [] h = tt
  All-keep p P (x ∷ xs) h = ground (arith, All-keep p P xs h.1)

not-true : (b : Bool) → not b ≡ true → b ≡ false
not-true true h = cc
not-true false h = refl

module _ {ℓ} {A : Type ℓ} where
  All-both : (P Q : A → Type 0) (xs : List A) → All P xs → All Q xs → All (λ x. P x × Q x) xs
  All-both P Q [] h k = tt
  All-both P Q (x ∷ xs) h k = ((h.0, k.0), All-both P Q xs h.1 k.1)

  All-keep_test : (p : A → Bool) (xs : List A) → All (λ x. p x ≡ true) (keep p xs)
  unfolding keep
  All-keep_test p [] = tt
  All-keep_test p (x ∷ xs) = elim (Bool-cases (p x)) [
    | inl e ↦ rw e (e, All-keep_test p xs)
    | inr e ↦ rw e (All-keep_test p xs)
  ]

  All-any : (p : A → Bool) (xs : List A) → any p xs ≡ false → All (λ x. p x ≡ false) xs
  unfolding any
  All-any p [] h = tt
  All-any p (x ∷ xs) h = (ground arith, All-any p xs (ground arith))

-- The free slots are among those that may be written to.
abbrev is_free : (ℕ → Bool) → List Slot → ℕ → Bool
is_free taken slots index =
    any (λ slot. is_empty slot && not (taken slot.index) && nat_eqb slot.index index) slots

is_free-cons :
    (taken : ℕ → Bool) (slot : Slot) (slots : List Slot) (index : ℕ)
    → is_free taken slots index ≡ true
    → is_free taken (slot ∷ slots) index ≡ true
unfolding any
is_free-cons taken slot slots index h = ground arith

is_free-own :
    (taken : ℕ → Bool) (slot : Slot) (slots : List Slot)
    → (is_empty slot && not (taken slot.index)) ≡ true
    → is_free taken (slot ∷ slots) slot.index ≡ true
unfolding any
is_free-own taken slot slots h = ground arith

free_slots-is_free :
    (taken : ℕ → Bool) (slots : List Slot)
    → All (λ index. is_free taken slots index ≡ true) (free_slots taken slots)
unfolding free_slots
free_slots-is_free taken [] = tt
free_slots-is_free taken (slot ∷ slots) =
    let rest =
      All-map (λ index. is_free taken slots index ≡ true)
        (λ index. is_free taken (slot ∷ slots) index ≡ true) (is_free-cons taken slot slots)
        (free_slots taken slots) (free_slots-is_free taken slots) in
    elim (Bool-cases (is_empty slot && not (taken slot.index))) [
      | inl e ↦ rw e (is_free-own taken slot slots e, rest)
      | inr e ↦ rw e rest
    ]

All-writable {ℓ} :
    (P : CredentialIdentity → Type ℓ) (pair : Bool) (trigger : Option Entry)
    → (new : List CredentialIdentity) → All P new
    → All P (writable pair trigger new)
unfolding writable
All-writable P pair none new h = All-keep _ P new h
All-writable P pair (some trigger) [] h = tt
All-writable P true (some trigger) (i ∷ new) h = h
All-writable P false (some trigger) (i ∷ new) h = (h.0, All-keep _ P new h.1)

module _ (holders : Holders) (entries : List Entry) (taken : ℕ → Bool) (slots : List Slot) where
  -- What is promised of an entry that is added.
  abbrev pub IsPlaced : Entry → Type 0
  IsPlaced e =
      IsNew holders entries (entry_card e)
      × (is_open entries taken slots e.slot ≡ true)
      × (awaits_insert e ≡ true)

  place-IsPlaced :
      (new : List CredentialIdentity) (at : List ℕ)
      → All (λ i. IsNew holders entries (identity_card i)) new
      → All (λ index. is_open entries taken slots index ≡ true) at
      → All IsPlaced (place new at)
  unfolding place
  place-IsPlaced [] at h p = tt
  place-IsPlaced (i ∷ new) [] h p = tt
  place-IsPlaced (i ∷ new) (index ∷ at) h p = ((h.0, p.0, refl), place-IsPlaced new at h.1 p.1)

  IsSound : Outcome → Type 0
  IsSound (adds new) = All IsPlaced new
  IsSound _ = Unit {0}

  open_slots-is_open :
      (trigger : Option Entry) (free : List ℕ)
      → find awaits_write entries ≡ trigger
      → All (λ index. is_free taken slots index ≡ true) free
      → All (λ index. is_open entries taken slots index ≡ true) (open_slots trigger free)
  open_slots-is_open none free e h = rw e h
  open_slots-is_open (some trigger) free e h =
      rw e (ground arith, All-map _ _ (λ index p. ground arith) free h)

  fit-IsSound :
      (trigger : Option Entry) (new : List CredentialIdentity)
      → find awaits_write entries ≡ trigger
      → All (λ i. IsNew holders entries (identity_card i)) new
      → IsSound (fit entries trigger new (free_slots taken slots))
  unfolding fit IsSound
  fit-IsSound trigger new e h = elim (Bool-cases (is_nil new)) [
    | inl none_new ↦ rw none_new tt
    | inr some_new ↦
        elim (Bool-cases (
          any awaits_insert entries
          || ltb (length (open_slots trigger (free_slots taken slots))) (length new))) [
            | inl full ↦ rw (some_new, full) tt
            | inr room ↦
                rw (some_new, room)
                  (place-IsPlaced new (open_slots trigger (free_slots taken slots)) h (
                    open_slots-is_open trigger (free_slots taken slots) e
                      (free_slots-is_free taken slots)))
          ]
  ]

  -- The cards that are new and on no cardholder.
  fresh-IsNew :
      (identities : List CredentialIdentity)
      → any
          (λ i. on_any holders (identity_card i))
          (keep (λ i. not (has_card (identity_card i) entries)) identities)
        ≡ false
      → All
          (λ i. IsNew holders entries (identity_card i))
          (keep (λ i. not (has_card (identity_card i) entries)) identities)
  fresh-IsNew identities h =
      let new = keep (λ i. not (has_card (identity_card i) entries)) identities in
      All-both _ _ new (All-any _ new h)
        (All-map _ _ (λ i p. not-true _ p) new (All-keep_test _ identities))

  unless :
      (b : Bool) (x y : Outcome)
      → IsSound x
      → (b ≡ false → IsSound y)
      → IsSound (if b then x else y)
  unless true x y h k = h
  unless false x y h k = k refl

  refused-IsSound : IsSound refused
  unfolding IsSound
  refused-IsSound = tt

  nothing_new-IsSound : IsSound nothing_new
  unfolding IsSound
  nothing_new-IsSound = tt

  adds-IsPlaced : (new : List Entry) → IsSound (adds new) → All IsPlaced new
  unfolding IsSound
  adds-IsPlaced new h = h

write_back-IsSound :
    (pair : Bool) (holders : Holders) (entries : List Entry) (taken : ℕ → Bool)
    → (holder : Cardholder) (identities : List CredentialIdentity)
    → IsSound holders entries taken holder.slots
        (write_back pair holders entries taken holder identities)
unfolding write_back
write_back-IsSound pair holders entries taken holder identities =
    let new =
      keep (λ (i : CredentialIdentity). not (has_card (identity_card i) entries)) identities in
    let trigger = find awaits_write entries in
    let none = refused-IsSound holders entries taken holder.slots in
    let idle = nothing_new-IsSound holders entries taken holder.slots in
    let last : Outcome =
      fit entries trigger (writable pair trigger new) (free_slots taken holder.slots) in
    let third : Outcome =
      if any (λ i. on_any holders (identity_card i)) new then refused else last in
    let second : Outcome = if is_nil new then nothing_new else third in
    let first : Outcome =
      if not (is_some trigger) && not (any (λ i. has_card (identity_card i) entries) identities)
      then refused
      else second in
    unless holders entries taken holder.slots (is_nil entries) refused first none λ some_entry.
      unless holders entries taken holder.slots _ refused second none λ reason.
        unless holders entries taken holder.slots (is_nil new) nothing_new third idle λ some_new.
          unless holders entries taken holder.slots _ refused last none λ fresh.
            fit-IsSound holders entries taken holder.slots trigger _ refl (
              All-writable _ pair trigger new
                (fresh-IsNew holders entries taken holder.slots identities fresh))

-- No card recorded in any of these records is in the slot.
abbrev pub NoneRecorded : List ((String × String) × List Entry) → ℕ → Type 0
NoneRecorded cards index = All (λ p. All (λ e. nat_eqb e.slot index ≡ false) p.1) cards

-- The slot of a trigger card of the pass, or an empty one of the cardholder in which no card is
-- recorded.
abbrev pub MayHold : List Entry → List ((String × String) × List Entry) → List Slot → ℕ → Type 0
MayHold entries cards slots index =
    ((e : Entry) × Memᴰ e entries × (awaits_write e ≡ true) × (nat_eqb e.slot index ≡ true))
    ⊎ ((slot : Slot) × Memᴰ slot slots
        × (is_empty slot ≡ true)
        × (nat_eqb slot.index index ≡ true)
        × NoneRecorded cards slot.index)

find-Mem {ℓ} :
    {A : Type ℓ} (p : A → Bool) (xs : List A) (x : A)
    → find p xs ≡ some x
    → Memᴰ x xs × (p x ≡ true)
unfolding find
find-Mem p [] x h = cc
find-Mem p (y ∷ xs) x h = elim (Bool-cases (p y)) [
  | inl e ↦ let same : y ≡ x = ground (arith, h, e) in (Memᴰ.head (sym same), rw (sym same) e)
  | inr e ↦ let later = find-Mem p xs x (ground (arith, h, e)) in (Memᴰ.tail later.0, later.1)
]

any-Mem {ℓ} :
    {A : Type ℓ} (p : A → Bool) (xs : List A) → any p xs ≡ true → (x : A) × Memᴰ x xs × (p x ≡ true)
unfolding any
any-Mem p [] h = cc
any-Mem p (y ∷ xs) h = elim (Bool-cases (p y)) [
  | inl e ↦ (y, Memᴰ.head refl, e)
  | inr e ↦ let (x, m, q) = any-Mem p xs (ground (arith, h, e)) in (x, Memᴰ.tail m, q)
]

slots_taken-NoneRecorded :
    (cards : List ((String × String) × List Entry)) (index : ℕ)
    → slots_taken cards index ≡ false
    → NoneRecorded cards index
unfolding slots_taken
slots_taken-NoneRecorded [] index h = tt
slots_taken-NoneRecorded ((key, entries) ∷ cards) index h = (
  All-any (λ e. nat_eqb e.slot index) entries (ground (arith, h)),
  slots_taken-NoneRecorded cards index (ground (arith, h)),
)

is_open-MayHold :
    (entries : List Entry) (cards : List ((String × String) × List Entry)) (slots : List Slot)
    (index : ℕ)
    → is_open entries (slots_taken cards) slots index ≡ true
    → MayHold entries cards slots index
is_open-MayHold entries cards slots index h = by_trigger (find awaits_write entries) refl h
  where
    free : is_free (slots_taken cards) slots index ≡ true → MayHold entries cards slots index
    free f =
        let (slot, m, q) = any-Mem _ slots f in
        inr (
          slot,
          m,
          ground (arith, q),
          ground (arith, q),
          slots_taken-NoneRecorded cards slot.index (ground (arith, q)),
        )

    by_trigger :
        (o : Option Entry)
        → find awaits_write entries ≡ o
        → ((elim o [ none ↦ false | some trigger ↦ nat_eqb trigger.slot index ])
            || is_free (slots_taken cards) slots index)
          ≡ true
        → MayHold entries cards slots index
    by_trigger none e f = free f
    by_trigger (some trigger) e f = elim (Bool-cases (nat_eqb trigger.slot index)) [
      | inl own ↦
          let found = find-Mem awaits_write entries trigger e in
          inl (trigger, found.0, found.1, own)
      | inr other ↦ free (ground (arith, f, other))
    ]

-- A card that is added for a pass is on no cardholder, and no card of the pass already; it waits to
-- be inserted, and its slot is that of a trigger card of the pass, or an empty one of the cardholder
-- in which none of the cards given as recorded for the cardholder is.
pub write_back-IsPlaced :
    (pair : Bool) (holders : Holders) (entries new : List Entry)
    (cards : List ((String × String) × List Entry)) (holder : Cardholder)
    (identities : List CredentialIdentity)
    → write_back pair holders entries (slots_taken cards) holder identities ≡ adds new
    → All
        (λ e.
          IsNew holders entries (entry_card e)
          × MayHold entries cards holder.slots e.slot
          × (awaits_insert e ≡ true))
        new
write_back-IsPlaced pair holders entries new cards holder identities e =
    let placed = adds-IsPlaced holders entries (slots_taken cards) holder.slots new (
      subst (IsSound holders entries (slots_taken cards) holder.slots) e
        (write_back-IsSound pair holders entries (slots_taken cards) holder identities)) in
    All-map _ _ (λ entry h. (h.0, is_open-MayHold entries cards holder.slots entry.slot h.1, h.2))
      new placed

-- A retirement marks for deletion exactly the cards it counts, beside those marked before, and
-- leaves a card alone that is not written yet, or dormant.
pub mark-count :
    (gone : List CardKey) (entries : List Entry)
    → (count_if awaits_delete (map (mark gone) entries)
        ≡ count_if awaits_delete entries + count_if (is_marked gone) entries)
      × All (λ e. (if is_unwritten e || e.dormant then e else mark gone e) ≡ mark gone e) entries
unfolding count_if mark is_marked
mark-count gone [] = (omega arith, tt)
mark-count gone (e ∷ entries) =
    let rest = mark-count gone entries in (ground (arith, rest.0), (ground arith, rest.1))
