-- ===== src/Snapshot/Resolve.antt =====
-- Which cards stand behind a tracked row: `resolve_ag_cards` on the indexes that `build_snapshot`
-- fills (src/agsync/sync/snapshot.py).
use mathlib.Core.List.{Memᴰ, append-nil}
use integration_hub.Prelude.{
  ◌≡◌, refl, sym, ap, ◌∙◌, arith, ◌⊎◌, inl, inr, String, Bool, true, false, ◌==◌, string_eq, eq_iff,
  Option, none, some, List, [], ◌∷◌, ◌++◌, lookup, lookup-insert, lookup_list,
  lookup_list-append_at, keep, is_nil, text_of, nonempty, Bool-cases, All, All-map, if◌then◌else◌,
}
use integration_hub.AccessGrid.{Card, card_id}
use integration_hub.Snapshot.{Snapshot, resolve_ag_cards, card_by_id}
use integration_hub.Snapshot.Build.{
  add_card, add_cards, add_by_id, add_by_ref, add_by_employee, site_card_entry,
}

-- The reference that a card carries.
abbrev pub ref_of : Card → String
ref_of card = text_of (lookup "sync_ref" card.metadata)

-- The card carries the reference.
abbrev pub carries : String → Card → Bool
carries ref card = ref_of card == ref

abbrev pub is_id : String → Option String → Bool
is_id id none = false
is_id id (some own) = own == id

-- The card has the id.
abbrev pub has_id : String → Card → Bool
has_id id card = is_id id (card_id card)

add_by_id-refs :
    (card : Card) (own : Option String) (s : Snapshot)
    → (add_by_id card own s).ag_cards_by_sync_ref ≡ s.ag_cards_by_sync_ref
unfolding add_by_id
add_by_id-refs card none s = refl
add_by_id-refs card (some own) s = refl

add_by_id-ids :
    (id : String) (card : Card) (own : Option String) (s : Snapshot)
    → lookup id (add_by_id card own s).ag_card_by_id
      ≡ (if is_id id own then some card else lookup id s.ag_card_by_id)
unfolding add_by_id
add_by_id-ids id card none s = refl
add_by_id-ids id card (some own) s = lookup-insert s.ag_card_by_id own id card

site_card_entry-refs :
    (card : Card) (site number : Option String) (s : Snapshot)
    → ((site_card_entry card site number s).ag_cards_by_sync_ref ≡ s.ag_cards_by_sync_ref)
      × ((site_card_entry card site number s).ag_card_by_id ≡ s.ag_card_by_id)
unfolding site_card_entry
site_card_entry-refs card (some site) (some number) s = (refl, refl)
site_card_entry-refs card (some site) none s = (refl, refl)
site_card_entry-refs card none number s = (refl, refl)

add_by_employee-refs :
    (card : Card) (s : Snapshot)
    → ((add_by_employee card s).ag_cards_by_sync_ref ≡ s.ag_cards_by_sync_ref)
      × ((add_by_employee card s).ag_card_by_id ≡ s.ag_card_by_id)
unfolding add_by_employee
add_by_employee-refs card s = ground arith

add_by_ref-ids : (card : Card) (s : Snapshot) → (add_by_ref card s).ag_card_by_id ≡ s.ag_card_by_id
unfolding add_by_ref
add_by_ref-ids card s = ground arith

add_by_ref-refs :
    (ref : String)
    → nonempty ref ≡ true
    → (card : Card) (s : Snapshot)
    → lookup_list ref (add_by_ref card s).ag_cards_by_sync_ref ≡ (
        if carries ref card
        then lookup_list ref s.ag_cards_by_sync_ref ++ card ∷ []
        else lookup_list ref s.ag_cards_by_sync_ref)
unfolding add_by_ref
add_by_ref-refs ref full card s =
    let index = s.ag_cards_by_sync_ref in
    let appended = lookup_list-append_at (ref_of card) ref card index in
    elim (Bool-cases (carries ref card)) [
      | inl e ↦
          let p = (eq_iff (ref_of card) ref).0 e in
          ground (arith, e, appended, ap nonempty p, full, ap (λ k. lookup_list k index) p)
      | inr e ↦ ground (arith, e, appended)
    ]

-- The body of the loop over the cards, in the two indexes.
add_card-refs :
    (ref : String)
    → nonempty ref ≡ true
    → (card : Card) (s : Snapshot)
    → lookup_list ref (add_card card s).ag_cards_by_sync_ref ≡ (
        if carries ref card
        then lookup_list ref s.ag_cards_by_sync_ref ++ card ∷ []
        else lookup_list ref s.ag_cards_by_sync_ref)
unfolding add_card
add_card-refs ref full card s =
    let filed = add_by_id card (card_id card) s in
    let by_ref = add_by_ref card filed in
    ap (lookup_list ref) (site_card_entry-refs card _ _ (add_by_employee card by_ref)).0
    ∙ ap (lookup_list ref) (add_by_employee-refs card by_ref).0
    ∙ add_by_ref-refs ref full card filed
    ∙ ap (λ m. if carries ref card then lookup_list ref m ++ card ∷ [] else lookup_list ref m)
        (add_by_id-refs card (card_id card) s)

add_card-ids :
    (id : String) (card : Card) (s : Snapshot)
    → lookup id (add_card card s).ag_card_by_id
      ≡ (if has_id id card then some card else lookup id s.ag_card_by_id)
unfolding add_card
add_card-ids id card s =
    let filed = add_by_id card (card_id card) s in
    let by_ref = add_by_ref card filed in
    ap (lookup id) (site_card_entry-refs card _ _ (add_by_employee card by_ref)).1
    ∙ ap (lookup id) (add_by_employee-refs card by_ref).1
    ∙ ap (lookup id) (add_by_ref-ids card filed)
    ∙ add_by_id-ids id card (card_id card) s

-- All cards, in the two indexes: those with the reference, in their order, and the last with the id.
add_cards-refs :
    (ref : String)
    → nonempty ref ≡ true
    → (cards : List Card) (s : Snapshot)
    → lookup_list ref (add_cards cards s).ag_cards_by_sync_ref
      ≡ lookup_list ref s.ag_cards_by_sync_ref ++ keep (carries ref) cards
unfolding add_cards keep
add_cards-refs ref full [] s = sym (append-nil _)
add_cards-refs ref full (card ∷ cards) s =
    add_cards-refs ref full cards (add_card card s)
    ∙ ap (λ l. l ++ keep (carries ref) cards) (add_card-refs ref full card s)
    ∙ split (carries ref card) (lookup_list ref s.ag_cards_by_sync_ref) (keep (carries ref) cards)
  where
    split :
        (b : Bool) (old rest : List Card)
        → (if b then old ++ card ∷ [] else old) ++ rest ≡ old ++ (if b then card ∷ rest else rest)
    split true [] rest = refl
    split true (c ∷ old) rest = ap (λ l. c ∷ l) (split true old rest)
    split false old rest = refl

-- The last card of a list that passes a test.
abbrev pub last_by : (Card → Bool) → List Card → Option Card
last_by p [] = none
last_by p (card ∷ cards) = elim (last_by p cards) [
  | some later ↦ some later
  | none ↦ if p card then some card else none
]

-- The last listed card with a row's id, where the row has one.
abbrev pub with_id : Option String → List Card → Option Card
with_id none cards = none
with_id (some id) cards = if nonempty id then last_by (has_id id) cards else none

add_cards-last_by :
    (id : String) (cards : List Card) (s : Snapshot)
    → lookup id (add_cards cards s).ag_card_by_id ≡ (elim (last_by (has_id id) cards) [
      | some card ↦ some card
      | none ↦ lookup id s.ag_card_by_id
    ])
unfolding add_cards
add_cards-last_by id [] s = refl
add_cards-last_by id (card ∷ cards) s =
    ground (arith, add_cards-last_by id cards (add_card card s), add_card-ids id card s)

add_cards-ids :
    (id : String) (cards : List Card) (s : Snapshot)
    → (lookup id (add_cards cards s).ag_card_by_id ≡ lookup id s.ag_card_by_id)
      ⊎ ((card : Card) × Memᴰ card cards
          × (has_id id card ≡ true)
          × (lookup id (add_cards cards s).ag_card_by_id ≡ some card))
unfolding add_cards
add_cards-ids id [] s = inl refl
add_cards-ids id (card ∷ cards) s = elim (add_cards-ids id cards (add_card card s)) [
  | inr (c, m, own, e) ↦ inr (c, Memᴰ.tail m, own, e)
  | inl e ↦ elim (Bool-cases (has_id id card)) [
    | inl own ↦ inr (card, Memᴰ.head refl, own, e ∙ ground (arith, add_card-ids id card s))
    | inr other ↦ inl (e ∙ ground (arith, add_card-ids id card s))
  ]
]

-- A card that stands behind a row: it is listed, and has the row's reference or its id.
pub record IsOwn (cards : List Card) (ref : String) (ag_card_id : Option String) (card : Card)
    : Type 0 where
  pub listed : Memᴰ card cards
  pub own : (ref_of card ≡ ref) ⊎ (card_id card ≡ ag_card_id)

abbrev pub one_or_none : Option Card → List Card
one_or_none none = []
one_or_none (some card) = card ∷ []

has_id-true : (id : String) (own : Option String) → is_id id own ≡ true → own ≡ some id
has_id-true id none h = cc
has_id-true id (some own) h = ap some ((eq_iff own id).0 h)

keep-IsOwn :
    (ref : String) (id : Option String) (cards : List Card)
    → All (IsOwn cards ref id) (keep (carries ref) cards)
unfolding keep
keep-IsOwn ref id [] = tt
keep-IsOwn ref id (card ∷ cards) = elim (Bool-cases (carries ref card)) [
  | inl e ↦ rw e (
    record { listed = Memᴰ.head refl; own = inl ((eq_iff (ref_of card) ref).0 e) },
    All-map _ _ later (keep (carries ref) cards) (keep-IsOwn ref id cards),
  )
  | inr e ↦ rw e (All-map _ _ later (keep (carries ref) cards) (keep-IsOwn ref id cards))
]
  where
    later : (c : Card) → IsOwn cards ref id c → IsOwn (card ∷ cards) ref id c
    later c h = record { listed = Memᴰ.tail h.listed; own = h.own }

module _ (cards : List Card) (s : Snapshot) (ref : String) (no_refs : s.ag_cards_by_sync_ref ≡ [])
    (no_ids : s.ag_card_by_id ≡ []) (full : nonempty ref ≡ true) where
  resolve_ag_cards-by_ref :
      (id : Option String) (person credential : String)
      → resolve_ag_cards (add_cards cards s) id person credential ref ≡ (
          if is_nil (keep (carries ref) cards)
          then one_or_none (card_by_id (add_cards cards s) id)
          else keep (carries ref) cards)
  unfolding resolve_ag_cards
  resolve_ag_cards-by_ref id person credential =
      ground
        (arith, full, add_cards-refs ref full cards s, ap (lookup_list ref) no_refs, nothing ref)
    where
      nothing : (r : String) → lookup_list {V = Card} r [] ≡ []
      nothing r = unfold lookup_list lookup in refl

  card_by_id-with_id : (id : Option String) → card_by_id (add_cards cards s) id ≡ with_id id cards
  unfolding card_by_id lookup
  card_by_id-with_id none = refl
  card_by_id-with_id (some id) = ground (arith, add_cards-last_by id cards s, ap (lookup id) no_ids)

  card_by_id-IsOwn :
      (id : Option String)
      → All (IsOwn cards ref id) (one_or_none (card_by_id (add_cards cards s) id))
  unfolding card_by_id lookup
  card_by_id-IsOwn none = tt
  card_by_id-IsOwn (some id) = elim (Bool-cases (nonempty id)) [
    | inr e ↦ rw e tt
    | inl e ↦ rw e (elim (add_cards-ids id cards s) [
      | inl p ↦ rw (p ∙ ap (lookup id) no_ids) tt
      | inr (c, m, own, p) ↦
          rw p (record { listed = m; own = inr (has_id-true id (card_id c) own) }, tt)
    ])
  ]

-- If the indexes by reference and by id are empty before the listed cards are filed, then for a row
-- with a reference `resolve_ag_cards` gives the listed cards that carry the reference, in their
-- order, and if there are none the last listed card with the row's id, if there is one. Each card it gives is
-- listed and has the row's reference or its id, whatever the person and credential are.
pub resolve_ag_cards-IsOwn :
    (cards : List Card) (s : Snapshot) (id : Option String) (person credential ref : String)
    → s.ag_cards_by_sync_ref ≡ []
    → s.ag_card_by_id ≡ []
    → nonempty ref ≡ true
    → let found = resolve_ag_cards (add_cards cards s) id person credential ref in
      All (IsOwn cards ref id) found
      × (found ≡ (
          if is_nil (keep (carries ref) cards)
          then one_or_none (with_id id cards)
          else keep (carries ref) cards))
resolve_ag_cards-IsOwn cards s id person credential ref no_refs no_ids full =
    let e = resolve_ag_cards-by_ref cards s ref no_refs no_ids full id person credential in
    let same = card_by_id-with_id cards s ref no_refs no_ids full id in
    (
      rw e (either_way (is_nil (keep (carries ref) cards))),
      e
          ∙ ap
              (λ o.
                if is_nil (keep (carries ref) cards)
                then one_or_none o
                else keep (carries ref) cards)
              same,
    )
  where
    either_way :
        (b : Bool)
        → All (IsOwn cards ref id) (
            if b then one_or_none (card_by_id (add_cards cards s) id) else keep (carries ref) cards)
    either_way true = card_by_id-IsOwn cards s ref no_refs no_ids full id
    either_way false = keep-IsOwn ref id cards
