-- ===== src/Millennium/Records.antt =====
-- About what `PacsCards.record` leaves for `get` and `forget` to find
-- (src/agsync/lib/pacs/millennium_ultra/pacs_cards.py).
use mathlib.Core.List.{append-nil}
use mathlib.Core.Path.{sym}
use integration_hub.Prelude.{
  String, Bool, false, ◌&&◌, ◌≡◌, refl, ap, ◌∙◌, List, [], ◌∷◌, ◌++◌, map, if◌then◌else◌, ◌==◌,
  string_eq, leb, keep, eq_iff, arith, Bool-cases, inl, inr,
}
use integration_hub.Millennium.Cardholders.{Entry}
use integration_hub.Millennium.Ledger.{
  Row, Table, has_key, by_slot, order_by, insert_row, read_row, new_row, get, forget, recorded,
  record_cards,
}

-- Entries in the order of their slots, equal slots as they come.
pub put_by_slot : Entry → List Entry → List Entry
put_by_slot e [] = e ∷ []
put_by_slot e (x ∷ xs) = if leb e.slot x.slot then e ∷ x ∷ xs else x ∷ put_by_slot e xs

pub sort_by_slot : List Entry → List Entry
sort_by_slot [] = []
sort_by_slot (e ∷ es) = put_by_slot e (sort_by_slot es)

-- A key's rows, after those of a key are deleted.
keep-append :
    (p : Row → Bool) (rows more : Table) → keep p (rows ++ more) ≡ keep p rows ++ keep p more
unfolding keep
keep-append p [] more = refl
keep-append p (r ∷ rows) more = ground (arith, keep-append p rows more)

module _ (person credential : String) where
  keep-forget_own :
      (table : Table) → keep (has_key person credential) (forget person credential table) ≡ []
  unfolding forget keep
  keep-forget_own [] = refl
  keep-forget_own (r ∷ table) = ground (arith, keep-forget_own table)

  -- Another key.
  module _ (asked other : String) (differs : (person == asked && credential == other) ≡ false) where
    keep-forget_other :
        (table : Table)
        → keep (has_key asked other) (forget person credential table)
          ≡ keep (has_key asked other) table
    unfolding forget keep has_key
    keep-forget_other [] = refl
    keep-forget_other (r ∷ table) = ground (
      arith,
      keep-forget_other table,
      eq_iff r.person person,
      eq_iff r.person asked,
      eq_iff r.credential credential,
      eq_iff r.credential other,
      eq_iff person asked,
      eq_iff credential other,
    )

module _ (decrypt : String → String) where
  get-forget_own :
      (person credential : String) (table : Table)
      → get decrypt person credential (forget person credential table) ≡ []
  unfolding get order_by
  get-forget_own person credential table =
      ap (λ rows. map (read_row decrypt) (order_by by_slot rows))
        (keep-forget_own person credential table)

  get-forget_other :
      (person credential asked other : String) (table : Table)
      → (person == asked && credential == other) ≡ false
      → get decrypt asked other (forget person credential table) ≡ get decrypt asked other table
  unfolding get
  get-forget_other person credential asked other table h =
      ap (λ rows. map (read_row decrypt) (order_by by_slot rows))
        (keep-forget_other person credential asked other h table)

module _ (encrypt decrypt : String → String)
    (decrypts : (t : String) → decrypt (encrypt t) ≡ t) where
  keep-new_row :
      (person credential : String) (entries : List Entry)
      → keep (has_key person credential) (map (new_row encrypt person credential) entries)
        ≡ map (new_row encrypt person credential) entries
  unfolding keep new_row has_key
  keep-new_row person credential [] = refl
  keep-new_row person credential (e ∷ entries) = ground (
    arith,
    keep-new_row person credential entries,
    eq_iff person person,
    eq_iff credential credential,
  )

  read-new_row :
      (person credential : String) (e : Entry)
      → read_row decrypt (new_row encrypt person credential e) ≡ e
  unfolding read_row new_row
  read-new_row person credential e = cc (decrypts e.facility_code, decrypts e.card_number)

  map-insert_row :
      (person credential : String) (e : Entry) (rows : Table)
      → map (read_row decrypt) (insert_row by_slot (new_row encrypt person credential e) rows)
        ≡ put_by_slot e (map (read_row decrypt) rows)
  unfolding insert_row put_by_slot read_row new_row
  map-insert_row person credential e [] = cc (decrypts e.facility_code, decrypts e.card_number)
  map-insert_row person credential e (r ∷ rows) = ground (
    arith,
    map-insert_row person credential e rows,
    decrypts e.facility_code,
    decrypts e.card_number,
  )

  map-order_by :
      (person credential : String) (entries : List Entry)
      → map (read_row decrypt) (order_by by_slot (map (new_row encrypt person credential) entries))
        ≡ sort_by_slot entries
  unfolding order_by sort_by_slot
  map-order_by person credential [] = refl
  map-order_by person credential (e ∷ entries) =
      map-insert_row person credential e _
      ∙ ap (put_by_slot e) (map-order_by person credential entries)

  get-record_own :
      (person credential : String) (entries : List Entry) (table : Table)
      → get decrypt person credential (record_cards encrypt decrypt person credential entries table)
        ≡ sort_by_slot (recorded (get decrypt person credential table) entries)
  unfolding get record_cards
  get-record_own person credential entries table =
      let stored = recorded (get decrypt person credential table) entries in
      ap (λ rows. map (read_row decrypt) (order_by by_slot rows))
        (keep-append (has_key person credential) (forget person credential table) _
          ∙ ap
              (λ rows.
                rows
                ++ keep (has_key person credential)
                    (map (new_row encrypt person credential) stored))
              (keep-forget_own person credential table)
          ∙ keep-new_row person credential stored)
      ∙ map-order_by person credential stored

  keep-new_row_other :
      (person credential asked other : String) (entries : List Entry)
      → (person == asked && credential == other) ≡ false
      → keep (has_key asked other) (map (new_row encrypt person credential) entries) ≡ []
  unfolding keep new_row has_key
  keep-new_row_other person credential asked other [] h = refl
  keep-new_row_other person credential asked other (e ∷ entries) h =
      ground (arith, keep-new_row_other person credential asked other entries h)

  get-record_other :
      (person credential asked other : String) (entries : List Entry) (table : Table)
      → (person == asked && credential == other) ≡ false
      → get decrypt asked other (record_cards encrypt decrypt person credential entries table)
        ≡ get decrypt asked other table
  unfolding get record_cards
  get-record_other person credential asked other entries table h =
      let stored = recorded (get decrypt person credential table) entries in
      ap (λ rows. map (read_row decrypt) (order_by by_slot rows))
        (keep-append (has_key asked other) (forget person credential table) _
          ∙ ap (λ rows. keep (has_key asked other) (forget person credential table) ++ rows)
              (keep-new_row_other person credential asked other stored h)
          ∙ append-nil _
          ∙ keep-forget_other person credential asked other h table)

  -- After a record, the cards of the credential recorded are what `recorded` makes of the cards given
  -- and of those before, by slot; every other credential has the cards it had. After `forget` the
  -- credential has none, and every other credential the cards it had.
  get-record_forget :
      (person credential asked other : String) (entries : List Entry) (table : Table)
      → (get decrypt asked other (record_cards encrypt decrypt person credential entries table) ≡ (
          if person == asked && credential == other
          then sort_by_slot (recorded (get decrypt person credential table) entries)
          else get decrypt asked other table))
        × (get decrypt asked other (forget person credential table) ≡ (
            if person == asked && credential == other then [] else get decrypt asked other table))
  get-record_forget person credential asked other entries table =
      elim (Bool-cases (person == asked && credential == other)) [
        | inl own ↦
            let a : person ≡ asked = ground (arith, eq_iff person asked) in
            let b : credential ≡ other = ground (arith, eq_iff credential other) in
            (
              rw (own, sym a, sym b) (get-record_own person credential entries table),
              rw (own, sym a, sym b) (get-forget_own decrypt person credential table),
            )
        | inr h ↦ (
          rw h (get-record_other person credential asked other entries table h),
          rw h (get-forget_other decrypt person credential asked other table h),
        )
      ]
