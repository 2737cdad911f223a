-- ===== src/Millennium/Ledger.antt =====
-- `PacsCards`: the table `pacs_cards` (src/agsync/lib/pacs/millennium_ultra/pacs_cards.py). A table is
-- the list of its rows. A key "person:credential" of the source is the pair of the two, which it
-- stands for where a person's id holds no colon.
use Prim.Native.String.{compare}
use Prim.Native.Nat.{Ordering}
use integration_hub.Prelude.{
  ℕ, String, Bool, true, false, not, ◌&&◌, Option, none, some, List, [], ◌∷◌, ◌++◌, map,
  if◌then◌else◌, ◌==◌, string_eq, pair_eq, leb, lookup, insert, append_at, keep,
}
use integration_hub.Millennium.Cardholders.{Entry, Pending, CardKey, entry_card}

-- A row; `status` is dormant or live.
pub record Row : Type 0 where
  pub person : String
  pub credential : String
  pub slot : ℕ
  pub facility_code : String
  pub card_number : String
  pub active : Option Bool
  pub pending : Option Pending
  pub dormant : Bool

abbrev pub Table : Type 0
Table = List Row

unfoldable pub has_key : String → String → Row → Bool
has_key person credential r = r.person == person && r.credential == credential

unfoldable pub insert_row : (Row → Row → Bool) → Row → Table → Table
insert_row before r [] = r ∷ []
insert_row before r (s ∷ rows) = if before r s then r ∷ s ∷ rows else s ∷ insert_row before r rows

-- `ORDER BY`
unfoldable pub order_by : (Row → Row → Bool) → Table → Table
order_by before [] = []
order_by before (r ∷ rows) = insert_row before r (order_by before rows)

abbrev is_at_most : String → String → Bool
is_at_most a b = elim (compare a b) [ Ordering.gt ↦ false | _ ↦ true ]

abbrev pub by_slot : Row → Row → Bool
by_slot r s = leb r.slot s.slot

abbrev pub by_credential : Row → Row → Bool
by_credential r s = is_at_most r.credential s.credential

abbrev pub by_person : Row → Row → Bool
by_person r s = is_at_most r.person s.person

-- The last value of each card is kept, at the place of the first.
unfoldable pub dedupe : List (CardKey × Entry) → List Entry → List (CardKey × Entry)
dedupe kept [] = kept
dedupe kept (e ∷ entries) = dedupe (insert (entry_card e) e kept) entries

-- The Active boxes known of the cards recorded before, a later one replacing an earlier.
unfoldable pub add_known : List (CardKey × Bool) → List Entry → List (CardKey × Bool)
add_known known [] = known
add_known known (e ∷ entries) =
    add_known (elim e.active [ none ↦ known | some box ↦ insert (entry_card e) box known ]) entries

-- `entry["active"] if "active" in entry else known.get(card)`
unfoldable pub fill_active : List (CardKey × Bool) → CardKey × Entry → Entry
fill_active known (card, e) = record e {
  active = elim e.active [ none ↦ lookup card known | some box ↦ some box ];
}

-- `DELETE … WHERE` the key
unfoldable pub forget : String → String → Table → Table
forget person credential table = keep (λ r. not (has_key person credential r)) table

-- The entries that `record` stores.
unfoldable pub recorded : List Entry → List Entry → List Entry
recorded before entries = map (fill_active (add_known [] before)) (dedupe [] entries)

unfoldable pub new_row : (String → String) → String → String → Entry → Row
new_row encrypt person credential e = record {
  person = person;
  credential = credential;
  slot = e.slot;
  facility_code = encrypt e.facility_code;
  card_number = encrypt e.card_number;
  active = e.active;
  pending = e.pending;
  dormant = e.dormant;
}

-- Fernet, under a key that does not change, is a parameter.
module _ (decrypt : String → String) where
  unfoldable pub read_row : Row → Entry
  read_row r = record {
    slot = r.slot;
    facility_code = decrypt r.facility_code;
    card_number = decrypt r.card_number;
    active = r.active;
    pending = r.pending;
    dormant = r.dormant;
  }

  unfoldable pub get : String → String → Table → List Entry
  get person credential table =
      map read_row (order_by by_slot (keep (has_key person credential) table))

  group_by :
      (Row → String × String)
      → List ((String × String) × List Entry)
      → Table
      → List ((String × String) × List Entry)
  group_by key groups [] = groups
  group_by key groups (r ∷ rows) = group_by key (append_at (key r) (read_row r) groups) rows

  -- `all`, under the pair of ids.
  unfoldable pub all : Table → List ((String × String) × List Entry)
  unfolding group_by
  all table =
      group_by (λ r. (r.person, r.credential)) []
        (order_by by_person (order_by by_credential (order_by by_slot table)))

  -- `entries_for_person`, each under the person's id and the credential's.
  unfoldable pub entries_for_person : String → Table → List ((String × String) × List Entry)
  unfolding group_by
  entries_for_person person table =
      group_by (λ r. (r.person, r.credential)) []
        (order_by by_credential (order_by by_slot (keep (λ r. r.person == person) table)))

unfoldable pub record_cards :
    (String → String) → (String → String) → String → String → List Entry → Table → Table
record_cards encrypt decrypt person credential entries table =
    forget person credential table
    ++ map (new_row encrypt person credential)
        (recorded (get decrypt person credential table) entries)
