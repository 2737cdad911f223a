-- ===== src/Cdvi/Edits.antt =====
-- About the card that a status is written to (src/agsync/lib/pacs/cdvi/adapter.py).
use Prim.Native.String.{◌++◌ as str_append}
use Prim.Native.String.append
use mathlib.Core.Path.{subst}
use integration_hub.Prelude.{
  ℕ, ◌/◌, ◌%◌, ◌≡◌, refl, sym, ap, ◌∙◌, String, Bool, true, false, All, Option, none, some, List,
  [], ◌∷◌, if◌then◌else◌, ◌==◌, string_eq, nonempty, lookup, insert, lookup-insert, eq_iff, arith,
}
use integration_hub.Pacs.{CredentialStatus, active, suspended, awaiting_install, unknown}
use integration_hub.Cdvi.Hex.{int16}
use integration_hub.Cdvi.Cipher.{codes}
use integration_hub.Cdvi.Cards.{
  Card, identity_of, number_of, add_by_identity, card_edit, card_echo_fields, echo, slot_id,
  status_edit, decode_card_number, credential_identity, decimal,
}

-- The last card of a table that has an identity.
abbrev pub last_holder : String → List Card → Option Card
last_holder identity [] = none
last_holder identity (card ∷ cards) = elim (last_holder identity cards) [
  | some later ↦ some later
  | none ↦ if identity_of card == identity then some card else none
]

lookup-add_by_identity :
    (identity : String) (table : List (String × Card)) (cards : List Card)
    → lookup identity (add_by_identity table cards) ≡ (elim (last_holder identity cards) [
      | some later ↦ some later
      | none ↦ lookup identity table
    ])
unfolding add_by_identity
lookup-add_by_identity identity table [] = refl
lookup-add_by_identity identity table (card ∷ cards) = ground (
  arith,
  lookup-add_by_identity identity (insert (identity_of card) card table) cards,
  lookup-insert table (identity_of card) identity card,
)

abbrev edit_of : CredentialStatus → Option Card → Option (List (String × String))
edit_of active (some card) = some (card_edit card true)
edit_of suspended (some card) = some (card_edit card false)
edit_of _ _ = none

-- What `echo` makes of a field, before which `o` stood under it.
abbrev echoed : Card → String → List String → Option String → Option String
echoed card field [] o = o
echoed card field (key ∷ keys) o = echoed card field keys (
    if str_append "T_card_" key == field
    then elim (lookup key card.attributes) [ none ↦ o | some value ↦ some value ]
    else o)

lookup-echo :
    (card : Card) (field : String) (keys : List String) (post : List (String × String))
    → lookup field (echo card keys post) ≡ echoed card field keys (lookup field post)
unfolding echo
lookup-echo card field [] post = refl
lookup-echo card field (key ∷ keys) post =
    lookup-echo card field keys _ ∙ ap (echoed card field keys) (step (lookup key card.attributes))
  where
    step :
        (value : Option String)
        → lookup field
            (elim value [ none ↦ post | some v ↦ insert (str_append "T_card_" key) v post ])
          ≡ (if str_append "T_card_" key == field
              then elim value [ none ↦ lookup field post | some v ↦ some v ]
              else lookup field post)
    step none = ground arith
    step (some v) = lookup-insert post (str_append "T_card_" key) field v

-- The fields of the card that go back to the device as they were read.
abbrev pub echoed_fields : List (String × String)
echoed_fields =
    ("T_card_name", "name")
    ∷ ("T_card_format", "format")
    ∷ ("T_card_number", "number")
    ∷ ("T_card_program", "program")
    ∷ ("T_card_stolen", "stolen")
    ∷ ("T_card_lost", "lost")
    ∷ ("T_card_dswipe", "dswipe")
    ∷ ("T_card_act_utc", "act_utc")
    ∷ ("T_card_exp_utc", "exp_utc")
    ∷ ("T_card_ld_act", "ld_act")
    ∷ ("T_card_ld_deact", "ld_deact")
    ∷ ("T_card_ld_over", "ld_over")
    ∷ ("T_card_ld_ack", "ld_ack")
    ∷ []

-- An edit that writes a card back with nothing changed but the box that enables it.
pub record Writes (card : Card) (enabled : String) (edit : List (String × String)) : Type 0 where
  pub enables : lookup "T_card_en" edit ≡ some enabled
  pub command : lookup "T_card_cmd" edit ≡ some "add"
  pub slot : lookup "T_card_id" edit ≡ some (slot_id card)
  pub echoes :
      All (λ (f : String × String). lookup f.0 edit ≡ lookup f.1 card.attributes) echoed_fields

as_it_was : (o : Option String) → elim o [ none ↦ none | some value ↦ some value ] ≡ o
as_it_was none = refl
as_it_was (some value) = refl

module _ (card : Card) (on : Bool) where
  lookup-card_edit :
      (field : String)
      → lookup field (card_edit card on) ≡ (
          if "T_card_en" == field
          then some (if on then "1" else "0")
          else echoed card field card_echo_fields
              (lookup field (("T_card_cmd", "add") ∷ ("T_card_id", slot_id card) ∷ [])))
  unfolding card_edit
  lookup-card_edit field =
      lookup-insert _ "T_card_en" field _
      ∙ ap (λ o. if "T_card_en" == field then some (if on then "1" else "0") else o)
          (lookup-echo card field card_echo_fields _)

  was :
      (key : String)
      → elim (lookup key card.attributes) [ none ↦ none | some v ↦ some v ]
        ≡ lookup key card.attributes
  was key = as_it_was (lookup key card.attributes)

  card_edit-Writes : Writes card (if on then "1" else "0") (card_edit card on)
  unfolding lookup
  card_edit-Writes = record {
    enables = lookup-card_edit "T_card_en";
    command = lookup-card_edit "T_card_cmd";
    slot = lookup-card_edit "T_card_id";
    echoes = (
      lookup-card_edit "T_card_name" ∙ was "name",
      (
        lookup-card_edit "T_card_format" ∙ was "format",
        (
          lookup-card_edit "T_card_number" ∙ was "number",
          (
            lookup-card_edit "T_card_program" ∙ was "program",
            (
              lookup-card_edit "T_card_stolen" ∙ was "stolen",
              (
                lookup-card_edit "T_card_lost" ∙ was "lost",
                (
                  lookup-card_edit "T_card_dswipe" ∙ was "dswipe",
                  (
                    lookup-card_edit "T_card_act_utc" ∙ was "act_utc",
                    (
                      lookup-card_edit "T_card_exp_utc" ∙ was "exp_utc",
                      (
                        lookup-card_edit "T_card_ld_act" ∙ was "ld_act",
                        (
                          lookup-card_edit "T_card_ld_deact" ∙ was "ld_deact",
                          (
                            lookup-card_edit "T_card_ld_over" ∙ was "ld_over",
                            (lookup-card_edit "T_card_ld_ack" ∙ was "ld_ack", tt),
                          ),
                        ),
                      ),
                    ),
                  ),
                ),
              ),
            ),
          ),
        ),
      ),
    );
  }

-- What a status write sends, given the card that holds the identity.
abbrev pub Sends : CredentialStatus → Option Card → Option (List (String × String)) → Type 0
Sends active (some card) (some edit) = Writes card "1" edit
Sends suspended (some card) (some edit) = Writes card "0" edit
Sends active (some card) none = ⊥
Sends suspended (some card) none = ⊥
Sends _ _ sent = sent ≡ none

edit_of-Sends : (status : CredentialStatus) (o : Option Card) → Sends status o (edit_of status o)
edit_of-Sends active (some card) = card_edit-Writes card true
edit_of-Sends suspended (some card) = card_edit-Writes card false
edit_of-Sends active none = refl
edit_of-Sends suspended none = refl
edit_of-Sends awaiting_install none = refl
edit_of-Sends awaiting_install (some card) = refl
edit_of-Sends unknown none = refl
edit_of-Sends unknown (some card) = refl

status_edit-edit_of :
    (table : List Card) (identity : String) (status : CredentialStatus)
    → status_edit table identity status ≡ edit_of status (last_holder identity table)
unfolding status_edit lookup
status_edit-edit_of table identity active = ground (arith, lookup-add_by_identity identity [] table)
status_edit-edit_of table identity suspended =
    ground (arith, lookup-add_by_identity identity [] table)
status_edit-edit_of table identity awaiting_install = ground arith
status_edit-edit_of table identity unknown = ground arith

-- A status write edits one card, the last in the table that has the identity asked for: it enables
-- the card for ACTIVE and disables it for SUSPENDED, and writes its other fields back as they were
-- read. Without such a card, and for any other status, nothing is sent.
pub status_edit-last_holder :
    (table : List Card) (identity : String) (status : CredentialStatus)
    → Sends status (last_holder identity table) (status_edit table identity status)
status_edit-last_holder table identity status =
    subst (Sends status (last_holder identity table))
      (sym (status_edit-edit_of table identity status))
      (edit_of-Sends status (last_holder identity table))

nonempty-append : (s t : String) → nonempty t ≡ true → nonempty (str_append s t) ≡ true
nonempty-append String.[] t h = rw (append.nil t) h
nonempty-append (String.◌∷◌ c s) t h = rw (append.cons c s t) refl

nonempty-decimal : (n : ℕ) → nonempty (decimal n) ≡ true
unfolding decimal
nonempty-decimal n = nonempty-append _ _ refl

decode_card_number-low :
    (number : String) (value : ℕ)
    → int16 (codes number) ≡ some value
    → decode_card_number number ≡ (decimal (value / 65536 % 256), decimal (value % 65536))
unfolding decode_card_number
decode_card_number-low number value h = cc h

identity_of-low :
    (card : Card) (value : ℕ)
    → int16 (codes (number_of card)) ≡ some value
    → identity_of card
      ≡ str_append (decimal (value / 65536 % 256)) (str_append ":" (decimal (value % 65536)))
unfolding identity_of credential_identity
identity_of-low card value h = ground (
  arith,
  decode_card_number-low (number_of card) value h,
  nonempty-decimal (value / 65536 % 256),
  nonempty-decimal (value % 65536),
)

-- Two cards whose numbers agree in their 24 low bits have one identity, so that a suspension of the
-- one that is earlier in the table disables the other.
pub status_edit-collision :
    (earlier later : Card) (first second : ℕ)
    → int16 (codes (number_of earlier)) ≡ some first
    → int16 (codes (number_of later)) ≡ some second
    → first % 16777216 ≡ second % 16777216
    → (identity_of earlier ≡ identity_of later)
      × (status_edit (earlier ∷ later ∷ []) (identity_of earlier) suspended
          ≡ some (card_edit later false))
status_edit-collision earlier later first second p q same =
    let high : first / 65536 % 256 ≡ second / 65536 % 256 = omega arith in
    let low : first % 65536 ≡ second % 65536 = omega arith in
    let alike : identity_of earlier ≡ identity_of later =
      identity_of-low earlier first p
      ∙ (λ i. str_append (decimal (high i)) (str_append ":" (decimal (low i))))
      ∙ sym (identity_of-low later second q) in
    (
      alike,
      status_edit-edit_of (earlier ∷ later ∷ []) (identity_of earlier) suspended
          ∙ ground (arith, eq_iff (identity_of later) (identity_of earlier)),
    )
