-- ===== src/Tests/Edges.antt =====
-- The theorems about the CDVI client, the launches, the dry-run switch and the status reports, at
-- concrete inputs.
use integration_hub.Prelude.{
  ℕ, ◌+◌, ◌≤◌, ◌≡◌, refl, String, true, false, not, ◌&&◌, ◌||◌, none, some, List, [], ◌∷◌, is_nil,
  is_some, lookup, any, ◌==◌, string_eq, All, nonempty, if◌then◌else◌, arith,
}
use integration_hub.Pacs.{suspended}
use integration_hub.AccessGrid.Pages.{Page, list_cards}
use integration_hub.AccessGrid.Ends
use integration_hub.AccessGrid.Ends.{list_cards-Ends}
use integration_hub.Cdvi.Hex.{int16}
use integration_hub.Cdvi.Cipher.{codes, encrypt_payload, decrypt_payload}
use integration_hub.Cdvi.RoundTrip.{decrypt_payload-encrypt_payload}
use integration_hub.Cdvi.Cards.{Card, identity_of, status_edit, card_edit}
use integration_hub.Cdvi.Edits.{status_edit-last_holder, status_edit-collision, Sends, last_holder}
use integration_hub.Cdvi.Pages.{paginate}
use integration_hub.Cdvi.Listing.{pages_from, paginate-pages_from}
use integration_hub.Connect.{Site, works, begin, claim_launch, callback, Request}
use integration_hub.Connect.Once.{given, kept, begun, closed, launches_once}
use integration_hub.DryRunSwitch.{Switch, active, set_active, is_dry, fresh, asks, active-is_dry}
use integration_hub.Status.Reporter.{
  at_least_zero, new_reporter, rejected, answered, advised, Config, below_zero,
}
use integration_hub.Status.Waits.{Due, InBounds, waits, reporter_waits}
use integration_hub.Status.Payload.{report_conditions, report_conditions-nil}
use integration_hub.Engine.{initial_status}
use integration_hub.Tests.Data.{issued}

abbrev session : List ℕ
session = codes "1A2B"

abbrev command : List ℕ
command = codes "T_card_cmd=add"

decrypt_payload-encrypt_payload_example :
    (body : List ℕ) × (encrypt_payload session command ≡ some (some body))
    × (decrypt_payload (λ bytes. bytes) session body ≡ some (some command))
decrypt_payload-encrypt_payload_example =
    decrypt_payload-encrypt_payload (λ bytes. bytes) (λ bytes h. refl) session command (omega arith)
      refl (omega arith)

abbrev card_in : String → String → Card
card_in slot number = record {
  attributes = ("id", slot) ∷ ("number", number) ∷ ("en", "1") ∷ [];
  user = some (some "7");
}

status_edit-last_holder_example :
    Sends suspended
      (last_holder "10:4660" (card_in "1" "0A1234" ∷ card_in "2" "0A1234" ∷ []))
      (status_edit (card_in "1" "0A1234" ∷ card_in "2" "0A1234" ∷ []) "10:4660" suspended)
status_edit-last_holder_example =
    status_edit-last_holder (card_in "1" "0A1234" ∷ card_in "2" "0A1234" ∷ []) "10:4660" suspended

status_edit-collision_example :
    (identity_of (card_in "1" "0A1234") ≡ identity_of (card_in "2" "10A1234"))
    × (status_edit
          (card_in "1" "0A1234" ∷ card_in "2" "10A1234" ∷ [])
          (identity_of (card_in "1" "0A1234"))
          suspended
        ≡ some (card_edit (card_in "2" "10A1234") false))
unfolding int16 lookup
status_edit-collision_example =
    status_edit-collision (card_in "1" "0A1234") (card_in "2" "10A1234") 660020 17437236 refl refl
      (omega arith)

abbrev one_short_page : ℕ → List ℕ
one_short_page page = page ∷ 7 ∷ []

paginate-pages_from_example : paginate one_short_page ≡ pages_from one_short_page 1 0
paginate-pages_from_example =
    paginate-pages_from one_short_page 0 (λ m below. elim below [ ]) (omega arith) (omega arith)

abbrev hub : Site
hub = record {
  login_url = "https://pacs.example/login";
  required_cookie = some "auth";
  unseal = λ key payload. if nonempty key then some (("auth", payload) ∷ []) else none;
  validate = λ cookies. works "session";
}

abbrev hand_off : List (ℕ × Request)
hand_off =
    (0, begin "a" "k")
    ∷ (5, claim_launch "a")
    ∷ (6, claim_launch "a")
    ∷ (9, callback "a" "x")
    ∷ (10, callback "a" "x")
    ∷ []

launches_once_example :
    (given hub "a" hand_off closed ≤ begun hub "a" hand_off)
    × (kept hub "a" hand_off closed ≤ given hub "a" hand_off closed)
launches_once_example = launches_once hub "a" hand_off (λ sealed. refl)

abbrev unset : Switch
unset = record { cached = none; stored = some " False" }

active-is_dry_example :
    ((active 9000 true ((active 0 true unset).1)).0 ≡ is_dry ((active 0 true unset).1.stored))
    × ((active 9000 true (set_active true ((active 0 true unset).1))).0 ≡ true)
    × ((is_dry ((active 0 true unset).1.stored)
          && not ((active 9000 false ((active 0 true unset).1)).0))
        ≡ false)
active-is_dry_example = active-is_dry (asks 0 true (fresh (some " False"))) 9000 false true

abbrev account : Config
account = record { account_id = "acct"; api_secret = "key" }

abbrev reports : List Due
reports =
    (0, some (some account), rejected 429 (some (at_least_zero 1000000)))
    ∷ (1000000, some (some account), rejected 503 none)
    ∷ (1030000, some (some account), answered (advised below_zero))
    ∷ []

reporter_waits_example : All InBounds (waits reports (new_reporter (at_least_zero 1)))
reporter_waits_example = reporter_waits (at_least_zero 1) reports

report_conditions-nil_example :
    is_nil (report_conditions true true (issued ∷ []) initial_status) ≡ (
      (not true || (not initial_status.reconnect_required && initial_status.pacs_reachable))
      && (initial_status.ag_reachable
          && ((not true || not initial_status.paused)
              && (is_some initial_status.last_cycle
                  && not (any (λ r. r.status == "failed") (issued ∷ []))))))
report_conditions-nil_example = report_conditions-nil true true (issued ∷ []) initial_status

abbrev two_pages : ℕ → Page ℕ
two_pages page = record { keys = page ∷ 7 ∷ []; total_pages = 2 }

list_cards-Ends_example :
    (n : ℕ) × (list_cards two_pages 3 ≡ some (Ends.pages_from two_pages 1 n))
    × (Ends.is_end two_pages (1 + n) ≡ true)
    × (Ends.none_ends two_pages 1 n ≡ true)
    × (n ≤ 2)
list_cards-Ends_example = list_cards-Ends two_pages 2 (λ page. omega arith)
