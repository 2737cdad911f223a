-- ===== src/AccessGrid/Pages.antt =====
-- `list_cards` (src/agsync/ag/__init__.py): every pass of a template, page after page. The loop has
-- no bound of its own, so it takes fuel, and `none` is a loop that the fuel does not end.
use integration_hub.Prelude.{
  ℕ, zero, suc, ◌+◌, Bool, ◌||◌, Option, none, some, List, [], ◌++◌, if◌then◌else◌, leb, nat_eqb,
  is_nil,
}

-- A page of the answer: its keys, and `total_pages`, 0 where it is absent.
pub record Page {ℓ} (A : Type ℓ) : Type ℓ where
  pub keys : List A
  pub total_pages : ℕ

-- `int(response.get("total_pages") or 1)`
abbrev total {ℓ} : {A : Type ℓ} → Page A → ℕ
total page = if nat_eqb page.total_pages 0 then 1 else page.total_pages

module _ {ℓ} {A : Type ℓ} (get : ℕ → Page A) where
  -- Whether the loop returns after a page.
  abbrev pub is_last : ℕ → Bool
  is_last page = is_nil ((get page).keys) || leb (total (get page)) page

  unfoldable pub list_from : ℕ → ℕ → List A → Option (List A)
  list_from zero page cards = none
  list_from (suc fuel) page cards =
      let rest = list_from fuel (page + 1) (cards ++ (get page).keys) in
      if is_last page then some (cards ++ (get page).keys) else rest

  -- `list_cards`
  unfoldable pub list_cards : ℕ → Option (List A)
  unfolding list_from
  list_cards fuel = list_from fuel 1 []
