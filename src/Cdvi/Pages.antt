-- ===== src/Cdvi/Pages.antt =====
-- `_paginate` (src/agsync/lib/pacs/cdvi/client.py): a listing, page after page.
use integration_hub.Prelude.{ℕ, zero, suc, List, [], ◌++◌, if◌then◌else◌, ltb, length, is_nil}

-- `MAX_PAGES` and `PAGE_RECORDS_HINT`
abbrev pub max_pages : ℕ
max_pages = 100

abbrev pub page_records_hint : ℕ
page_records_hint = 50

module _ {ℓ} {A : Type ℓ} (page_items : ℕ → List A) where
  -- The rounds of the loop from a page on: `page_items` are the records read of each page.
  unfoldable pub collect : ℕ → ℕ → List A
  collect zero page = []
  collect (suc rounds) page =
      let rest = collect rounds (suc page) in
      if is_nil (page_items page)
      then []
      else if ltb (length (page_items page)) page_records_hint
      then page_items page
      else page_items page ++ rest

  unfoldable pub paginate : List A
  unfolding collect
  paginate = collect max_pages 1
