-- ===== src/Cdvi/Listing.antt =====
-- About the pages that a listing reads (src/agsync/lib/pacs/cdvi/client.py).
use mathlib.Core.Path.{subst}
use integration_hub.Prelude.{
  ℕ, zero, suc, ◌+◌, ◌≤◌, ◌<◌, ◌≡◌, refl, ap, ◌∙◌, List, [], ◌∷◌, ◌++◌, if◌then◌else◌, ltb, is_nil,
  length, arith,
}
use integration_hub.Cdvi.Pages.{max_pages, page_records_hint, collect, paginate}

module _ {ℓ} {A : Type ℓ} where
  -- One round, by the length of the page that it reads.
  abbrev round : List A → List A → List A
  round page rest =
      if is_nil page then [] else if ltb (length page) page_records_hint then page else page ++ rest

  round_short : (page rest : List A) → length page < page_records_hint → round page rest ≡ page
  round_short [] rest h = refl
  round_short (x ∷ page) rest h = ground arith

  round_full :
      (page rest : List A) → page_records_hint ≤ length page → round page rest ≡ page ++ rest
  round_full [] rest h = absurd (omega arith)
  round_full (x ∷ page) rest h = ground arith

module _ {ℓ} {A : Type ℓ} (page_items : ℕ → List A) where
  -- The pages from `first` to the last, one after another.
  abbrev pub pages_from : ℕ → ℕ → List A
  pages_from first zero = page_items first
  pages_from first (suc more) = page_items first ++ pages_from (suc first) more

  collect-pages_from :
      (rounds first full : ℕ)
      → ((m : ℕ) → m < full → page_records_hint ≤ length (page_items (first + m)))
      → length (page_items (first + full)) < page_records_hint
      → full < rounds
      → collect page_items rounds first ≡ pages_from first full
  unfolding collect
  collect-pages_from zero first full h short enough = absurd (omega arith)
  collect-pages_from (suc rounds) first zero h short enough =
      round_short (page_items first) _
        (subst (λ n. length (page_items n) < page_records_hint) (omega arith) short)
  collect-pages_from (suc rounds) first (suc full) h short enough =
      round_full (page_items first) _
        (subst (λ n. page_records_hint ≤ length (page_items n)) (omega arith) (h 0 (omega arith)))
      ∙ ap (λ rest. page_items first ++ rest)
          (collect-pages_from rounds (suc first) full
            (λ m below.
              subst (λ n. page_records_hint ≤ length (page_items n)) (omega arith)
                (h (suc m) (omega arith)))
            (subst (λ n. length (page_items n) < page_records_hint) (omega arith) short)
            (omega arith))

  -- A listing whose pages are full up to one, at most the hundredth, that is not (it may be empty)
  -- returns the records of all pages up to that one, in their order, whatever later pages hold.
  pub paginate-pages_from :
      (full : ℕ)
      → ((m : ℕ) → m < full → page_records_hint ≤ length (page_items (1 + m)))
      → length (page_items (1 + full)) < page_records_hint
      → full < max_pages
      → paginate page_items ≡ pages_from 1 full
  unfolding paginate
  paginate-pages_from full h short enough = collect-pages_from max_pages 1 full h short enough
