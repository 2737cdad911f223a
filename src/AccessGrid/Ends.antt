-- ===== src/AccessGrid/Ends.antt =====
-- About the loop of `list_cards` (src/agsync/ag/__init__.py).
use mathlib.Core.List.{append_assoc}
use mathlib.Core.Path.{subst}
use integration_hub.Prelude.{
  ℕ, zero, suc, ◌+◌, ◌≤◌, ◌<◌, ◌≡◌, refl, sym, ap, ◌∙◌, Bool, true, false, not, ◌&&◌, ◌||◌, is_nil,
  ltb, some, List, [], ◌++◌, Bool-cases, inl, inr, arith,
}
use integration_hub.AccessGrid.Pages.{Page, is_last, list_from, list_cards}

module _ {ℓ} {A : Type ℓ} (get : ℕ → Page A) where
  -- The keys of a page and of as many after it as a number says.
  abbrev pub pages_from : ℕ → ℕ → List A
  pages_from first zero = (get first).keys
  pages_from first (suc more) = (get first).keys ++ pages_from (first + 1) more

  -- A page with nothing on it, or one that reports no page after it (0 stands for no report).
  abbrev pub is_end : ℕ → Bool
  is_end page = is_nil ((get page).keys) || not (ltb page (get page).total_pages)

  -- So many pages, each with something on it, and each with a report of a page after it.
  abbrev pub none_ends : ℕ → ℕ → Bool
  none_ends first zero = true
  none_ends first (suc more) = not (is_end first) && none_ends (first + 1) more

  is_last-end : (page : ℕ) → 1 ≤ page → is_last get page ≡ is_end page
  is_last-end page p = ground arith

  -- Whether the loop goes on after each of so many pages.
  abbrev goes_on : ℕ → ℕ → Bool
  goes_on first zero = true
  goes_on first (suc more) = not (is_last get first) && goes_on (first + 1) more

  goes_on-none_ends : (more first : ℕ) → 1 ≤ first → goes_on first more ≡ none_ends first more
  goes_on-none_ends zero first p = refl
  goes_on-none_ends (suc more) first p =
      ground (arith, is_last-end first, goes_on-none_ends more (first + 1))

  -- From a page on, the loop ends, with the keys up to the page that ends it.
  abbrev Ends : ℕ → ℕ → ℕ → List A → ℕ → Type ℓ
  Ends bound fuel page cards n =
      (list_from get fuel page cards ≡ some (cards ++ pages_from page n))
      × (is_last get (page + n) ≡ true)
      × (goes_on page n ≡ true)
      × (n ≤ bound)

  module _ (bound : ℕ) (bounded : (page : ℕ) → (get page).total_pages ≤ bound) where
    past-is_last : (page : ℕ) → 1 ≤ page → bound ≤ page → is_last get page ≡ true
    past-is_last page p q = ground (arith, bounded page)

    list_from-Ends_here :
        (fuel page left : ℕ) (cards : List A)
        → is_last get page ≡ true
        → Ends left (suc fuel) page cards 0
    unfolding list_from
    list_from-Ends_here fuel page left cards last =
        (rw last refl, subst (λ n. is_last get n ≡ true) (omega arith) last, refl, omega arith)

    -- A page that is not the last goes before those that the loop reads after it.
    list_from-Ends_more :
        (left fuel page n : ℕ) (cards : List A)
        → is_last get page ≡ false
        → Ends left fuel (page + 1) (cards ++ (get page).keys) n
        → Ends (suc left) (suc fuel) page cards (suc n)
    unfolding list_from
    list_from-Ends_more left fuel page n cards more (listed, last, on, small) = (
      rw more (listed ∙ ap some (append_assoc cards ((get page).keys) (pages_from (page + 1) n))),
      subst (λ m. is_last get m ≡ true) (omega arith) last,
      rw (more, on) refl,
      omega arith,
    )

    list_from-Ends :
        (left fuel page : ℕ) (cards : List A)
        → 1 ≤ page
        → bound ≤ page + left
        → left < fuel
        → (n : ℕ) × Ends left fuel page cards n
    list_from-Ends zero (suc fuel) page cards p q enough =
        (0, list_from-Ends_here fuel page 0 cards (past-is_last page p (omega arith)))
    list_from-Ends left zero page cards p q enough = absurd (omega arith)
    list_from-Ends (suc left) (suc fuel) page cards p q enough =
        elim (Bool-cases (is_last get page)) [
          | inl last ↦ (0, list_from-Ends_here fuel page (suc left) cards last)
          | inr more ↦
              let later =
                list_from-Ends left fuel (page + 1) (cards ++ (get page).keys) (omega arith)
                  (omega arith) (omega arith) in
              (suc later.0, list_from-Ends_more left fuel page later.0 cards more later.1)
        ]

    -- Where no page reports more than some number of pages, the loop ends within one round more than
    -- that number, with the keys of the pages from the first to the first that is the last one (it is
    -- empty, or reports no page after it), in their order.
    pub list_cards-Ends :
        (n : ℕ) × (list_cards get (suc bound) ≡ some (pages_from 1 n))
        × (is_end (1 + n) ≡ true)
        × (none_ends 1 n ≡ true)
        × (n ≤ bound)
    unfolding list_cards
    list_cards-Ends =
        let ends =
          list_from-Ends bound (suc bound) 1 [] (omega arith) (omega arith) (omega arith) in
        (
          ends.0,
          ends.1.0,
          sym (is_last-end (1 + ends.0) (omega arith)) ∙ ends.1.1,
          sym (goes_on-none_ends ends.0 1 (omega arith)) ∙ ends.1.2,
          ends.1.3,
        )
