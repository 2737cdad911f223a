-- ===== src/Tracking/Order.antt =====
-- The order in which the table is read, and `failed_records` (src/agsync/sync/tracking.py).
use mathlib.Core.List.{Perm}
use mathlib.Core.List.Perm
use integration_hub.Prelude.{
  ℕ, ◌≤◌, ◌<◌, ◌≡◌, arith, inl, inr, true, none, [], ◌∷◌, All, keep, leb, is_some, Bool-cases,
}
use integration_hub.Tracking.{
  Row, Table, insert_by, order_by, all_tracked, retryable, failed_records,
}

-- Each row comes no later than those behind it.
abbrev pub IsSorted : (Row → ℕ) → Table → Type 0
IsSorted key [] = Unit
IsSorted key (r ∷ rows) = All (λ s. key r ≤ key s) rows × IsSorted key rows

module _ (key : Row → ℕ) where
  insert_by-perm : (r : Row) (rows : Table) → Perm (insert_by key r rows) (r ∷ rows)
  unfolding insert_by
  insert_by-perm r [] = Perm.refl (r ∷ [])
  insert_by-perm r (s ∷ rows) = elim (Bool-cases (leb (key r) (key s))) [
    | inl e ↦ rw e (Perm.refl (r ∷ s ∷ rows))
    | inr e ↦ rw e (Perm.trans (Perm.cons s (insert_by-perm r rows)) (Perm.swap r s rows))
  ]

  order_by-perm : (rows : Table) → Perm (order_by key rows) rows
  unfolding order_by
  order_by-perm [] = Perm.refl []
  order_by-perm (r ∷ rows) =
      Perm.trans (insert_by-perm r (order_by key rows)) (Perm.cons r (order_by-perm rows))

  All-insert_by {ℓ} :
      (P : Row → Type ℓ) (r : Row) (rows : Table) → P r → All P rows → All P (insert_by key r rows)
  unfolding insert_by
  All-insert_by P r [] h k = (h, tt)
  All-insert_by P r (s ∷ rows) h k = elim (Bool-cases (leb (key r) (key s))) [
    | inl e ↦ rw e (h, k)
    | inr e ↦ rw e (k.0, All-insert_by P r rows h k.1)
  ]

  All-order_by {ℓ} : (P : Row → Type ℓ) (rows : Table) → All P rows → All P (order_by key rows)
  unfolding order_by
  All-order_by P [] k = tt
  All-order_by P (r ∷ rows) k = All-insert_by P r (order_by key rows) k.0 (All-order_by P rows k.1)

  All-le :
      (n m : ℕ) → n ≤ m → (rows : Table) → All (λ s. m ≤ key s) rows → All (λ s. n ≤ key s) rows
  All-le n m h [] k = tt
  All-le n m h (s ∷ rows) k = (omega (arith, k.0), All-le n m h rows k.1)

  insert_by-IsSorted :
      (r : Row) (rows : Table) → IsSorted key rows → IsSorted key (insert_by key r rows)
  unfolding insert_by
  insert_by-IsSorted r [] k = (tt, tt)
  insert_by-IsSorted r (s ∷ rows) k = elim (Bool-cases (leb (key r) (key s))) [
    | inl e ↦ rw e ((ground arith, All-le (key r) (key s) (ground arith) rows k.0), k)
    | inr e ↦ rw e (
      All-insert_by (λ t. key s ≤ key t) r rows (ground arith) k.0,
      insert_by-IsSorted r rows k.1,
    )
  ]

  order_by-IsSorted : (rows : Table) → IsSorted key (order_by key rows)
  unfolding order_by
  order_by-IsSorted [] = tt
  order_by-IsSorted (r ∷ rows) = insert_by-IsSorted r (order_by key rows) (order_by-IsSorted rows)

-- `all_tracked` lists every row of the table exactly once, the oldest first.
pub all_tracked-IsSorted :
    (rows : Table) → Perm (all_tracked rows) rows × IsSorted (λ r. r.created_at) (all_tracked rows)
unfolding all_tracked
all_tracked-IsSorted rows = (order_by-perm _ rows, order_by-IsSorted _ rows)

-- Why a row is tried again.
pub record IsRetryable (max_retries : ℕ) (r : Row) : Type 0 where
  pub failed : is_some r.sync_error ≡ true
  pub few : r.retry_count < max_retries
  pub no_card : r.ag_card_id ≡ none

retryable-IsRetryable : (n : ℕ) (r : Row) → retryable n r ≡ true → IsRetryable n r
unfolding retryable
retryable-IsRetryable n r h = record {
  failed = ground arith;
  few = ground arith;
  no_card = ground arith;
}

keep-IsRetryable : (n : ℕ) (rows : Table) → All (IsRetryable n) (keep (retryable n) rows)
unfolding keep
keep-IsRetryable n [] = tt
keep-IsRetryable n (r ∷ rows) = elim (Bool-cases (retryable n r)) [
  | inl e ↦ rw e (retryable-IsRetryable n r e, keep-IsRetryable n rows)
  | inr e ↦ rw e (keep-IsRetryable n rows)
]

-- `failed_records` lists, each exactly once, the rows that pass the retry test, and so only rows
-- with an error, fewer retries than the limit and no card; the one updated least recently is first.
pub failed_records-IsSorted :
    (max_retries : ℕ) (rows : Table)
    → Perm (failed_records max_retries rows) (keep (retryable max_retries) rows)
      × All (IsRetryable max_retries) (failed_records max_retries rows)
      × IsSorted (λ r. r.updated_at) (failed_records max_retries rows)
unfolding failed_records
failed_records-IsSorted n rows =
    (order_by-perm _ _, All-order_by _ _ _ (keep-IsRetryable n rows), order_by-IsSorted _ _)
