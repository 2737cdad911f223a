-- ===== src/Prelude/Assoc.antt =====
-- Python's `dict`, in insertion order.
use mathlib.Core.Path.{◌≡◌, refl}
use mathlib.Core.Option.{Option, none, some}
use mathlib.Core.List.{List, [], ◌∷◌, ◌++◌}
use native.Mathlib.Omega.{arith}
use integration_hub.Prelude.Tests.{Eq, ◌==◌, if◌then◌else◌}

module _ {ℓ κ} {K : Type ℓ} {V : Type κ} ⦃e : Eq K⦄ where
  -- `d.get(k)`
  unfoldable pub lookup : K → List (K × V) → Option V
  lookup k [] = none
  lookup k ((j, v) ∷ m) = if j == k then some v else lookup k m

  -- `d[k] = v`: a new key goes to the end, an old one keeps its place.
  unfoldable pub insert : K → V → List (K × V) → List (K × V)
  insert k v [] = (k, v) ∷ []
  insert k v ((j, w) ∷ m) = if j == k then (j, v) ∷ m else (j, w) ∷ insert k v m

  -- What a key finds after a store: the new value under the key stored, else what it found before.
  pub lookup-insert :
      (m : List (K × V)) (stored asked : K) (value : V)
      → lookup asked (insert stored value m)
        ≡ (if stored == asked then some value else lookup asked m)
  unfolding insert lookup
  lookup-insert [] stored asked value = refl
  lookup-insert ((own, old) ∷ rest) stored asked value = ground (
    arith,
    e.same_iff own stored,
    e.same_iff own asked,
    e.same_iff stored asked,
    lookup-insert rest stored asked value,
  )

-- `x or []`
abbrev pub or_empty {ℓ} : {V : Type ℓ} → Option (List V) → List V
or_empty none = []
or_empty (some l) = l

module _ {ℓ κ} {K : Type ℓ} {V : Type κ} ⦃e : Eq K⦄ where
  -- `d.get(k, [])`
  unfoldable pub lookup_list : K → List (K × List V) → List V
  lookup_list k m = or_empty (lookup k m)

  -- `d.setdefault(k, []).append(v)`
  unfoldable pub append_at : K → V → List (K × List V) → List (K × List V)
  unfolding lookup_list
  append_at k v m = insert k (lookup_list k m ++ v ∷ []) m

  pub lookup_list-append_at :
      (k j : K) (v : V) (m : List (K × List V))
      → lookup_list j (append_at k v m)
        ≡ (if k == j then lookup_list k m ++ v ∷ [] else lookup_list j m)
  unfolding append_at
  lookup_list-append_at k j v m =
      ground (arith, lookup-insert m k j (or_empty (lookup k m) ++ v ∷ []))
