-- ===== src/Connect/Weights.antt =====
-- How many launches of the registry have an id and are in a state (src/agsync/routes/connect.py).
use integration_hub.Prelude.{
  ℕ, ◌+◌, ◌≤◌, ◌≡◌, String, Bool, ◌&&◌, Option, none, some, [], ◌∷◌, if◌then◌else◌, ◌==◌, string_eq,
  lookup, insert, eq_iff, arith,
}
use integration_hub.Connect.{Launch, Launches, pop, prune}

abbrev pub tick : Bool → ℕ
tick b = if b then 1 else 0

module _ (in_state : Launch → Bool) (id : String) where
  unfoldable pub weight : Launches → ℕ
  weight [] = 0
  weight ((own, launch) ∷ launches) = tick (own == id && in_state launch) + weight launches

  abbrev pub found : String → Option Launch → ℕ
  found asked none = 0
  found asked (some launch) = tick (asked == id && in_state launch)

  pub weight-nil : weight [] ≡ 0
  unfolding weight
  weight-nil = omega arith

  pub weight-pop : (launch_id : String) (m : Launches) → weight (pop launch_id m) ≤ weight m
  unfolding weight pop
  weight-pop launch_id [] = omega arith
  weight-pop launch_id ((own, launch) ∷ m) = ground (arith, weight-pop launch_id m)

  pub weight-prune : (now : ℕ) (m : Launches) → weight (prune now m) ≤ weight m
  unfolding weight prune
  weight-prune now [] = omega arith
  weight-prune now ((own, launch) ∷ m) = ground (arith, weight-prune now m)

  -- A store takes the launch that the id finds out of the sum, and puts the new one in.
  pub weight-insert :
      (asked : String) (launch : Launch) (m : Launches)
      → weight (insert asked launch m) + found asked (lookup asked m)
        ≡ weight m + tick (asked == id && in_state launch)
  unfolding weight insert lookup
  weight-insert asked launch [] = omega arith
  weight-insert asked launch ((own, old) ∷ m) =
      ground (arith, eq_iff own asked, eq_iff own id, eq_iff asked id, weight-insert asked launch m)

  -- What an id finds is in the sum.
  pub found-le-weight : (asked : String) (m : Launches) → found asked (lookup asked m) ≤ weight m
  unfolding weight lookup
  found-le-weight asked [] = omega arith
  found-le-weight asked ((own, old) ∷ m) =
      ground (arith, eq_iff own asked, eq_iff own id, eq_iff asked id, found-le-weight asked m)
