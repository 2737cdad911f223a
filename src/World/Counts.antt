-- ===== src/World/Counts.antt =====
-- A number that a method returns, against the calls of one kind that it adds to the history.
use integration_hub.Prelude.{
  ℕ, ◌+◌, ◌≤◌, ◌≡◌, refl, ap, ◌∙◌, arith, Bool, true, false, List, [], ◌∷◌, max, count_if,
  if◌then◌else◌,
}
use integration_hub.World.{
  World, Exec, ok, Event, Table, pure, gets, on_rows, continue, for_each, for_until, ◌>>=◌,
}

-- Run in any world, the method returns, without raising; the number in its answer is at most the
-- cap, or the number it began with where that is larger; and it has grown by the events that
-- satisfy `p` in what the method adds to the history.
pub record Counts (p : Event → Bool) (cap : ℕ) {S : Type 0} (val : S → ℕ) (n : ℕ) (m : Exec S)
    : Type 0 where
  pub at :
      (w : World)
      → (s : S) × ((m w).0 ≡ ok s)
        × (val s ≤ max cap n)
        × (val s + count_if p w.history ≡ n + count_if p (m w).1.history)

module _ {p : Event → Bool} {cap : ℕ} where
  module _ {S : Type 0} {val : S → ℕ} where
    pub Counts-pure : (s : S) → Counts p cap val (val s) (pure s)
    unfolding pure
    Counts-pure s = record { at = λ w. (s, refl, omega arith, refl) }

    pub Counts-if :
        (b : Bool) {n : ℕ} (m m' : Exec S)
        → (b ≡ true → Counts p cap val n m)
        → (b ≡ false → Counts p cap val n m')
        → Counts p cap val n (if b then m else m')
    Counts-if true m m' h h' = h refl
    Counts-if false m m' h h' = h' refl

    pub Counts-gets :
        {A : Type 0} (g : World → A) {n : ℕ} (f : A → Exec S)
        → ((w : World) → Counts p cap val n (f (g w)))
        → Counts p cap val n (gets g >>= f)
    unfolding ◌>>=◌
    Counts-gets g f h = record { at = λ w. (h w).at w }

    pub Counts-rows :
        (g : World → Table → Table) {n : ℕ} (f : Unit → Exec S)
        → Counts p cap val n (f tt)
        → Counts p cap val n (on_rows g >>= f)
    unfolding ◌>>=◌
    Counts-rows g f h = record { at = λ w. h.at (record w { rows = g w w.rows }) }

  module _ {S T : Type 0} {val : S → ℕ} {val' : T → ℕ} where
    pub Counts-bind :
        {n : ℕ} (m : Exec S) (f : S → Exec T)
        → Counts p cap val n m
        → ((s : S) → Counts p cap val' (val s) (f s))
        → Counts p cap val' n (m >>= f)
    unfolding ◌>>=◌
    Counts-bind m f h k = record {
      at = λ w.
          let (s, e, le, eq) = h.at w in
          let (t, e', le', eq') = (k s).at (m w).1 in
          (
            t,
            ap (λ r. (continue f r (m w).1).0) e ∙ e',
            omega (arith, le, le'),
            omega (arith, eq, eq', ap (λ r. count_if p (continue f r (m w).1).1.history) e),
          );
    }

  module _ {A : Type 0} where
    pub Counts-for_each :
        (body : ℕ → A → Exec ℕ)
        → ((n : ℕ) (a : A) → Counts p cap (λ k. k) n (body n a))
        → (xs : List A) (n : ℕ) → Counts p cap (λ k. k) n (for_each body xs n)
    unfolding for_each
    Counts-for_each body h [] n = Counts-pure n
    Counts-for_each body h (x ∷ xs) n =
        Counts-bind (body n x) _ (h n x) (λ n'. Counts-for_each body h xs n')

    pub Counts-for_until :
        (body : ℕ → A → Exec (ℕ × Bool))
        → ((n : ℕ) (a : A) → Counts p cap (λ s. s.0) n (body n a))
        → (xs : List A) (n : ℕ) → Counts p cap (λ k. k) n (for_until body xs n)
    unfolding for_until
    Counts-for_until body h [] n = Counts-pure n
    Counts-for_until body h (x ∷ xs) n =
        Counts-bind (body n x) _ (h n x)
          (λ s. Counts-if s.1 _ _ (λ _. Counts-pure s.0) (λ _. Counts-for_until body h xs s.0))
