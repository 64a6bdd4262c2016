-- ===== src/Types/Order.antt =====
-- The three comparisons of composite timestamps.
use avbgraph.Prelude.{◌≡◌, ◌⊎◌, true, false, not, arith}
use avbgraph.Types.{Composite, lt, le, eq}

pub lt_trans : (a b c : Composite) → lt a b ≡ true → lt b c ≡ true → lt a c ≡ true
unfolding lt
lt_trans a b c p q = ground arith

pub le-not-lt : (a b : Composite) → le a b ≡ not (lt b a)
unfolding le lt
le-not-lt a b = ground arith

-- The comparisons make one strict linear order: exactly one of `a < b`, `a == b` and `b < a`
-- holds, `<` is transitive, `==` is equality, and `<=` is "not greater".
Composite-linear :
    (a b c : Composite)
    → ((lt a b ≡ true) ⊎ ((eq a b ≡ true) ⊎ (lt b a ≡ true)))
      × (lt a b ≡ true → (eq a b ≡ false) × (lt b a ≡ false))
      × (eq a b ≡ true → a ≡ b)
      × (lt a b ≡ true → lt b c ≡ true → lt a c ≡ true)
      × (le a b ≡ not (lt b a))
unfolding lt eq
Composite-linear a b c = (
  ground arith,
  λ h. (ground arith, ground arith),
  λ h. ground arith,
  lt_trans a b c,
  le-not-lt a b,
)
