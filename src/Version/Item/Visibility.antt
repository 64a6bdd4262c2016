-- ===== src/Version/Item/Visibility.antt =====
-- Which versions of one edge a query sees.
use avbgraph.Prelude.{ℕ, ◌+◌, ◌≡◌, Bool, true, List, [], ◌∷◌, arith, if◌then◌else◌}
use avbgraph.Types.Order.{lt_trans, le-not-lt}
use avbgraph.Types.{Composite, lt}
use avbgraph.Version.Item.{EdgeWithIndex, created, is_visible_at_composite, is_visible_within}

-- The replaced versions, newest first, each invalidated when its successor was created.
abbrev pub IsHistory : Composite → List (EdgeWithIndex × Composite) → Type 0
IsHistory newer [] = Unit {0}
IsHistory newer ((x, inv) ∷ older) =
    (inv ≡ newer) × (lt (created x) inv ≡ true) × IsHistory (created x) older

abbrev pub birth : Composite → List (EdgeWithIndex × Composite) → Composite
birth newer [] = newer
birth newer ((x, inv) ∷ older) = birth (created x) older

abbrev pub seen : Bool → ℕ
seen b = if b then 1 else 0

abbrev pub count_replaced : Composite → List (EdgeWithIndex × Composite) → ℕ
count_replaced q [] = 0
count_replaced q ((x, inv) ∷ older) = seen (is_visible_within x q inv) + count_replaced q older

replaced_seen :
    (q newer : Composite) (older : List (EdgeWithIndex × Composite))
    → IsHistory newer older
    → seen (lt newer q) + count_replaced q older ≡ seen (lt (birth newer older) q)
unfolding is_visible_within
replaced_seen q newer [] h = omega arith
replaced_seen q newer ((x, inv) ∷ older) (e, before, rest) = ground (
  arith,
  replaced_seen q (created x) older rest,
  le-not-lt q newer,
  lt_trans (created x) newer q,
  e,
)

-- A query sees exactly one version of an edge if the first version was created before it, and none
-- if not: the version intervals of a history, the newest one open, do not overlap and leave no
-- hole.
visible_once :
    (q : Composite) (newest : EdgeWithIndex) (older : List (EdgeWithIndex × Composite))
    → IsHistory (created newest) older
    → seen (is_visible_at_composite newest q) + count_replaced q older
      ≡ seen (lt (birth (created newest) older) q)
unfolding is_visible_at_composite
visible_once q newest older h = replaced_seen q (created newest) older h
