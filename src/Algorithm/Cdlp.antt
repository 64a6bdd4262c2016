-- ===== src/Algorithm/Cdlp.antt =====
-- algorithm/CDLP.{h,cpp}: community detection by label propagation. `sort` is std::sort; the edges
-- of a vertex are the destinations that for_each_edge_sorted hands on.
pub mod Counts
pub mod Rounds
use avbgraph.Prelude.{
  ◌>>=◌, ℕ, zero, suc, ◌+◌, Bool, true, false, not, ◌&&◌, ◌||◌, List, [], ◌∷◌, Option, none, some,
  ltb, ◌==◌, if◌then◌else◌, map, length, update,
}

-- The inner loop: the labels behind a run of labels equal to the first, and the length of the run.
unfoldable pub run_behind : ℕ → List ℕ → ℕ → ℕ × List ℕ
run_behind label [] count = (count, [])
run_behind label (x ∷ xs) count =
    let rest = run_behind label xs (suc count) in if x == label then rest else (count, x ∷ xs)

-- The outer loop over the sorted labels; `none` is more rounds than labels.
unfoldable pub best_loop : ℕ → List ℕ → ℕ → ℕ → Option ℕ
best_loop zero [] best_label best_count = some best_label
best_loop zero (x ∷ xs) best_label best_count = none
best_loop (suc fuel) [] best_label best_count = some best_label
best_loop (suc fuel) (x ∷ xs) best_label best_count =
    let counted = run_behind x xs 1 in
    let better = ltb best_count counted.0 in
    best_loop fuel counted.1 (if better then x else best_label)
      (if better then counted.0 else best_count)

-- The label chosen from the sorted labels; `none` is the access to the first of none.
unfoldable pub choose_sorted : List ℕ → Option ℕ
choose_sorted [] = none
choose_sorted (x ∷ xs) = best_loop (suc (length xs)) (x ∷ xs) x 0

unfoldable pub choose : (List ℕ → List ℕ) → List ℕ → Option ℕ
choose sort labels = choose_sorted (sort labels)

-- A graph as the algorithm reads it: the number of vertices, their degrees at the reader's epoch,
-- and the destinations that for_each_edge_sorted hands on, without their flags.
pub record Reading : Type 0 where
  pub max_vid : ℕ
  pub degree : ℕ → ℕ
  pub neighbours : ℕ → List ℕ

module _ (sort : List ℕ → List ℕ) (g : Reading) where
  -- The label that a round gives a vertex.
  unfoldable pub next_label : (ℕ → ℕ) → ℕ → Option ℕ
  next_label labels v =
      if g.degree v == 0 then some (labels v) else choose sort (map labels (g.neighbours v))

  -- The loop over the vertices below a bound: `changed` and next_labels.
  unfoldable pub round_loop : (ℕ → ℕ) → ℕ → Option (Bool × (ℕ → ℕ))
  round_loop labels zero = some (false, labels)
  round_loop labels (suc v) = round_loop labels v >>= λ (r : Bool × (ℕ → ℕ)).
      (next_label labels v >>= λ (best : ℕ).
      some (r.0 || not (best == labels v), update r.1 v best))

  -- The loop of compute_cdlp, on the rounds that are left.
  unfoldable pub cdlp_loop : ℕ → (ℕ → ℕ) → Option (ℕ → ℕ)
  cdlp_loop zero labels = some labels
  cdlp_loop (suc left) labels = round_loop labels g.max_vid >>= λ (r : Bool × (ℕ → ℕ)).
      (let rest = cdlp_loop left r.1 in if r.0 then rest else some r.1)

  -- compute_cdlp on the external ids that the vertices start with.
  unfoldable pub compute_cdlp : ℕ → (ℕ → ℕ) → Option (ℕ → ℕ)
  compute_cdlp max_iterations external = cdlp_loop max_iterations external
