-- ===== src/Tests/Graphs.antt =====
-- The algorithms on small graphs.
use avbgraph.Algorithm.Cdlp.Counts.{count, SortedFrom, IsLeastMost, choose-IsLeastMost}
use avbgraph.Algorithm.Cdlp.Rounds.{IsSort, Bare, Rounds, Stable, compute_cdlp-Rounds}
use avbgraph.Algorithm.Cdlp.{Reading, choose, compute_cdlp}
use avbgraph.Algorithm.Wcc.Connected.{Linked}
use avbgraph.Algorithm.Wcc.Settled.{compute_wcc-Linked}
use avbgraph.Algorithm.Wcc.{
  settled_components, compute_wcc, wcc_loop, iteration, forward_pass, backward_pass, forward_edges,
  forward_edge, backward_edges, backward_edge, lower,
}
use avbgraph.Prelude.{
  ◌<◌, none, ℕ, ◌+◌, ◌≤◌, ◌≡◌, ◌⊎◌, refl, ◌∙◌, false, List, [], ◌∷◌, some, leb, ltb, ◌==◌,
  if◌then◌else◌, arith, Bool-cases, inl, inr, leb→le,
}

-- An insertion sort, for std::sort.
abbrev place : ℕ → List ℕ → List ℕ
place k [] = k ∷ []
place k (x ∷ xs) = if leb k x then k ∷ x ∷ xs else x ∷ place k xs

abbrev sort : List ℕ → List ℕ
sort [] = []
sort (x ∷ xs) = place x (sort xs)

count-place : (j k : ℕ) (xs : List ℕ) → count j (place k xs) ≡ count j (k ∷ xs)
count-place j k [] = refl
count-place j k (x ∷ xs) = ground (arith, count-place j k xs)

place-SortedFrom : (b k : ℕ) (xs : List ℕ) → b ≤ k → SortedFrom b xs → SortedFrom b (place k xs)
place-SortedFrom b k [] h s = (h, tt)
place-SortedFrom b k (x ∷ xs) h (p, s) = elim (Bool-cases (leb k x)) [
  | inl e ↦ rw e (h, (leb→le _ _ e, s))
  | inr e ↦ rw e (p, place-SortedFrom x k xs (ground arith) s)
]

sort-IsSort : IsSort sort
sort-IsSort [] = (tt, λ k. refl)
sort-IsSort (x ∷ xs) =
    let (sorted, same) = sort-IsSort xs in
    (
      place-SortedFrom 0 x (sort xs) (omega arith) sorted,
      λ k. count-place k x (sort xs) ∙ omega (arith, same k),
    )

choose-IsLeastMost_example :
    (r : ℕ) × (choose sort (8 ∷ 5 ∷ 8 ∷ 5 ∷ 9 ∷ []) ≡ some r)
    × IsLeastMost r (8 ∷ 5 ∷ 8 ∷ 5 ∷ 9 ∷ [])
choose-IsLeastMost_example =
    choose-IsLeastMost sort (8 ∷ 5 ∷ 8 ∷ 5 ∷ 9 ∷ []) (sort-IsSort (8 ∷ 5 ∷ 8 ∷ 5 ∷ 9 ∷ [])).0
      (sort-IsSort (8 ∷ 5 ∷ 8 ∷ 5 ∷ 9 ∷ [])).1 (λ e. absurd (cc))

-- The edges 0 - 1, and 2 alone.
abbrev pair_edges : ℕ → List ℕ
pair_edges v = if v == 0 then 1 ∷ [] else if v == 1 then 0 ∷ [] else []

abbrev pair_degree : ℕ → ℕ
pair_degree v = if ltb v 2 then 1 else 0

abbrev pair_graph : Reading
pair_graph = record { max_vid = 3; degree = pair_degree; neighbours = pair_edges }

compute_cdlp-Rounds_example :
    ((0 < 4) × Bare pair_graph 3 × (compute_cdlp sort pair_graph 4 (λ v. v + 7) ≡ none))
    ⊎ ((k : ℕ) × (r : ℕ → ℕ) × (compute_cdlp sort pair_graph 4 (λ v. v + 7) ≡ some r)
        × Rounds sort pair_graph (λ v. v + 7) k r
        × (k ≤ 4)
        × ((k ≡ 4) ⊎ Stable sort pair_graph r))
compute_cdlp-Rounds_example = compute_cdlp-Rounds sort pair_graph sort-IsSort 4 (λ v. v + 7)

abbrev pair_reading : avbgraph.Algorithm.Wcc.Reading
pair_reading = record { max_vid = 3; degree = pair_degree; destinations = pair_edges }

compute_wcc-Linked_example :
    (r : ℕ) × (compute_wcc pair_reading 1 ≡ some r)
    × Linked pair_reading 1 r
    × ((settled_components pair_reading).changed ≡ false
        → (w : ℕ) → Linked pair_reading 1 w
        → (r ≤ w) × (compute_wcc pair_reading w ≡ some r))
compute_wcc-Linked_example = compute_wcc-Linked pair_reading 1

settled_test : (settled_components pair_reading).changed ≡ false
unfolding settled_components wcc_loop iteration forward_pass backward_pass forward_edges
    forward_edge backward_edges backward_edge lower
settled_test = refl
