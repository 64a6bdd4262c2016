-- ===== src/Algorithm/Cdlp/Rounds.antt =====
-- The rounds of the label propagation.
use avbgraph.Algorithm.Cdlp.Counts.{count, SortedFrom, choose-IsLeastMost, IsLeastMost}
use avbgraph.Algorithm.Cdlp.{
  Reading, choose, choose_sorted, next_label, round_loop, cdlp_loop, compute_cdlp,
}
use avbgraph.Prelude.{
  ℕ, zero, suc, ◌+◌, ◌≤◌, ◌<◌, ◌≡◌, ◌≢◌, ◌⊎◌, refl, ap, sym, subst, ◌∙◌, Bool, false, not, ◌||◌,
  List, [], ◌∷◌, some, none, Option-cases, ==_iff, ◌==◌, map, arith, update, Bool-cases, inl, inr,
}

-- The sort brings every list into order and keeps the numbers of its elements.
abbrev pub IsSort : (List ℕ → List ℕ) → Type 0
IsSort sort = (l : List ℕ) → SortedFrom 0 (sort l) × ((k : ℕ) → count k (sort l) ≡ count k l)

-- Below a bound, a vertex of a degree other than 0 has an edge to hand on.
abbrev HasEdges : Reading → ℕ → Type 0
HasEdges g bound = (v : ℕ) → v < bound → g.degree v ≢ 0 → g.neighbours v ≢ []

-- A vertex whose degree is not 0 and that has no edge to hand on.
abbrev pub Bare : Reading → ℕ → Type 0
Bare g bound = (v : ℕ) × (v < bound) × (g.degree v ≢ 0) × (g.neighbours v ≡ [])

List-cases : (l : List ℕ) → (l ≡ []) ⊎ (l ≢ [])
List-cases [] = inl refl
List-cases (x ∷ l) = inr (λ e. absurd (cc))

Bare-or_HasEdges : (g : Reading) (bound : ℕ) → Bare g bound ⊎ HasEdges g bound
Bare-or_HasEdges g zero = inr (λ v h. absurd (omega (arith, h)))
Bare-or_HasEdges g (suc bound) = elim (Bare-or_HasEdges g bound) [
  | inl (v, h, some_degree, none_left) ↦ inl (v, omega (arith, h), some_degree, none_left)
  | inr has ↦ elim (Bool-cases (g.degree bound == 0)) [
    | inl zero_degree ↦ inr (λ v h some_degree. elim (Bool-cases (v == bound)) [
      | inl here ↦
          let e : v ≡ bound = ground arith in
          absurd (some_degree (ap g.degree e ∙ (==_iff (g.degree bound) 0).0 zero_degree))
      | inr other ↦ has v (ground (arith, h)) some_degree
    ])
    | inr some_degree ↦ elim (List-cases (g.neighbours bound)) [
      | inl none_left ↦ inl (bound, omega arith, ground arith, none_left)
      | inr some_left ↦ inr (λ v h d. elim (Bool-cases (v == bound)) [
        | inl here ↦
            let e : bound ≡ v = ground arith in subst (λ (u : ℕ). g.neighbours u ≢ []) e some_left
        | inr other ↦ has v (ground (arith, h)) d
      ])
    ]
  ]
]

no_elements : (l : List ℕ) → ((k : ℕ) → count k l ≡ count k []) → l ≡ []
no_elements [] same = refl
no_elements (x ∷ l) same = absurd (ground (arith, same x))

map-nil : (f : ℕ → ℕ) (l : List ℕ) → l ≢ [] → map f l ≢ []
map-nil f [] h e = h refl
map-nil f (x ∷ l) h e = absurd (cc)

unchanged : (c : Bool) (best l : ℕ) → (c || not (best == l)) ≡ false → (c ≡ false) × (best ≡ l)
unchanged c best l h = (ground arith, ground arith)

module _ (sort : List ℕ → List ℕ) (g : Reading) where
  -- A label that a round may leave a vertex with: its own without edges, else the smallest of the
  -- most frequent labels of its neighbours.
  abbrev pub IsNext : (ℕ → ℕ) → ℕ → ℕ → Type 0
  IsNext labels v r =
      ((g.degree v ≡ 0) × (r ≡ labels v))
      ⊎ ((g.degree v ≢ 0) × IsLeastMost r (map labels (g.neighbours v)))

  next_label-IsNext :
      IsSort sort
      → (labels : ℕ → ℕ) (v : ℕ) → (g.degree v ≢ 0 → g.neighbours v ≢ [])
      → (r : ℕ) × (next_label sort g labels v ≡ some r) × IsNext labels v r
  unfolding next_label
  next_label-IsNext is_sort labels v has = elim (Bool-cases (g.degree v == 0)) [
    | inl e ↦ (labels v, rw e refl, inl (ground arith, refl))
    | inr e ↦
        let some_edge : g.degree v ≢ 0 = ground arith in
        let l = map labels (g.neighbours v) in
        let (r, chosen, best) =
          choose-IsLeastMost sort l (is_sort l).0 (is_sort l).1
            (map-nil labels (g.neighbours v) (has some_edge)) in
        (r, rw e chosen, inr (some_edge, best))
  ]

  -- The labels after a round over the vertices below a bound.
  record Round (labels : ℕ → ℕ) (bound : ℕ) (r : Bool × (ℕ → ℕ)) : Type 0 where
    next : (v : ℕ) → v < bound → IsNext labels v (r.1 v)
    beyond : (v : ℕ) → bound ≤ v → r.1 v ≡ labels v
    still : r.0 ≡ false → (v : ℕ) → r.1 v ≡ labels v

  round_loop-Round :
      IsSort sort
      → (labels : ℕ → ℕ) (bound : ℕ) → HasEdges g bound
      → (r : Bool × (ℕ → ℕ)) × (round_loop sort g labels bound ≡ some r) × Round labels bound r
  unfolding round_loop
  round_loop-Round is_sort labels zero has = (
    (false, labels),
    refl,
    record { next = λ v h. absurd (omega (arith, h)); beyond = λ v h. refl; still = λ e v. refl },
  )
  round_loop-Round is_sort labels (suc bound) has =
      let (r, e, round) = round_loop-Round is_sort labels bound (λ v h. has v (omega (arith, h))) in
      let (best, chosen, is_next) =
        next_label-IsNext is_sort labels bound (has bound (omega arith)) in
      (
        (r.0 || not (best == labels bound), update r.1 bound best),
        rw (e, chosen) refl,
        record {
          next = λ v h. elim (Bool-cases (bound == v)) [
            | inl same ↦
                let e : bound ≡ v = ground arith in
                rw same (subst (λ (u : ℕ). IsNext labels u best) e is_next)
            | inr other ↦ rw other (round.next v (ground (arith, h)))
          ];
          beyond = λ v h. ground (arith, round.beyond v);
          still = λ q v.
              let (before, kept) = unchanged r.0 best (labels bound) q in
              elim (Bool-cases (bound == v)) [
                | inl same ↦ let e : bound ≡ v = ground arith in rw same (kept ∙ ap labels e)
                | inr other ↦ rw other (round.still before v)
              ];
        },
      )

  -- The labels after some rounds, each of which reads the labels that the one before it left.
  pub data Rounds (labels : ℕ → ℕ) : ℕ → (ℕ → ℕ) → Type 0 where
    none_yet : Rounds labels 0 labels
    one_more :
        (k : ℕ) (before after : ℕ → ℕ)
        → Rounds labels k before
        → ((v : ℕ) → v < g.max_vid → IsNext before v (after v))
        → Rounds labels (suc k) after

  -- A round leaves the labels as they are.
  abbrev pub Stable : (ℕ → ℕ) → Type 0
  Stable labels = (v : ℕ) → v < g.max_vid → IsNext labels v (labels v)

  cdlp_loop-Rounds :
      IsSort sort
      → HasEdges g g.max_vid
      → (start : ℕ → ℕ) (done left : ℕ) (labels : ℕ → ℕ) → Rounds start done labels
      → (k : ℕ) × (r : ℕ → ℕ) × (cdlp_loop sort g left labels ≡ some r)
        × Rounds start k r
        × (k ≤ done + left)
        × ((k ≡ done + left) ⊎ Stable r)
  unfolding cdlp_loop
  cdlp_loop-Rounds is_sort has start done zero labels so_far =
      (done, labels, refl, so_far, omega arith, inl (omega arith))
  cdlp_loop-Rounds is_sort has start done (suc left) labels so_far =
      let (r, e, round) = round_loop-Round is_sort labels g.max_vid has in
      let next = one_more done labels r.1 so_far round.next in
      elim (Bool-cases r.0) [
        | inl changed ↦
            let (k, l, again, rounds, least, why) =
              cdlp_loop-Rounds is_sort has start (suc done) left r.1 next in
            (k, l, rw (e, changed) again, rounds, omega (arith, least), ground (arith, why))
        | inr quiet ↦
            let same : r.1 ≡ labels = λ i. λ v. round.still quiet v i in
            (
              suc done,
              r.1,
              rw (e, quiet) refl,
              next,
              omega arith,
              inr (
                  subst Stable (sym same) (λ v h.
                    subst (λ (u : ℕ). IsNext labels v u) (round.still quiet v) (round.next v h))),
            )
      ]

  round_loop_faults :
      IsSort sort
      → (labels : ℕ → ℕ) (bound : ℕ) → Bare g bound
      → round_loop sort g labels bound ≡ none
  unfolding round_loop next_label choose choose_sorted
  round_loop_faults is_sort labels zero (v, h, d, e) = absurd (omega (arith, h))
  round_loop_faults is_sort labels (suc bound) (v, h, some_degree, none_left) =
      elim (Bool-cases (v == bound)) [
        | inl here ↦
            let e : v ≡ bound = ground arith in
            let degree : (g.degree bound == 0) ≡ false =
              subst (λ (u : ℕ). (g.degree u == 0) ≡ false) e (ground (arith, some_degree)) in
            let empty : g.neighbours bound ≡ [] = ap g.neighbours (sym e) ∙ none_left in
            let sorted : sort [] ≡ [] = no_elements (sort []) (is_sort []).1 in
            elim (Option-cases (round_loop sort g labels bound)) [
              | inl fault ↦ rw fault refl
              | inr (r, run) ↦ rw (run, degree, empty, sorted) refl
            ]
        | inr other ↦
            rw
              (round_loop_faults is_sort labels bound
                (v, ground (arith, h), some_degree, none_left))
              refl
      ]

  -- The propagation is allowed some rounds and faults, where a vertex has a degree other than 0 and
  -- no edge to hand on; or it ends with labels that it reached in rounds, in each of which every
  -- vertex of a degree other than 0 took the smallest of the most frequent labels that its
  -- neighbours had before the round, and every other vertex kept its own: after as many rounds as
  -- it was allowed, or with labels that a further round leaves as they are.
  pub compute_cdlp-Rounds :
      IsSort sort
      → (max_iterations : ℕ) (external : ℕ → ℕ)
      → ((0 < max_iterations)
          × Bare g g.max_vid
          × (compute_cdlp sort g max_iterations external ≡ none))
        ⊎ ((k : ℕ) × (r : ℕ → ℕ) × (compute_cdlp sort g max_iterations external ≡ some r)
            × Rounds external k r
            × (k ≤ max_iterations)
            × ((k ≡ max_iterations) ⊎ Stable r))
  unfolding compute_cdlp cdlp_loop
  compute_cdlp-Rounds is_sort zero external =
      inr (0, external, refl, none_yet, omega arith, inl refl)
  compute_cdlp-Rounds is_sort (suc more) external = elim (Bare-or_HasEdges g g.max_vid) [
    | inl bare ↦
        inl (omega arith, bare, rw (round_loop_faults is_sort external g.max_vid bare) refl)
    | inr has ↦
        let (k, r, e, rounds, least, why) =
          cdlp_loop-Rounds is_sort has external 0 (suc more) external none_yet in
        inr (k, r, e, rounds, omega (arith, least), ground (arith, why))
  ]
