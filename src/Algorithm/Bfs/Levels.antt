-- ===== src/Algorithm/Bfs/Levels.antt =====
-- The search as a whole.
use avbgraph.Algorithm.Bfs.Rounds.{Ready}
use avbgraph.Algorithm.Bfs.Outer.{bfs_round-Moved}
use avbgraph.Algorithm.Bfs.Unvisited.{unknown, count_below-le}
use avbgraph.Algorithm.Bfs.Walks.{
  Walk, here, along, IsLevel, IsUndirected, Leveled, distances-IsLevel,
}
use avbgraph.Algorithm.Bfs.{
  Gapbs, Reading, State, negative, int64_max, is_empty, init_value, bfs_loop, bfs_start, bfs,
}
use avbgraph.Prelude.Int.{ℤ, pos, pos_part}
use avbgraph.Prelude.{
  mem, ℕ, zero, suc, ◌+◌, ◌^◌, ◌<◌, ◌≤◌, ◌≡◌, ◌↔◌, inl, inr, refl, ap, sym, ◌∙◌, subst, true, false,
  List, [], ◌∷◌, some, ◌==◌, arith, Bool-cases, ==_refl,
}

init_value-negative : (n : ℕ) → n < 2 ^ 32 → negative (init_value n) ≡ true
unfolding init_value
init_value-negative n h =
    let real : (n == int64_max) ≡ false = ground (arith, h) in
    rw real (elim (Bool-cases (n == 0)) [ inl e ↦ rw e refl | inr e ↦ rw e refl ])

module _ (p : Gapbs) (g : Reading) (root : ℕ) (low : root < g.max_vid)
    (real : (v : ℕ) → v < g.max_vid → g.degree v < 2 ^ 32) where
  start_other :
      (v : ℕ) → (root == v) ≡ false → (bfs_start p g root).distances v ≡ init_value (g.degree v)
  unfolding bfs_start
  start_other v e = rw e refl

  start_root : (v : ℕ) → (root == v) ≡ true → (bfs_start p g root).distances v ≡ pos 0
  unfolding bfs_start
  start_root v e = rw e refl

  start_complete :
      (v k : ℕ)
      → k ≤ 0
      → Walk g root k v
      → (j : ℕ) × (j ≤ k) × ((bfs_start p g root).distances v ≡ pos j)
  start_complete v zero h here = (0, omega arith, start_root root (==_refl root))
  start_complete v (suc k) h (along w e) = absurd (omega (arith, h))

  start-Leveled : Leveled g root 0 (bfs_start p g root).distances
  start-Leveled = record {
    sound = λ v k inv e. elim (Bool-cases (root == v)) [
      | inl at ↦
          let same : root ≡ v = ground arith in
          let none_far : 0 ≡ k = ap pos_part (sym (start_root v at) ∙ e) in
          (
            omega (arith, none_far),
            subst (λ (i : ℕ). Walk g root i v) none_far
                (subst (λ (w : ℕ). Walk g root 0 w) same here),
          )
      | inr other ↦
          let unvisited = init_value-negative (g.degree v) (real v inv) in
          absurd (cc (ap negative (sym (start_other v other) ∙ e)))
    ];
    complete = start_complete;
  }

  start_window : p.window (bfs_start p g root).queue ≡ root ∷ []
  unfolding bfs_start
  start_window =
      p.window-slide_window (p.push_back root p.fresh)
      ∙ p.pending-push_back root p.fresh
      ∙ rw p.pending-fresh refl

  start_front : (v : ℕ) → p.get_bit (bfs_start p g root).front v ≡ false
  unfolding bfs_start
  start_front v = p.get_bit-cleared v

  start_nothing : p.pending (bfs_start p g root).queue ≡ []
  unfolding bfs_start
  start_nothing = p.pending-slide_window (p.push_back root p.fresh)

  start_distance : (bfs_start p g root).distance ≡ 1
  unfolding bfs_start
  start_distance = refl

  start-Ready : Ready p g root 0 (bfs_start p g root)
  start-Ready = record {
    next_distance = start_distance;
    lev = start-Leveled;
    holds = λ v. (
      λ m.
          let at : (root == v) ≡ true = ground (arith, sym (ap (mem v) start_window) ∙ m) in
          let same : root ≡ v = ground arith in
          (subst (λ (w : ℕ). w < g.max_vid) same low, start_root v at),
      λ (inv, e). elim (Bool-cases (root == v)) [
        | inl at ↦ ap (mem v) start_window ∙ rw at refl
        | inr other ↦
            let unvisited = init_value-negative (g.degree v) (real v inv) in
            absurd (cc (ap negative (sym (start_other v other) ∙ e)))
      ],
    );
    nothing = start_nothing;
    stale = λ v b. absurd (cc (start_front v));
  }

module _ (p : Gapbs) (g : Reading) (root alpha beta : ℕ) (und : IsUndirected g)
    (low : root < g.max_vid) (na : (alpha == 0) ≡ false) (nb : (beta == 0) ≡ false) where
  bfs_loop-ends :
      (fuel d : ℕ) (s : State p)
      → Ready p g root d s
      → 0 < fuel
      → (is_empty (p.window s.queue) ≡ false → unknown g s.distances + 1 < fuel)
      → (s' : State p) × (bfs_loop p g alpha beta fuel s ≡ some s')
        × ((e : ℕ) × Ready p g root e s')
        × (is_empty (p.window s'.queue) ≡ true)
  unfolding bfs_loop
  bfs_loop-ends zero d s r h enough = absurd (omega (arith, h))
  bfs_loop-ends (suc fuel) d s r h enough = elim (Bool-cases (is_empty (p.window s.queue))) [
    | inl done ↦ (s, rw done refl, (d, r), done)
    | inr filled ↦
        let (s1, run, ((e, later, r1), keeps, less)) =
          bfs_round-Moved p g root und low alpha beta d s na nb r filled in
        let (s', run', ready, empty) =
          bfs_loop-ends fuel e s1 r1 (omega (arith, enough filled))
            (λ f. omega (arith, enough filled, less f)) in
        (s', rw (filled, run) run', ready, empty)
  ]

nobody : (us : List ℕ) (v : ℕ) → is_empty us ≡ true → mem v us ≡ false
nobody [] v e = refl
nobody (u ∷ us) v e = absurd (cc)

-- On an undirected graph whose degrees fit into 32 bits, the search from a vertex ends, whichever
-- directions alpha and beta, which are not 0, make it take, and a vertex has the distance `k`
-- exactly if the shortest walk from the root to it has `k` edges.
pub bfs-IsLevel :
    (p : Gapbs) (g : Reading) (root alpha beta : ℕ)
    → IsUndirected g
    → root < g.max_vid
    → 0 < alpha
    → 0 < beta
    → ((v : ℕ) → v < g.max_vid → g.degree v < 2 ^ 32)
    → (r : ℕ → ℤ) × (bfs p g root alpha beta ≡ some r)
      × ((v k : ℕ) → v < g.max_vid → (r v ≡ pos k) ↔ IsLevel g root k v)
unfolding bfs
bfs-IsLevel p g root alpha beta und low some_alpha some_beta real =
    let s = bfs_start p g root in
    let (s', run, (d, ready), empty) =
      bfs_loop-ends p g root alpha beta und low (ground arith) (ground arith) (suc (suc g.max_vid))
        0 s (start-Ready p g root low real) (omega arith)
        (λ f. omega (arith, count_below-le g.max_vid (λ v. negative (s.distances v)))) in
    (
      s'.distances,
      rw run refl,
      distances-IsLevel g root d und low s'.distances ready.lev
          (λ v inv e. absurd (cc (nobody (p.window s'.queue) v empty, (ready.holds v).1 (inv, e)))),
    )
