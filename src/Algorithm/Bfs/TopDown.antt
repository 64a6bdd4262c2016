-- ===== src/Algorithm/Bfs/TopDown.antt =====
-- What the top-down step does.
use avbgraph.Algorithm.Bfs.Walks.{Advance, Leveled, IsUndirected}
use avbgraph.Algorithm.Bfs.{
  Gapbs, Reading, Down, negative, td_edge, td_edges, td_vertices, do_bfs_td_step,
}
use avbgraph.Prelude.Int.{ℤ, pos}
use avbgraph.Prelude.{
  mem, ℕ, suc, ◌<◌, ◌≡◌, ◌↔◌, inl, inr, refl, ap, sym, ◌∙◌, true, false, Bool, ◌&&◌, ◌||◌, List, [],
  ◌∷◌, ◌++◌, ◌==◌, if◌then◌else◌, arith, Bool-cases,
}

pub mem-append : (v : ℕ) (xs ys : List ℕ) → mem v (xs ++ ys) ≡ (mem v xs || mem v ys)
mem-append v [] ys = refl
mem-append v (x ∷ xs) ys = ground (arith, mem-append v xs ys)

-- Is the vertex a destination of one of the list?
abbrev pub beside : Reading → List ℕ → ℕ → Bool
beside g [] v = false
beside g (u ∷ us) v = mem v (g.destinations u) || beside g us v

-- The distances after the unknown vertices that pass a test got a distance.
abbrev pub marked : ℕ → (ℕ → Bool) → (ℕ → ℤ) → ℕ → ℤ
marked distance test distances v =
    if negative (distances v) && test v then pos distance else distances v

-- What the window holds: exactly the vertices of a level.
abbrev pub Holds : Reading → ℕ → (ℕ → ℤ) → List ℕ → Type 0
Holds g d distances us = (v : ℕ) → (mem v us ≡ true) ↔ ((v < g.max_vid) × (distances v ≡ pos d))

module _ (p : Gapbs) where
  -- The unknown vertices that pass a test get the distance, and are pushed.
  pub record Marks (distance : ℕ) (test : ℕ → Bool) (s t : Down p) : Type 0 where
    pub distances_lem : (v : ℕ) → t.distances v ≡ marked distance test s.distances v
    pub pushed :
        (v : ℕ)
        → mem v (p.pending t.queue)
          ≡ (mem v (p.pending s.queue) || (negative (s.distances v) && test v))
    pub same_window : p.window t.queue ≡ p.window s.queue

  Marks-trans :
      (distance : ℕ) (f g : ℕ → Bool) (s t u : Down p)
      → Marks distance f s t
      → Marks distance g t u
      → Marks distance (λ v. f v || g v) s u
  Marks-trans distance f g s t u a b = record {
    distances_lem = λ v. ground (arith, a.distances_lem v, b.distances_lem v);
    pushed = λ v. ground (arith, a.distances_lem v, a.pushed v, b.distances_lem v, b.pushed v);
    same_window = b.same_window ∙ a.same_window;
  }

  negative_at :
      (distances : ℕ → ℤ) (u v : ℕ)
      → (u == v) ≡ true
      → negative (distances v) ≡ negative (distances u)
  negative_at distances u v e =
      let at : v ≡ u = ground arith in ap (λ (w : ℕ). negative (distances w)) at

  td_edge-Marks :
      (distance dst : ℕ) (s : Down p) → Marks distance (λ v. dst == v) s (td_edge p distance dst s)
  unfolding td_edge
  td_edge-Marks distance dst s = elim (Bool-cases (negative (s.distances dst))) [
    | inl e ↦ rw e (record {
      distances_lem = λ v. elim (Bool-cases (dst == v)) [
        | inl at ↦ rw (at, negative_at s.distances dst v at, e) refl
        | inr other ↦ rw other (ground arith)
      ];
      pushed = λ v. elim (Bool-cases (dst == v)) [
        | inl at ↦
            rw (p.pending-push_back dst s.queue, at, negative_at s.distances dst v at, e)
              (mem-append v (p.pending s.queue) (dst ∷ []) ∙ rw at (ground arith))
        | inr other ↦
            rw (p.pending-push_back dst s.queue, other)
              (mem-append v (p.pending s.queue) (dst ∷ []) ∙ rw other (ground arith))
      ];
      same_window = p.window-push_back dst s.queue;
    })
    | inr e ↦ rw e (record {
      distances_lem = λ v. elim (Bool-cases (dst == v)) [
        | inl at ↦ rw (at, negative_at s.distances dst v at, e) refl
        | inr other ↦ rw other (ground arith)
      ];
      pushed = λ v. elim (Bool-cases (dst == v)) [
        | inl at ↦ rw (at, negative_at s.distances dst v at, e) (ground arith)
        | inr other ↦ rw other (ground arith)
      ];
      same_window = refl;
    })
  ]

  Marks-none : (distance : ℕ) (s : Down p) → Marks distance (λ v. false) s s
  Marks-none distance s = record {
    distances_lem = λ v. ground arith;
    pushed = λ v. ground arith;
    same_window = refl;
  }

  td_edges-Marks :
      (distance : ℕ) (dsts : List ℕ) (s : Down p)
      → Marks distance (λ v. mem v dsts) s (td_edges p distance dsts s)
  unfolding td_edges
  td_edges-Marks distance [] s = Marks-none distance s
  td_edges-Marks distance (dst ∷ dsts) s =
      Marks-trans distance (λ v. dst == v) (λ v. mem v dsts) s (td_edge p distance dst s)
        (td_edges p distance dsts (td_edge p distance dst s)) (td_edge-Marks distance dst s)
        (td_edges-Marks distance dsts (td_edge p distance dst s))

  td_vertices-Marks :
      (g : Reading) (distance : ℕ) (us : List ℕ) (s : Down p)
      → Marks distance (beside g us) s (td_vertices p g distance us s)
  unfolding td_vertices
  td_vertices-Marks g distance [] s = Marks-none distance s
  td_vertices-Marks g distance (u ∷ us) s =
      let t = td_edges p distance (g.destinations u) s in
      Marks-trans distance (λ v. mem v (g.destinations u)) (beside g us) s t
        (td_vertices p g distance us t) (td_edges-Marks distance (g.destinations u) s)
        (td_vertices-Marks g distance us t)

beside_some :
    (g : Reading) (us : List ℕ) (v : ℕ)
    → beside g us v ≡ true
    → (u : ℕ) × (mem u us ≡ true) × (mem v (g.destinations u) ≡ true)
beside_some g [] v e = absurd (cc)
beside_some g (u ∷ us) v e = elim (Bool-cases (mem v (g.destinations u))) [
  | inl edge ↦ (u, ground arith, edge)
  | inr none_here ↦
      let (w, m, edge) = beside_some g us v (ground (arith, e, none_here)) in
      (w, ground (arith, m), edge)
]

beside_none :
    (g : Reading) (us : List ℕ) (v u : ℕ)
    → beside g us v ≡ false
    → mem u us ≡ true
    → mem v (g.destinations u) ≡ false
beside_none g [] v u e m = absurd (cc)
beside_none g (w ∷ us) v u e m = elim (Bool-cases (w == u)) [
  | inl at ↦
      let same : w ≡ u = ground arith in
      ap (λ (i : ℕ). mem v (g.destinations i)) (sym same) ∙ ground (arith, e)
  | inr other ↦ beside_none g us v u (ground (arith, e)) (ground (arith, m, other))
]

-- Marking the vertices beside a level is a step to the next level.
pub marked-Advance :
    (g : Reading) (d : ℕ) (test : ℕ → Bool) (before after : ℕ → ℤ)
    → ((v : ℕ) → v < g.max_vid → after v ≡ marked (suc d) test before v)
    → ((v : ℕ)
        → v < g.max_vid
        → negative (before v) ≡ true
        → test v ≡ true
        → (u : ℕ) × (u < g.max_vid) × (before u ≡ pos d) × (mem v (g.destinations u) ≡ true))
    → ((v u : ℕ)
        → v < g.max_vid
        → test v ≡ false
        → u < g.max_vid
        → before u ≡ pos d
        → mem v (g.destinations u) ≡ false)
    → Advance g d before after
marked-Advance g d test before after eq some_one no_one = record {
  keeps = λ v inv e. eq v inv ∙ rw e refl;
  reaches = λ v inv e. elim (Bool-cases (test v)) [
    | inl t ↦ inl (eq v inv ∙ rw (e, t) refl, some_one v inv e t)
    | inr t ↦ inr (eq v inv ∙ rw (e, t) refl, λ u. no_one v u inv t)
  ];
}

pub both : (a b : Bool) → (a && b) ≡ true → (a ≡ true) × (b ≡ true)
both true b e = (refl, e)
both false b e = absurd (cc)

-- The next level is what was marked.
pub next_marked :
    (g : Reading) (root d : ℕ) (test : ℕ → Bool) (distances : ℕ → ℤ) (v : ℕ)
    → Leveled g root d distances
    → v < g.max_vid
    → marked (suc d) test distances v ≡ pos (suc d)
    → (negative (distances v) && test v) ≡ true
next_marked g root d test distances v lev inv e =
    elim (Bool-cases (negative (distances v) && test v)) [
      | inl yes_marked ↦ yes_marked
      | inr not_marked ↦
          let old : distances v ≡ pos (suc d) = sym (rw not_marked refl) ∙ e in
          absurd (omega (arith, lev.sound v (suc d) inv old))
    ]

-- In a graph whose distances are known up to a level that the window holds, a top-down step finds
-- the next level, and pushes it.
pub td-Advance :
    (p : Gapbs) (g : Reading) (root d : ℕ) (distances : ℕ → ℤ) (queue : p.Queue)
    → IsUndirected g
    → Leveled g root d distances
    → Holds g d distances (p.window queue)
    → p.pending queue ≡ []
    → Advance g d distances (do_bfs_td_step p g (suc d) distances queue).distances
      × Holds g
          (suc d)
          (do_bfs_td_step p g (suc d) distances queue).distances
          (p.pending (do_bfs_td_step p g (suc d) distances queue).queue)
unfolding do_bfs_td_step
td-Advance p g root d distances queue und lev holds empty =
    let us = p.window queue in
    let start : Down p = record { distances = distances; queue = queue; scout_count = pos 0 } in
    let m = td_vertices-Marks p g (suc d) us start in
    let new : (v : ℕ)
        → mem v (p.pending (td_vertices p g (suc d) us start).queue)
          ≡ (negative (distances v) && beside g us v) =
      λ v. m.pushed v ∙ rw empty refl in
    let edge_to : (v : ℕ)
        → beside g us v ≡ true
        → (u : ℕ) × (u < g.max_vid) × (distances u ≡ pos d) × (mem v (g.destinations u) ≡ true) =
      λ v t.
        let (u, inw, edge) = beside_some g us v t in
        let (inu, eu) = (holds u).0 inw in (u, inu, eu, edge) in
    (
      marked-Advance g d (beside g us) distances (td_vertices p g (suc d) us start).distances
          (λ v inv. m.distances_lem v) (λ v inv e t. edge_to v t)
          (λ v u inv t inu eu. beside_none g us v u t ((holds u).1 (inu, eu))),
      λ v. (
        λ e.
            let (neg, t) = both (negative (distances v)) (beside g us v) (sym (new v) ∙ e) in
            let (u, inu, eu, edge) = edge_to v t in
            (und.inside u v inu edge, m.distances_lem v ∙ rw (neg, t) refl),
        λ (inv, e).
            new v
            ∙ next_marked g root d (beside g us) distances v lev inv (sym (m.distances_lem v) ∙ e),
      ),
    )
