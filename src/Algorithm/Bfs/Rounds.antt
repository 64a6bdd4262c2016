-- ===== src/Algorithm/Bfs/Rounds.antt =====
-- The bottom-up rounds of the inner loop of bfs.
use avbgraph.Algorithm.Bfs.BottomUp.{Fronts, bu-Advance}
use avbgraph.Algorithm.Bfs.TopDown.{Holds}
use avbgraph.Algorithm.Bfs.Unvisited.{unknown, unknown_less}
use avbgraph.Algorithm.Bfs.Walks.{
  Advance, Advance-Leveled, Leveled, IsUndirected, Keeps, pos-negative,
}
use avbgraph.Algorithm.Bfs.{Gapbs, Reading, State, negative, do_bfs_bu_step, bu_round, bu_loop}
use avbgraph.Prelude.Int.{ℤ, pos}
use avbgraph.Prelude.{
  ℕ, zero, suc, ◌/◌, ◌<◌, ◌≤◌, ◌≡◌, ◌↔◌, inl, inr, refl, ap, sym, ◌∙◌, subst, true, ◌||◌, [], some,
  ltb, leb, ◌==◌, false, if◌then◌else◌, arith, Bool-cases,
}

Keeps-trans : (g : Reading) (a b c : ℕ → ℤ) → Keeps g a b → Keeps g b c → Keeps g a c
Keeps-trans g a b c ab bc v inv e = let old = ab v inv e in bc v inv (ap negative old ∙ e) ∙ old

-- What was found since a level was not known at it.
pub found_since :
    (g : Reading) (root d e : ℕ) (before after : ℕ → ℤ) (v : ℕ)
    → Leveled g root d before
    → Keeps g before after
    → v < g.max_vid
    → d < e
    → after v ≡ pos e
    → negative (before v) ≡ true
found_since g root d e before after v lev keeps inv later at =
    elim (Bool-cases (negative (before v))) [
      | inl new ↦ new
      | inr old ↦ absurd (omega (arith, later, lev.sound v e inv (sym (keeps v inv old) ∙ at)))
    ]

module _ (p : Gapbs) (g : Reading) (root : ℕ) where
  -- The bits that are set were set for a level that is known.
  abbrev pub Stale : ℕ → State p → Type 0
  Stale d s =
      (v : ℕ)
      → p.get_bit s.front v ≡ true
      → (v < g.max_vid) × ((k : ℕ) × (k ≤ d) × (s.distances v ≡ pos k))

  -- The outer loop at a level: its vertices are the window.
  pub record Ready (d : ℕ) (s : State p) : Type 0 where
    pub next_distance : s.distance ≡ suc d
    pub lev : Leveled g root d s.distances
    pub holds : Holds g d s.distances (p.window s.queue)
    pub nothing : p.pending s.queue ≡ []
    pub stale : Stale d s

  -- The inner loop at a level: the front covers it.
  pub record Rising (d : ℕ) (s : State p) : Type 0 where
    pub next_distance : s.distance ≡ suc d
    pub lev : Leveled g root d s.distances
    pub fronts : Fronts p g d s.distances s.front

  -- After a bottom-up step the front is the level.
  abbrev pub Exact : ℕ → State p → Type 0
  Exact d s = (v : ℕ) → (p.get_bit s.front v ≡ true) ↔ ((v < g.max_vid) × (s.distances v ≡ pos d))

  abbrev Stepped : ℕ → State p → ℕ → Type 0
  Stepped d s distance =
      let up = do_bfs_bu_step p g distance s.distances s.front s.curr in
      Advance g d s.distances up.distances
      × ((v : ℕ)
          → (p.get_bit up.next v ≡ true) ↔ ((v < g.max_vid) × (up.distances v ≡ pos (suc d))))
      × (0 < up.awake_count
          → (v : ℕ) × (v < g.max_vid)
            × (negative (s.distances v) ≡ true)
            × (up.distances v ≡ pos (suc d)))

  module _ (und : IsUndirected g) (low : root < g.max_vid) where
    pub bu_round-Rising :
        (d : ℕ) (s : State p)
        → Rising d s
        → Rising (suc d) (bu_round p g s).0
          × Exact (suc d) (bu_round p g s).0
          × Keeps g s.distances (bu_round p g s).0.distances
          × ((bu_round p g s).0.queue ≡ s.queue)
          × (0 < (bu_round p g s).1
              → unknown g (bu_round p g s).0.distances < unknown g s.distances)
    unfolding bu_round
    bu_round-Rising d s r =
        let up = do_bfs_bu_step p g s.distance s.distances s.front s.curr in
        let (adv, exact, awake) =
          subst (Stepped d s) (sym r.next_distance)
            (bu-Advance p g root d und low s.distances r.lev s.front s.curr r.fronts) in
        (
          record {
            next_distance = omega (arith, r.next_distance);
            lev = Advance-Leveled und low r.lev adv;
            fronts = record {
              covers = λ v inv e. (exact v).1 (inv, e);
              earlier = λ v b. let (inv, e) = (exact v).0 b in (inv, (suc d, omega arith, e));
            };
          },
          exact,
          adv.keeps,
          refl,
          λ h.
              let (v, inv, new, at) = awake h in
              unknown_less g s.distances up.distances v adv.keeps inv
                (pos-negative (up.distances v) (suc d) at) new,
        )

    bu_loop_step :
        (beta fuel old : ℕ) (s : State p)
        → (beta == 0) ≡ false
        → bu_loop p g beta (suc fuel) old s ≡ (
            let awake = (bu_round p g s).1 in
            if leb old awake || ltb (g.num_vertices / beta) awake
            then bu_loop p g beta fuel awake (bu_round p g s).0
            else some (bu_round p g s).0)
    unfolding bu_loop
    bu_loop_step beta fuel old s nz = elim (Bool-cases (leb old (bu_round p g s).1)) [
      | inl up ↦ rw up refl
      | inr down ↦ rw (down, nz) refl
    ]

    pub bu_loop-ends :
        (beta fuel old d : ℕ) (s : State p)
        → (beta == 0) ≡ false
        → Rising d s
        → 0 < old
        → unknown g s.distances < fuel
        → (s' : State p) × (bu_loop p g beta fuel old s ≡ some s')
          × ((e : ℕ) × (d < e) × Rising e s' × Exact e s')
          × Keeps g s.distances s'.distances
          × (s'.queue ≡ s.queue)
    unfolding bu_loop
    bu_loop-ends beta zero old d s nz r h enough = absurd (omega (arith, enough))
    bu_loop-ends beta (suc fuel) old d s nz r h enough =
        let (r1, exact1, keeps1, queue1, less) = bu_round-Rising d s r in
        let s1 = (bu_round p g s).0 in
        let awake = (bu_round p g s).1 in
        elim (Bool-cases (leb old awake || ltb (g.num_vertices / beta) awake)) [
          | inl more ↦
              let some_awake : 0 < awake = ground (arith, more, h) in
              let (s', run, (e, later, r', exact'), keeps', queue') =
                bu_loop-ends beta fuel awake (suc d) s1 nz r1 some_awake
                  (omega (arith, enough, less some_awake)) in
              (
                s',
                bu_loop_step beta fuel old s nz ∙ rw more run,
                (e, omega (arith, later), r', exact'),
                Keeps-trans g s.distances s1.distances s'.distances keeps1 keeps',
                queue' ∙ queue1,
              )
          | inr done ↦ (
            s1,
            bu_loop_step beta fuel old s nz ∙ rw done refl,
            (suc d, omega arith, r1, exact1),
            keeps1,
            queue1,
          )
        ]
