-- ===== src/Algorithm/Bfs/Outer.antt =====
-- The rounds of the outer loop of bfs.
use avbgraph.Algorithm.Bfs.TopDown.{Holds, td-Advance, both}
use avbgraph.Algorithm.Bfs.Unvisited.{unknown, unknown_less, count_below-le}
use avbgraph.Algorithm.Bfs.Walks.{
  Advance, Advance-Leveled, Leveled, IsUndirected, Keeps, pos-negative,
}
use avbgraph.Algorithm.Bfs.{
  Gapbs, Reading, State, negative, quot, is_empty, set_bits, collect, do_bfs_td_step, bottom_up,
  top_down, bfs_round,
}
use avbgraph.Prelude.Int.{pos, ltb_ℤ}
use avbgraph.Prelude.{
  mem, ℕ, suc, ◌<◌, ◌≡◌, inl, inr, refl, ap, sym, ◌∙◌, subst, false, ◌&&◌, some, ltb, ◌==◌, length,
  arith, Bool-cases, lt→ltb,
}
use avbgraph.Algorithm.Bfs.Queues.{set_bits-get_bit, collect-pending, some_member, some_length}
use avbgraph.Algorithm.Bfs.Rounds.{found_since, Ready, Rising, bu_loop-ends}

module _ (p : Gapbs) (g : Reading) (root : ℕ) where
  abbrev SteppedDown : ℕ → State p → ℕ → Type 0
  SteppedDown d s distance =
      let down = do_bfs_td_step p g distance s.distances s.queue in
      Advance g d s.distances down.distances × Holds g (suc d) down.distances (p.pending down.queue)

  module _ (und : IsUndirected g) (low : root < g.max_vid) where
    -- A round of the outer loop ends at a later level, and has found a vertex unless it leaves the
    -- window empty.
    abbrev pub Moved : ℕ → State p → State p → Type 0
    Moved d s s' =
        ((e : ℕ) × (d < e) × Ready p g root e s')
        × Keeps g s.distances s'.distances
        × (is_empty (p.window s'.queue) ≡ false → unknown g s'.distances < unknown g s.distances)

    fewer :
        (d e : ℕ) (s s' : State p)
        → Leveled g root d s.distances
        → d < e
        → Holds g e s'.distances (p.window s'.queue)
        → Keeps g s.distances s'.distances
        → is_empty (p.window s'.queue) ≡ false
        → unknown g s'.distances < unknown g s.distances
    fewer d e s s' lev later holds keeps filled =
        let (v, m) = some_member (p.window s'.queue) filled in
        let (inv, at) = (holds v).0 m in
        unknown_less g s.distances s'.distances v keeps inv (pos-negative (s'.distances v) e at)
          (found_since g root d e s.distances s'.distances v lev keeps inv later at)

    bottom_up-Moved :
        (beta d : ℕ) (s : State p)
        → (beta == 0) ≡ false
        → Ready p g root d s
        → is_empty (p.window s.queue) ≡ false
        → (s' : State p) × (bottom_up p g beta s ≡ some s') × Moved d s s'
    unfolding bottom_up
    bottom_up-Moved beta d s nz r filled =
        let us = p.window s.queue in
        let start : State p = record s {
          front = set_bits p us s.front;
          queue = p.slide_window s.queue;
        } in
        let rising : Rising p g root d start = record {
          next_distance = r.next_distance;
          lev = r.lev;
          fronts = record {
            covers = λ v inv e. set_bits-get_bit p us s.front v ∙ rw ((r.holds v).1 (inv, e)) refl;
            earlier = λ v b. elim (Bool-cases (mem v us)) [
              | inl m ↦ let (inv, e) = (r.holds v).0 m in (inv, (d, omega arith, e))
              | inr off ↦ r.stale v (sym (set_bits-get_bit p us s.front v ∙ rw off refl) ∙ b)
            ];
          };
        } in
        let (s1, run, (e, later, r1, exact), keeps, queue1) =
          bu_loop-ends p g root und low beta (suc g.max_vid) (length us) d start nz rising
            (some_length us filled)
            (omega (arith, count_below-le g.max_vid (λ v. negative (s.distances v)))) in
        let q = collect p s1.front g.max_vid s1.queue in
        let s' : State p = record s1 { queue = p.slide_window q; scout_count = pos 1 } in
        let pushed : (v : ℕ)
            → mem v (p.window s'.queue) ≡ (ltb v g.max_vid && p.get_bit s1.front v) =
          λ v.
            ap (mem v) (p.window-slide_window q)
            ∙ collect-pending p s1.front g.max_vid s1.queue v
            ∙ rw (queue1, p.pending-slide_window s.queue) refl in
        let holds : Holds g e s1.distances (p.window s'.queue) = λ v. (
          λ m.
              let (inv, bit) = both (ltb v g.max_vid) (p.get_bit s1.front v) (sym (pushed v) ∙ m) in
              (exact v).0 bit,
          λ (inv, at). pushed v ∙ rw (lt→ltb _ _ inv, (exact v).1 (inv, at)) refl,
        ) in
        (
          s',
          rw run refl,
          (
            (
              e,
              later,
              record {
                next_distance = r1.next_distance;
                lev = r1.lev;
                holds = holds;
                nothing = p.pending-slide_window q;
                stale = r1.fronts.earlier;
              },
            ),
            keeps,
            fewer d e s s' r.lev later holds keeps,
          ),
        )

    top_down-Moved : (d : ℕ) (s : State p) → Ready p g root d s → Moved d s (top_down p g s)
    unfolding top_down
    top_down-Moved d s r =
        let s' = top_down p g s in
        let down = do_bfs_td_step p g s.distance s.distances s.queue in
        let (adv, pushed) =
          subst (SteppedDown d s) (sym r.next_distance)
            (td-Advance p g root d s.distances s.queue und r.lev r.holds r.nothing) in
        let holds : Holds g (suc d) s'.distances (p.window s'.queue) = λ v. (
          λ m. (pushed v).0 (sym (ap (mem v) (p.window-slide_window down.queue)) ∙ m),
          λ h. ap (mem v) (p.window-slide_window down.queue) ∙ (pushed v).1 h,
        ) in
        (
          (
            suc d,
            omega arith,
            record {
              next_distance = omega (arith, r.next_distance);
              lev = Advance-Leveled und low r.lev adv;
              holds = holds;
              nothing = p.pending-slide_window down.queue;
              stale = λ v b.
                  let (inv, (k, a, e)) = r.stale v b in
                  (
                    inv,
                    (k, omega (arith, a), adv.keeps v inv (pos-negative (s.distances v) k e) ∙ e),
                  );
            },
          ),
          adv.keeps,
          fewer d (suc d) s s' r.lev (omega arith) holds adv.keeps,
        )

    pub bfs_round-Moved :
        (alpha beta d : ℕ) (s : State p)
        → (alpha == 0) ≡ false
        → (beta == 0) ≡ false
        → Ready p g root d s
        → is_empty (p.window s.queue) ≡ false
        → (s' : State p) × (bfs_round p g alpha beta s ≡ some s') × Moved d s s'
    unfolding bfs_round
    bfs_round-Moved alpha beta d s na nb r filled =
        elim (Bool-cases (ltb_ℤ (quot s.edges_to_check alpha) s.scout_count)) [
          | inl up ↦
              let (s', run, moved) = bottom_up-Moved beta d s nb r filled in
              (s', rw (na, up) run, moved)
          | inr down ↦ (top_down p g s, rw (na, down) refl, top_down-Moved d s r)
        ]
