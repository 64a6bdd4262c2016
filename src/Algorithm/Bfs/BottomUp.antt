-- ===== src/Algorithm/Bfs/BottomUp.antt =====
-- What the bottom-up step does.
use avbgraph.Algorithm.Bfs.Unvisited.{count_below, count_below_some}
use avbgraph.Algorithm.Bfs.TopDown.{marked, marked-Advance, both, next_marked}
use avbgraph.Algorithm.Bfs.Walks.{Advance, Leveled, IsUndirected, beside_known, pos-negative}
use avbgraph.Algorithm.Bfs.{
  Gapbs, Reading, Up, negative, is_max, found_neighbor, bu_vertex, bu_vertices, do_bfs_bu_step,
}
use avbgraph.Prelude.Int.{ℤ, pos, negsuc}
use avbgraph.Prelude.{
  mem, ℕ, zero, suc, ◌+◌, ◌<◌, ◌≤◌, ◌≡◌, ◌↔◌, inl, inr, refl, ap, sym, ◌∙◌, subst, true, false,
  Bool, ◌&&◌, ◌||◌, List, [], ◌∷◌, ◌==◌, if◌then◌else◌, ltb, update, arith, Bool-cases, ltb→lt,
  lt→ltb, ltb→le,
}

max-known : (z : ℤ) → is_max z ≡ true → negative z ≡ false
max-known (pos n) e = refl
max-known (negsuc n) e = absurd (cc)

module _ (p : Gapbs) (g : Reading) (distance : ℕ) (front : p.Bitmap) where
  -- Has the vertex a neighbour in the front?
  abbrev pub beside_front : ℕ → Bool
  beside_front v = found_neighbor p front (g.destinations v)

  abbrev pub newly : (ℕ → ℤ) → ℕ → Bool
  newly distances v = negative (distances v) && beside_front v

  -- A vertex that does not exist is no unknown one.
  bu_vertex_lem :
      (u : ℕ) (s : Up p)
      → bu_vertex p g distance front u s ≡ (
          if newly s.distances u
          then record {
            distances = update s.distances u (pos distance);
            next = p.set_bit u s.next;
            awake_count = s.awake_count + 1;
          }
          else s)
  unfolding bu_vertex
  bu_vertex_lem u s = elim (Bool-cases (is_max (s.distances u))) [
    | inl e ↦ rw (e, max-known (s.distances u) e) refl
    | inr e ↦ rw e refl
  ]

  -- The state after the vertices below a bound.
  pub record Marks (bound : ℕ) (s t : Up p) : Type 0 where
    pub distances_lem :
        (v : ℕ) → t.distances v ≡ marked distance (λ w. ltb w bound && beside_front w) s.distances v
    pub bits :
        (v : ℕ) → p.get_bit t.next v ≡ (p.get_bit s.next v || (ltb v bound && newly s.distances v))
    pub awake : t.awake_count ≡ s.awake_count + count_below bound (newly s.distances)

  here_below : (u : ℕ) → ltb u (suc u) ≡ true
  here_below u = ground arith

  abbrev after_suc : ℕ → ℕ → (ℕ → ℤ) → ℤ
  after_suc u v s =
      if u == v
      then (if newly s u then pos distance else s u)
      else marked distance (λ w. ltb w u && beside_front w) s v

  -- What the bound `suc u` adds is the vertex `u`.
  marked-suc :
      (u v : ℕ) (s : ℕ → ℤ)
      → marked distance (λ w. ltb w (suc u) && beside_front w) s v ≡ after_suc u v s
  marked-suc u v s = elim (Bool-cases (u == v)) [
    | inl at ↦
        let same : v ≡ u = ground arith in
        rw at (
          subst
            (λ (w : ℕ).
              marked distance (λ x. ltb x (suc u) && beside_front x) s w
              ≡ (if newly s u then pos distance else s u))
            (sym same) (rw (here_below u) refl))
    | inr other ↦ let step : ltb v (suc u) ≡ ltb v u = ground arith in rw (other, step) refl
  ]

  bits_suc :
      (u v : ℕ) (s : ℕ → ℤ)
      → (ltb v (suc u) && newly s v) ≡ (if u == v then newly s u else ltb v u && newly s v)
  bits_suc u v s = elim (Bool-cases (u == v)) [
    | inl at ↦
        let same : v ≡ u = ground arith in
        rw at (
          subst (λ (w : ℕ). (ltb w (suc u) && newly s w) ≡ newly s u) (sym same)
            (rw (here_below u) refl))
    | inr other ↦ let step : ltb v (suc u) ≡ ltb v u = ground arith in rw (other, step) refl
  ]

  same_at : (f : ℕ → ℤ) (u v : ℕ) → (u == v) ≡ true → f v ≡ f u
  same_at f u v at = let same : v ≡ u = ground arith in ap f same

  bu_vertex-Marks :
      (u : ℕ) (s t : Up p) → Marks u s t → Marks (suc u) s (bu_vertex p g distance front u t)
  bu_vertex-Marks u s t m =
      let self : ltb u u ≡ false = ground arith in
      let old : t.distances u ≡ s.distances u = m.distances_lem u ∙ rw self (ground arith) in
      let same : newly t.distances u ≡ newly s.distances u =
        ap (λ (z : ℤ). negative z && beside_front u) old in
      rw (bu_vertex_lem u t, same)
        (elim (Bool-cases (newly s.distances u)) [
          | inl e ↦ rw e (record {
            distances_lem = λ v.
                let now : update t.distances u (pos distance) v ≡ after_suc u v s.distances =
                  elim (Bool-cases (u == v)) [
                    | inl at ↦ rw (at, e) refl
                    | inr other ↦ rw other (m.distances_lem v)
                  ] in
                now ∙ sym (marked-suc u v s.distances);
            bits = λ v.
                p.get_bit-set_bit u t.next v
                ∙ ground (arith, m.bits v, bits_suc u v s.distances, e);
            awake = ground (arith, m.awake, e);
          })
          | inr e ↦ rw e (record {
            distances_lem = λ v.
                let now : t.distances v ≡ after_suc u v s.distances = elim (Bool-cases (u == v)) [
                  | inl at ↦ rw (at, e) (same_at t.distances u v at ∙ old)
                  | inr other ↦ rw other (m.distances_lem v)
                ] in
                now ∙ sym (marked-suc u v s.distances);
            bits = λ v. ground (arith, m.bits v, bits_suc u v s.distances, e);
            awake = ground (arith, m.awake, e);
          })
        ])

  bu_vertices-Marks :
      (bound : ℕ) (s : Up p) → Marks bound s (bu_vertices p g distance front bound s)
  unfolding bu_vertices
  bu_vertices-Marks zero s = record {
    distances_lem =
        λ v. let none_below : ltb v 0 ≡ false = ground arith in rw none_below (ground arith);
    bits = λ v. let none_below : ltb v 0 ≡ false = ground arith in rw none_below (ground arith);
    awake = omega arith;
  }
  bu_vertices-Marks (suc u) s =
      bu_vertex-Marks u s (bu_vertices p g distance front u s) (bu_vertices-Marks u s)

-- The front holds the vertices of a level, and besides only vertices of earlier ones: the bits of
-- an earlier run of bottom-up steps are not cleared.
pub record Fronts (p : Gapbs) (g : Reading) (d : ℕ) (distances : ℕ → ℤ) (front : p.Bitmap)
    : Type 0 where
  pub covers : (v : ℕ) → v < g.max_vid → distances v ≡ pos d → p.get_bit front v ≡ true
  pub earlier :
      (v : ℕ)
      → p.get_bit front v ≡ true
      → (v < g.max_vid) × ((k : ℕ) × (k ≤ d) × (distances v ≡ pos k))

found_some :
    (p : Gapbs) (front : p.Bitmap) (vs : List ℕ)
    → found_neighbor p front vs ≡ true
    → (w : ℕ) × (mem w vs ≡ true) × (p.get_bit front w ≡ true)
unfolding found_neighbor
found_some p front [] e = absurd (cc)
found_some p front (v ∷ vs) e = elim (Bool-cases (p.get_bit front v)) [
  | inl bit ↦ (v, ground arith, bit)
  | inr other ↦
      let (w, m, bit) = found_some p front vs (ground (arith, e, other)) in
      (w, ground (arith, m), bit)
]

found_mem :
    (p : Gapbs) (front : p.Bitmap) (vs : List ℕ) (w : ℕ)
    → mem w vs ≡ true
    → p.get_bit front w ≡ true
    → found_neighbor p front vs ≡ true
unfolding found_neighbor
found_mem p front [] w m bit = absurd (cc)
found_mem p front (v ∷ vs) w m bit = elim (Bool-cases (v == w)) [
  | inl at ↦
      let same : v ≡ w = ground arith in
      let here_bit : p.get_bit front v ≡ true = ap (p.get_bit front) same ∙ bit in rw here_bit refl
  | inr other ↦
      let later = found_mem p front vs w (ground (arith, m, other)) bit in ground (arith, later)
]

module _ (p : Gapbs) (g : Reading) (root d : ℕ) (und : IsUndirected g) (low : root < g.max_vid)
    (distances : ℕ → ℤ) (lev : Leveled g root d distances) (front next : p.Bitmap)
    (fronts : Fronts p g d distances front) where
  found-beside :
      (v : ℕ)
      → v < g.max_vid
      → negative (distances v) ≡ true
      → beside_front p g (suc d) front v ≡ true
      → (u : ℕ) × (u < g.max_vid) × (distances u ≡ pos d) × (mem v (g.destinations u) ≡ true)
  found-beside v inv new found =
      let (w, edge, bit) = found_some p front (g.destinations v) found in
      let (inw, (k, a, e)) = fronts.earlier w bit in
      let back = und.symmetric v w inv edge in
      elim (Bool-cases (ltb k d)) [
        | inl less ↦
            let (j, b, f) =
              beside_known g root d und low distances lev w v k inw e (ltb→lt _ _ less) back in
            absurd (cc (pos-negative (distances v) j f))
        | inr last ↦
            let same : k ≡ d = omega (arith, a, ltb→le _ _ last) in (w, inw, e ∙ ap pos same, back)
      ]

  not_found-beside :
      (v u : ℕ)
      → beside_front p g (suc d) front v ≡ false
      → u < g.max_vid
      → distances u ≡ pos d
      → mem v (g.destinations u) ≡ false
  not_found-beside v u missed inu e = elim (Bool-cases (mem v (g.destinations u))) [
    | inl edge ↦
        let back = und.symmetric u v inu edge in
        absurd (cc (found_mem p front (g.destinations v) u back (fronts.covers u inu e)))
    | inr off ↦ off
  ]

  -- In an undirected graph whose distances are known up to a level that the front covers, a
  -- bottom-up step finds the next level, and holds exactly it; what it counts, it found.
  pub bu-Advance :
      Advance g d distances (do_bfs_bu_step p g (suc d) distances front next).distances
      × ((v : ℕ)
          → (p.get_bit (do_bfs_bu_step p g (suc d) distances front next).next v ≡ true) ↔ (
              (v < g.max_vid)
              × ((do_bfs_bu_step p g (suc d) distances front next).distances v ≡ pos (suc d))))
      × (0 < (do_bfs_bu_step p g (suc d) distances front next).awake_count
          → (v : ℕ) × (v < g.max_vid)
            × (negative (distances v) ≡ true)
            × ((do_bfs_bu_step p g (suc d) distances front next).distances v ≡ pos (suc d)))
  unfolding do_bfs_bu_step
  bu-Advance =
      let start : Up p = record { distances = distances; next = p.reset next; awake_count = 0 } in
      let m = bu_vertices-Marks p g (suc d) front g.max_vid start in
      let end = bu_vertices p g (suc d) front g.max_vid start in
      let bound : (v : ℕ) → v < g.max_vid → ltb v g.max_vid ≡ true = λ v inv. lt→ltb _ _ inv in
      let eq : (v : ℕ)
          → v < g.max_vid
          → end.distances v ≡ marked (suc d) (beside_front p g (suc d) front) distances v =
        λ v inv. m.distances_lem v ∙ rw (bound v inv) refl in
      let bit : (v : ℕ)
          → p.get_bit end.next v ≡ (ltb v g.max_vid && newly p g (suc d) front distances v) =
        λ v. m.bits v ∙ rw (p.get_bit-reset next v) refl in
      (
        marked-Advance g d (beside_front p g (suc d) front) distances end.distances eq found-beside
            (λ v u inv t inu e. not_found-beside v u t inu e),
        λ v. (
          λ b.
              let (low_v, new) =
                both (ltb v g.max_vid) (newly p g (suc d) front distances v) (sym (bit v) ∙ b) in
              (ltb→lt _ _ low_v, eq v (ltb→lt _ _ low_v) ∙ rw new refl),
          λ (inv, e).
              bit v
              ∙ rw (bound v inv) (
                  next_marked g root d (beside_front p g (suc d) front) distances v lev inv
                    (sym (eq v inv) ∙ e)),
        ),
        λ h.
            let (v, inv, new) =
              count_below_some g.max_vid (newly p g (suc d) front distances)
                (omega (arith, h, m.awake)) in
            let (unvisited, found) =
              both (negative (distances v)) (beside_front p g (suc d) front v) new in
            (v, inv, unvisited, eq v inv ∙ rw (unvisited, found) refl),
      )
