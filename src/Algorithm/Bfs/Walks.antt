-- ===== src/Algorithm/Bfs/Walks.antt =====
-- The levels of a graph, and what a step of the search does to the distances.
use avbgraph.Algorithm.Bfs.{Reading, negative}
use avbgraph.Prelude.Int.{ℤ, pos, pos_part}
use avbgraph.Prelude.{
  mem, ℕ, zero, suc, ◌≤◌, ◌<◌, ◌≡◌, ◌≢◌, ◌↔◌, ◌⊎◌, inl, inr, refl, ap, sym, ◌∙◌, subst, true, false,
  arith, Bool-cases, ltb, ltb→lt, ltb→le,
}

-- A walk of a number of edges from a vertex.
pub data Walk (g : Reading) (root : ℕ) : ℕ → ℕ → Type 0 where
  here : Walk g root 0 root
  along : {k u v : ℕ} → Walk g root k u → mem v (g.destinations u) ≡ true → Walk g root (suc k) v

-- The vertex is as many edges away from the root.
abbrev pub IsLevel : Reading → ℕ → ℕ → ℕ → Type 0
IsLevel g root k v = Walk g root k v × ((j : ℕ) → Walk g root j v → k ≤ j)

-- Every edge stands at both of its ends, which are vertices.
pub record IsUndirected (g : Reading) : Type 0 where
  pub inside : (u v : ℕ) → u < g.max_vid → mem v (g.destinations u) ≡ true → v < g.max_vid
  pub symmetric :
      (u v : ℕ) → u < g.max_vid → mem v (g.destinations u) ≡ true → mem u (g.destinations v) ≡ true

-- The distances of the vertices up to a level are found, and those of no other.
pub record Leveled (g : Reading) (root d : ℕ) (distances : ℕ → ℤ) : Type 0 where
  pub sound : (v k : ℕ) → v < g.max_vid → distances v ≡ pos k → (k ≤ d) × Walk g root k v
  pub complete : (v k : ℕ) → k ≤ d → Walk g root k v → (j : ℕ) × (j ≤ k) × (distances v ≡ pos j)

-- A step keeps the distances that are known.
abbrev pub Keeps : Reading → (ℕ → ℤ) → (ℕ → ℤ) → Type 0
Keeps g before after = (v : ℕ) → v < g.max_vid → negative (before v) ≡ false → after v ≡ before v

-- A step gives the next level to the unknown vertices beside the last level, and to no other.
pub record Advance (g : Reading) (d : ℕ) (before after : ℕ → ℤ) : Type 0 where
  pub keeps : Keeps g before after
  pub reaches :
      (v : ℕ)
      → v < g.max_vid
      → negative (before v) ≡ true
      → ((after v ≡ pos (suc d))
          × ((u : ℕ) × (u < g.max_vid) × (before u ≡ pos d) × (mem v (g.destinations u) ≡ true)))
        ⊎ ((after v ≡ before v)
            × ((u : ℕ) → u < g.max_vid → before u ≡ pos d → mem v (g.destinations u) ≡ false))

Walk-inside :
    {g : Reading} {root k v : ℕ}
    → IsUndirected g
    → root < g.max_vid
    → Walk g root k v
    → v < g.max_vid
Walk-inside und low here = low
Walk-inside {g} und low (along {k} {u} {v} w e) = und.inside u v (Walk-inside und low w) e

pub pos-negative : (z : ℤ) (k : ℕ) → z ≡ pos k → negative z ≡ false
pos-negative z k e = ap negative e

pub known : (z : ℤ) → negative z ≡ false → (k : ℕ) × (z ≡ pos k)
known (pos k) e = (k, refl)
known (ℤ.negsuc k) e = absurd (cc)

module _ (g : Reading) (root d : ℕ) (und : IsUndirected g) (low : root < g.max_vid) (before : ℕ → ℤ)
    (lev : Leveled g root d before) where
  -- A neighbour of a vertex of an earlier level is known.
  pub beside_known :
      (u v j : ℕ)
      → u < g.max_vid
      → before u ≡ pos j
      → j < d
      → mem v (g.destinations u) ≡ true
      → (k : ℕ) × (k ≤ suc j) × (before v ≡ pos k)
  beside_known u v j inu e less edge =
      lev.complete v (suc j) (omega (arith, less)) (along (lev.sound u j inu e).1 edge)

  module _ (after : ℕ → ℤ) (adv : Advance g d before after) where
    Advance-sound : (v k : ℕ) → v < g.max_vid → after v ≡ pos k → (k ≤ suc d) × Walk g root k v
    Advance-sound v k inv e = elim (Bool-cases (negative (before v))) [
      | inr old ↦
          let (a, w) = lev.sound v k inv (sym (adv.keeps v inv old) ∙ e) in (omega (arith, a), w)
      | inl new ↦ elim (adv.reaches v inv new) [
        | inl (at, (u, inu, eu, edge)) ↦
            let same : suc d ≡ k = cc in
            (
              omega (arith, same),
              subst (λ (i : ℕ). Walk g root i v) same (along (lev.sound u d inu eu).1 edge),
            )
        | inr (at, other) ↦ absurd (cc (ap negative (sym at ∙ e)))
      ]
    ]

    keep_known :
        (v j b : ℕ)
        → v < g.max_vid
        → j ≤ b
        → before v ≡ pos j
        → (i : ℕ) × (i ≤ b) × (after v ≡ pos i)
    keep_known v j b inv h e = (j, h, adv.keeps v inv (pos-negative (before v) j e) ∙ e)

    last_complete :
        (u v k : ℕ)
        → u < g.max_vid
        → v < g.max_vid
        → before u ≡ pos d
        → d ≤ k
        → mem v (g.destinations u) ≡ true
        → (i : ℕ) × (i ≤ suc k) × (after v ≡ pos i)
    last_complete u v k inu inv e h edge = elim (Bool-cases (negative (before v))) [
      | inr old ↦
          let (i, f) = known (before v) old in
          keep_known v i (suc k) inv (omega (arith, lev.sound v i inv f, h)) f
      | inl new ↦ elim (adv.reaches v inv new) [
        | inl (at, next) ↦ (suc d, omega (arith, h), at)
        | inr (at, other) ↦ absurd (cc (other u inu e))
      ]
    ]

    Advance-complete :
        (v k : ℕ) → k ≤ suc d → Walk g root k v → (j : ℕ) × (j ≤ k) × (after v ≡ pos j)
    Advance-complete v zero h here =
        let (j, a, e) = lev.complete root 0 (omega arith) here in keep_known root j 0 low a e
    Advance-complete v (suc k) h (along {u = u} w edge) =
        let inu = Walk-inside und low w in
        let inv = und.inside u v inu edge in
        let (j, a, e) = lev.complete u k (omega (arith, h)) w in
        elim (Bool-cases (ltb j d)) [
          | inl less ↦
              let (i, b, f) = beside_known u v j inu e (ltb→lt _ _ less) edge in
              keep_known v i (suc k) inv (omega (arith, b, a)) f
          | inr late ↦
              let last : j ≡ d = omega (arith, a, h, lev.sound u j inu e, ltb→le _ _ late) in
              last_complete u v k inu inv (subst (λ (i : ℕ). before u ≡ pos i) last e)
                (omega (arith, a, last)) edge
        ]

pub Advance-Leveled :
    {g : Reading} {root d : ℕ} {before after : ℕ → ℤ}
    → IsUndirected g
    → root < g.max_vid
    → Leveled g root d before
    → Advance g d before after
    → Leveled g root (suc d) after
Advance-Leveled {g} {root} {d} {before} {after} und low lev adv = record {
  sound = Advance-sound g root d und low before lev after adv;
  complete = Advance-complete g root d und low before lev after adv;
}

-- If no vertex is in the last level, the levels end.
module _ (g : Reading) (root d : ℕ) (und : IsUndirected g) (low : root < g.max_vid)
    (distances : ℕ → ℤ) (lev : Leveled g root d distances)
    (none_left : (v : ℕ) → v < g.max_vid → distances v ≢ pos d) where
  all_known : (v k : ℕ) → Walk g root k v → (j : ℕ) × (j ≤ d) × (distances v ≡ pos j)
  all_known v zero here =
      let (j, a, e) = lev.complete root 0 (omega arith) here in (j, omega (arith, a), e)
  all_known v (suc k) (along {u = u} w edge) =
      let inu = Walk-inside und low w in
      let (j, a, e) = all_known u k w in
      let other : j ≢ d = λ same. none_left u inu (e ∙ ap pos same) in
      let (i, b, f) =
        beside_known g root d und low distances lev u v j inu e (omega (arith, a, other)) edge in
      (i, omega (arith, a, b, other), f)

  least : (v i : ℕ) → distances v ≡ pos i → i ≤ d → (j : ℕ) → Walk g root j v → i ≤ j
  least v i e a j w = elim (Bool-cases (ltb d j)) [
    | inl far ↦ omega (arith, ltb→lt _ _ far, a)
    | inr near ↦
        let (m, b, f) = lev.complete v j (ltb→le _ _ near) w in
        let same : pos i ≡ pos m = sym e ∙ f in omega (arith, b, ap pos_part same)
  ]

  pub distances-IsLevel : (v k : ℕ) → v < g.max_vid → (distances v ≡ pos k) ↔ IsLevel g root k v
  distances-IsLevel v k inv = (
    λ e. let (a, w) = lev.sound v k inv e in (w, λ j w'. least v k e a j w'),
    λ (w, first).
        let (j, a, e) = all_known v k w in
        let (b, w') = lev.sound v j inv e in
        let same : j ≡ k = omega (arith, first j w', least v j e b k w) in e ∙ ap pos same,
  )
