-- ===== src/Algorithm/Wcc/Settled.antt =====
-- An iteration that changes nothing has found the components.
use avbgraph.Algorithm.Wcc.Connected.{
  Linked, itself, along, against, Sound, Linked-trans, Linked-sym, wcc_loop-Sound, root-Linked,
}
use avbgraph.Algorithm.Wcc.{
  Reading, State, forward_edge, forward_edges, lower, backward_edge, backward_edges, forward_pass,
  backward_pass, iteration, wcc_loop, settled_components, compute_wcc,
}
use avbgraph.Prelude.{
  mem, ℕ, zero, suc, min, ◌≤◌, ◌<◌, ◌≡◌, refl, ap, sym, ◌∙◌, subst, true, false, List, [], ◌∷◌,
  some, ltb, ◌==◌, if◌then◌else◌, arith, Bool-cases, inl, inr,
}

-- If nothing was changed, the state is the one before.
abbrev Quiet : State → State → Type 0
Quiet s t = t.changed ≡ false → t ≡ s

Quiet-trans : (s t u : State) → Quiet s t → Quiet t u → Quiet s u
Quiet-trans s t u p q e = let same = q e in same ∙ p (ap (λ (r : State). r.changed) (sym same) ∙ e)

forward_edge-Quiet : (my v : ℕ) (s : State) → Quiet s (forward_edge my v s)
unfolding forward_edge
forward_edge-Quiet my v s e = elim (Bool-cases (ltb my (s.components v))) [
  | inl less ↦ absurd (ground (arith, e, less))
  | inr more ↦ rw more refl
]

forward_edges-Quiet : (my : ℕ) (vs : List ℕ) (s : State) → Quiet s (forward_edges my vs s)
unfolding forward_edges
forward_edges-Quiet my [] s = λ e. refl
forward_edges-Quiet my (v ∷ vs) s =
    Quiet-trans s (forward_edge my v s) (forward_edges my vs (forward_edge my v s))
      (forward_edge-Quiet my v s) (forward_edges-Quiet my vs (forward_edge my v s))

-- What a vertex of the forward pass does to the state before it.
forward_vertex-Quiet :
    (g : Reading) (u : ℕ) (s : State)
    → Quiet s (if g.degree u == 0 then s else forward_edges (s.components u) (g.destinations u) s)
forward_vertex-Quiet g u s = elim (Bool-cases (g.degree u == 0)) [
  | inl alone ↦ rw alone (λ e. refl)
  | inr some_edge ↦ rw some_edge (forward_edges-Quiet (s.components u) (g.destinations u) s)
]

forward_pass-Quiet : (g : Reading) (bound : ℕ) (s : State) → Quiet s (forward_pass g bound s)
unfolding forward_pass
forward_pass-Quiet g zero s = λ e. refl
forward_pass-Quiet g (suc u) s =
    Quiet-trans s (forward_pass g u s) _ (forward_pass-Quiet g u s)
      (forward_vertex-Quiet g u (forward_pass g u s))

lower-Quiet :
    (u a m : ℕ) (s : State) → (lower u a m s).changed ≡ false → (a ≡ m) × (lower u a m s ≡ s)
unfolding lower
lower-Quiet u a m s e = elim (Bool-cases (a == m)) [
  | inl same ↦ (ground arith, rw same refl)
  | inr other ↦ absurd (ground (arith, e, other))
]

-- A quiet edge has the same component on both sides.
backward_edge-Quiet :
    (u v : ℕ) (s : State)
    → (backward_edge u v s).changed ≡ false
    → (backward_edge u v s ≡ s) × (s.components u ≡ s.components v)
unfolding backward_edge
backward_edge-Quiet u v s e =
    let a = s.components u in
    let b = s.components v in
    let (bm, second) = lower-Quiet v b (min a b) (lower u a (min a b) s) e in
    let (am, first) =
      lower-Quiet u a (min a b) s (ap (λ (t : State). t.changed) (sym second) ∙ e) in
    (second ∙ first, am ∙ sym bm)

backward_edges-Quiet :
    (u : ℕ) (vs : List ℕ) (s : State)
    → (backward_edges u vs s).changed ≡ false
    → (backward_edges u vs s ≡ s) × ((v : ℕ) → mem v vs ≡ true → s.components u ≡ s.components v)
unfolding backward_edges
backward_edges-Quiet u [] s e = (refl, λ v h. absurd (cc))
backward_edges-Quiet u (v ∷ vs) s e =
    let (rest, others) = backward_edges-Quiet u vs (backward_edge u v s) e in
    let (first, same) = backward_edge-Quiet u v s (ap (λ (t : State). t.changed) (sym rest) ∙ e) in
    (
      rest ∙ first,
      λ w h. elim (Bool-cases (v == w)) [
        | inl here ↦ let at : v ≡ w = ground arith in same ∙ ap s.components at
        | inr there ↦
            subst (λ (t : State). t.components u ≡ t.components w) first
              (others w (ground (arith, h, there)))
      ],
    )

backward_pass-Quiet :
    (g : Reading) (bound : ℕ) (s : State)
    → (backward_pass g bound s).changed ≡ false
    → (backward_pass g bound s ≡ s)
      × ((u v : ℕ) → u < bound → mem v (g.destinations u) ≡ true → s.components u ≡ s.components v)
unfolding backward_pass
backward_pass-Quiet g zero s e = (refl, λ u v h q. absurd (omega (arith, h)))
backward_pass-Quiet g (suc bound) s e =
    let (last, here) =
      backward_edges-Quiet bound (g.destinations bound) (backward_pass g bound s) e in
    let (rest, before) =
      backward_pass-Quiet g bound s (ap (λ (t : State). t.changed) (sym last) ∙ e) in
    (
      last ∙ rest,
      λ u v h q. elim (Bool-cases (u == bound)) [
        | inl same ↦
            let at : u ≡ bound = ground arith in
            subst (λ (t : State). t.components u ≡ t.components v) rest
              (ap (backward_pass g bound s).components at
                ∙ here v (subst (λ (w : ℕ). mem v (g.destinations w) ≡ true) at q))
        | inr other ↦ before u v (ground (arith, h)) q
      ],
    )

-- The two ends of every edge have the same component.
abbrev Even : Reading → (ℕ → ℕ) → Type 0
Even g components =
    (u v : ℕ) → u < g.max_vid → mem v (g.destinations u) ≡ true → components u ≡ components v

iteration-Even :
    (g : Reading) (components : ℕ → ℕ)
    → (iteration g components).changed ≡ false
    → Even g (iteration g components).components
unfolding iteration
iteration-Even g components e =
    let start : State = record { components = components; changed = false } in
    let (same, even) = backward_pass-Quiet g g.max_vid (forward_pass g g.max_vid start) e in
    subst (λ (t : State). Even g t.components) (sym same) even

wcc_loop-Even :
    (g : Reading) (left : ℕ) (components : ℕ → ℕ)
    → (wcc_loop g left components).changed ≡ false
    → Even g (wcc_loop g left components).components
unfolding wcc_loop
wcc_loop-Even g zero components e = absurd (cc)
wcc_loop-Even g (suc left) components e = elim (Bool-cases (iteration g components).changed) [
  | inl more ↦ rw more (wcc_loop-Even g left (iteration g components).components (rw more at e))
  | inr done ↦ rw done (iteration-Even g components done)
]

Even-Linked :
    {g : Reading} {components : ℕ → ℕ} {u v : ℕ}
    → Even g components
    → Linked g u v
    → components u ≡ components v
Even-Linked even (itself v) = refl
Even-Linked even (along u v w h e p) = even u v h e ∙ Even-Linked even p
Even-Linked even (against u v w h e p) = sym (even u v h e) ∙ Even-Linked even p

-- Every vertex gets a component, which is a vertex connected with it. If the loop ended before its
-- hundred iterations were used up with a change in each, the vertices connected with it get the
-- same component, and it is the smallest of them.
pub compute_wcc-Linked :
    (g : Reading) (v : ℕ)
    → (r : ℕ) × (compute_wcc g v ≡ some r)
      × Linked g v r
      × ((settled_components g).changed ≡ false
          → (w : ℕ) → Linked g v w
          → (r ≤ w) × (compute_wcc g w ≡ some r))
unfolding compute_wcc settled_components
compute_wcc-Linked g v =
    let components = (wcc_loop g 100 (λ v. v)).components in
    let sound : Sound g components = wcc_loop-Sound g 100 (λ v. v) (λ v. (omega arith, itself v)) in
    let (r, found, linked, top) = root-Linked g components (suc v) v sound (omega arith) in
    (
      r,
      found,
      linked,
      λ e w p.
          let even = wcc_loop-Even g 100 (λ v. v) e in
          let (r', found', linked', top') =
            root-Linked g components (suc w) w sound (omega arith) in
          let one : r ≡ r' =
            sym top
            ∙ Even-Linked even (Linked-trans (Linked-trans (Linked-sym linked) p) linked')
            ∙ top' in
          (
            omega (arith, top, Even-Linked even (Linked-trans (Linked-sym linked) p), (sound w).0),
            found' ∙ ap (λ (k : ℕ). some k) (sym one),
          ),
    )
