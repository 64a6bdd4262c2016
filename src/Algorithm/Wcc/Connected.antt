-- ===== src/Algorithm/Wcc/Connected.antt =====
-- The components only ever hold vertices that are connected.
use avbgraph.Algorithm.Wcc.{
  Reading, State, forward_edge, forward_edges, lower, backward_edge, backward_edges, forward_pass,
  backward_pass, iteration, wcc_loop, root,
}
use avbgraph.Prelude.{
  mem, ℕ, zero, suc, min, ◌≤◌, ◌<◌, ◌≡◌, refl, subst, true, false, List, [], ◌∷◌, some, ltb, ◌==◌,
  arith, update, Bool-cases, inl, inr, ==_refl, ltb→lt,
}

-- Connected by edges of either direction.
pub data Linked (g : Reading) : ℕ → ℕ → Type 0 where
  itself : (v : ℕ) → Linked g v v
  along :
      (u v w : ℕ) → u < g.max_vid → mem v (g.destinations u) ≡ true → Linked g v w → Linked g u w
  against :
      (u v w : ℕ) → u < g.max_vid → mem v (g.destinations u) ≡ true → Linked g u w → Linked g v w

pub Linked-trans : {g : Reading} {u v w : ℕ} → Linked g u v → Linked g v w → Linked g u w
Linked-trans (itself v) q = q
Linked-trans (along u v w h e p) q = along u v _ h e (Linked-trans p q)
Linked-trans (against u v w h e p) q = against u v _ h e (Linked-trans p q)

pub Linked-sym : {g : Reading} {u v : ℕ} → Linked g u v → Linked g v u
Linked-sym (itself v) = itself v
Linked-sym (along u v w h e p) = Linked-trans (Linked-sym p) (against u v u h e (itself u))
Linked-sym (against u v w h e p) = Linked-trans (Linked-sym p) (along u v v h e (itself v))

-- Every component is a connected vertex that is not larger.
abbrev pub Sound : Reading → (ℕ → ℕ) → Type 0
Sound g components = (v : ℕ) → (components v ≤ v) × Linked g v (components v)

update-Sound :
    {g : Reading} {components : ℕ → ℕ} (v m : ℕ)
    → m ≤ v
    → Linked g v m
    → Sound g components
    → Sound g (update components v m)
update-Sound {g} {components} v m small linked sound w = elim (Bool-cases (v == w)) [
  | inl e ↦
      let same : v ≡ w = ground arith in
      rw e (omega (arith, small, same), subst (λ (u : ℕ). Linked g u m) same linked)
  | inr e ↦ rw e (sound w)
]

forward_edge-Sound :
    {g : Reading} (u v my : ℕ) (s : State)
    → Linked g v my
    → Sound g s.components
    → Sound g (forward_edge my v s).components
unfolding forward_edge
forward_edge-Sound u v my s linked sound = elim (Bool-cases (ltb my (s.components v))) [
  | inl e ↦ rw e (update-Sound v my (omega (arith, ltb→lt _ _ e, (sound v).0)) linked sound)
  | inr e ↦ rw e sound
]

forward_edges-Sound :
    {g : Reading} (u my : ℕ) (vs : List ℕ) (s : State)
    → ((v : ℕ) → mem v vs ≡ true → Linked g v my)
    → Sound g s.components
    → Sound g (forward_edges my vs s).components
unfolding forward_edges
forward_edges-Sound u my [] s linked sound = sound
forward_edges-Sound u my (v ∷ vs) s linked sound =
    forward_edges-Sound u my vs (forward_edge my v s) (λ w h. linked w (ground (arith, h)))
      (forward_edge-Sound u v my s (linked v (ground (arith, ==_refl v))) sound)

forward_pass-Sound :
    (g : Reading) (bound : ℕ) (s : State)
    → bound ≤ g.max_vid
    → Sound g s.components
    → Sound g (forward_pass g bound s).components
unfolding forward_pass
forward_pass-Sound g zero s h sound = sound
forward_pass-Sound g (suc u) s h sound =
    let before = forward_pass g u s in
    let ih = forward_pass-Sound g u s (omega (arith, h)) sound in
    elim (Bool-cases (g.degree u == 0)) [
      | inl e ↦ rw e ih
      | inr e ↦ rw e (
          forward_edges-Sound u (before.components u) (g.destinations u) before
            (λ v q. against u v (before.components u) h q (ih u).1) ih)
    ]

lower-Sound :
    {g : Reading} (u a m : ℕ) (s : State)
    → m ≤ u
    → Linked g u m
    → Sound g s.components
    → Sound g (lower u a m s).components
unfolding lower
lower-Sound u a m s small linked sound = elim (Bool-cases (a == m)) [
  | inl e ↦ rw e sound
  | inr e ↦ rw e (update-Sound u m small linked sound)
]

-- Of two linked vertices, both are linked to the smaller of their components.
min-Linked :
    {g : Reading} (u v a b : ℕ)
    → Linked g u v
    → Linked g u a
    → Linked g v b
    → Linked g u (min a b) × Linked g v (min a b)
min-Linked {g} u v a b uv ua vb = elim (Bool-cases (ltb a b)) [
  | inl e ↦
      let first : a ≡ min a b = ground arith in
      (
        subst (λ (m : ℕ). Linked g u m) first ua,
        subst (λ (m : ℕ). Linked g v m) first (Linked-trans (Linked-sym uv) ua),
      )
  | inr e ↦
      let second : b ≡ min a b = ground arith in
      (
        subst (λ (m : ℕ). Linked g u m) second (Linked-trans uv vb),
        subst (λ (m : ℕ). Linked g v m) second vb,
      )
]

backward_edge-Sound :
    {g : Reading} (u v : ℕ) (s : State)
    → Linked g u v
    → Sound g s.components
    → Sound g (backward_edge u v s).components
unfolding backward_edge
backward_edge-Sound u v s linked sound =
    let a = s.components u in
    let b = s.components v in
    let (um, vm) = min-Linked u v a b linked (sound u).1 (sound v).1 in
    lower-Sound v b (min a b) (lower u a (min a b) s) (omega (arith, (sound v).0)) vm
      (lower-Sound u a (min a b) s (omega (arith, (sound u).0)) um sound)

backward_edges-Sound :
    {g : Reading} (u : ℕ) (vs : List ℕ) (s : State)
    → ((v : ℕ) → mem v vs ≡ true → Linked g u v)
    → Sound g s.components
    → Sound g (backward_edges u vs s).components
unfolding backward_edges
backward_edges-Sound u [] s linked sound = sound
backward_edges-Sound u (v ∷ vs) s linked sound =
    backward_edges-Sound u vs (backward_edge u v s) (λ w h. linked w (ground (arith, h)))
      (backward_edge-Sound u v s (linked v (ground (arith, ==_refl v))) sound)

backward_pass-Sound :
    (g : Reading) (bound : ℕ) (s : State)
    → bound ≤ g.max_vid
    → Sound g s.components
    → Sound g (backward_pass g bound s).components
unfolding backward_pass
backward_pass-Sound g zero s h sound = sound
backward_pass-Sound g (suc u) s h sound =
    backward_edges-Sound u (g.destinations u) (backward_pass g u s)
      (λ v q. along u v v h q (itself v)) (backward_pass-Sound g u s (omega (arith, h)) sound)

iteration-Sound :
    (g : Reading) (components : ℕ → ℕ)
    → Sound g components
    → Sound g (iteration g components).components
unfolding iteration
iteration-Sound g components sound =
    let start : State = record { components = components; changed = false } in
    backward_pass-Sound g g.max_vid (forward_pass g g.max_vid start) (omega arith)
      (forward_pass-Sound g g.max_vid start (omega arith) sound)

pub wcc_loop-Sound :
    (g : Reading) (left : ℕ) (components : ℕ → ℕ)
    → Sound g components
    → Sound g (wcc_loop g left components).components
unfolding wcc_loop
wcc_loop-Sound g zero components sound = sound
wcc_loop-Sound g (suc left) components sound =
    let s = iteration g components in
    elim (Bool-cases s.changed) [
      | inl e ↦ rw e (wcc_loop-Sound g left s.components (iteration-Sound g components sound))
      | inr e ↦ rw e (iteration-Sound g components sound)
    ]

-- The walk up the components ends within as many steps as the number of the vertex, at a connected
-- vertex that is its own component.
pub root-Linked :
    (g : Reading) (components : ℕ → ℕ) (fuel cur : ℕ)
    → Sound g components
    → cur < fuel
    → (r : ℕ) × (root g fuel components cur ≡ some r) × Linked g cur r × (components r ≡ r)
unfolding root
root-Linked g components zero cur sound h = absurd (omega (arith, h))
root-Linked g components (suc fuel) cur sound h = elim (Bool-cases (components cur == cur)) [
  | inl e ↦ (cur, rw e refl, itself cur, ground arith)
  | inr e ↦
      let less : components cur < fuel = ground (arith, (sound cur).0, h) in
      let (r, found, linked, top) = root-Linked g components fuel (components cur) sound less in
      (r, rw e found, Linked-trans (sound cur).1 linked, top)
]
