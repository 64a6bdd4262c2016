-- ===== src/Algorithm/Wcc.antt =====
-- algorithm/WCC.{h,cpp}: weakly connected components. The state of a loop is `components` with the
-- flag `changed`.
pub mod Connected
pub mod Settled
use avbgraph.Prelude.{
  ℕ, zero, suc, ◌+◌, min, Bool, true, false, List, [], ◌∷◌, Option, none, some, ltb, ◌==◌,
  if◌then◌else◌, update,
}

-- A graph as the algorithm reads it: the number of vertices, their degrees at the reader's epoch,
-- and the destinations that for_each_edge hands on, without their flags.
pub record Reading : Type 0 where
  pub max_vid : ℕ
  pub degree : ℕ → ℕ
  pub destinations : ℕ → List ℕ

pub record State : Type 0 where
  pub components : ℕ → ℕ
  pub changed : Bool

-- The callback of the forward propagation.
unfoldable pub forward_edge : ℕ → ℕ → State → State
forward_edge my v s =
    if ltb my (s.components v)
    then record { components = update s.components v my; changed = true }
    else s

unfoldable pub forward_edges : ℕ → List ℕ → State → State
forward_edges my [] s = s
forward_edges my (v ∷ vs) s = forward_edges my vs (forward_edge my v s)

unfoldable pub lower : ℕ → ℕ → ℕ → State → State
lower u a m s =
    if a == m then s else record { components = update s.components u m; changed = true }

-- The callback of the backward propagation.
unfoldable pub backward_edge : ℕ → ℕ → State → State
backward_edge u v s =
    let a = s.components u in let b = s.components v in lower v b (min a b) (lower u a (min a b) s)

unfoldable pub backward_edges : ℕ → List ℕ → State → State
backward_edges u [] s = s
backward_edges u (v ∷ vs) s = backward_edges u vs (backward_edge u v s)

module _ (g : Reading) where
  -- The loops over the vertices below a bound.
  unfoldable pub forward_pass : ℕ → State → State
  forward_pass zero s = s
  forward_pass (suc u) s =
      let before = forward_pass u s in
      if g.degree u == 0
      then before
      else forward_edges (before.components u) (g.destinations u) before

  unfoldable pub backward_pass : ℕ → State → State
  backward_pass zero s = s
  backward_pass (suc u) s = backward_edges u (g.destinations u) (backward_pass u s)

  -- The body of `while (changed.load() && iter < 100)`.
  unfoldable pub iteration : (ℕ → ℕ) → State
  iteration components =
      backward_pass g.max_vid
        (forward_pass g.max_vid (record { components = components; changed = false }))

  -- The loop, on the iterations that are left; it starts with `changed` set.
  unfoldable pub wcc_loop : ℕ → (ℕ → ℕ) → State
  wcc_loop zero components = record { components = components; changed = true }
  wcc_loop (suc left) components =
      let s = iteration components in
      let rest = wcc_loop left s.components in if s.changed then rest else s

  -- `while (components[cur] != cur) cur = components[cur];`
  unfoldable pub root : ℕ → (ℕ → ℕ) → ℕ → Option ℕ
  root zero components cur = none
  root (suc fuel) components cur =
      let rest = root fuel components (components cur) in
      if components cur == cur then some cur else rest

  unfoldable pub settled_components : State
  settled_components = wcc_loop 100 (λ v. v)

  -- compute_wcc: the component of a vertex.
  unfoldable pub compute_wcc : ℕ → Option ℕ
  compute_wcc v = root (suc v) settled_components.components v
