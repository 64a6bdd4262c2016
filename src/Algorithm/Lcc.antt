-- ===== src/Algorithm/Lcc.antt =====
-- algorithm/LCC.{h,cpp}: local clustering coefficients, up to the division of the last step, which
-- is in floating point. The lists of neighbours are sorted.
pub mod Triangles
use avbgraph.Prelude.{
  ℕ, zero, suc, ◌+◌, Bool, ◌&&◌, ◌||◌, List, [], ◌∷◌, ltb, ◌==◌, if◌then◌else◌, length, update,
}

-- `du < dv || (du == dv && u < v)`
unfoldable pub precedes : (ℕ → List ℕ) → ℕ → ℕ → Bool
precedes neighbors u v =
    ltb (length (neighbors u)) (length (neighbors v))
    || ((length (neighbors u) == length (neighbors v)) && ltb u v)

-- The loop that fills `forward[u]`.
unfoldable pub orient : (ℕ → List ℕ) → ℕ → List ℕ → List ℕ
orient neighbors u [] = []
orient neighbors u (v ∷ vs) =
    let rest = orient neighbors u vs in if precedes neighbors u v then v ∷ rest else rest

abbrev pub forward : (ℕ → List ℕ) → ℕ → List ℕ
forward neighbors u = orient neighbors u (neighbors u)

-- `triangles[k].fetch_add(2)`
unfoldable pub add2 : ℕ → (ℕ → ℕ) → ℕ → ℕ
add2 k triangles = update triangles k (triangles k + 2)

-- The body at a common neighbour.
unfoldable pub found : ℕ → ℕ → ℕ → (ℕ → ℕ) → ℕ → ℕ
found u v w triangles = add2 w (add2 v (add2 u triangles))

-- The walk over two sorted lists.
unfoldable pub intersect : ℕ → ℕ → List ℕ → List ℕ → (ℕ → ℕ) → ℕ → ℕ
intersect u v [] fv triangles = triangles
intersect u v (x ∷ fu) [] triangles = triangles
intersect u v (x ∷ fu) (y ∷ fv) triangles =
    let skip_u = intersect u v fu (y ∷ fv) triangles in
    let skip_v = intersect u v (x ∷ fu) fv triangles in
    let both = intersect u v fu fv (found u v x triangles) in
    if ltb x y then skip_u else if ltb y x then skip_v else both

module _ (neighbors : ℕ → List ℕ) where
  unfoldable pub intersect_all : ℕ → List ℕ → (ℕ → ℕ) → ℕ → ℕ
  intersect_all u [] triangles = triangles
  intersect_all u (v ∷ vs) triangles =
      intersect_all u vs (intersect u v (forward neighbors u) (forward neighbors v) triangles)

  unfoldable pub count_triangles : ℕ → ℕ → ℕ
  count_triangles zero = λ k. 0
  count_triangles (suc u) = intersect_all u (forward neighbors u) (count_triangles u)
