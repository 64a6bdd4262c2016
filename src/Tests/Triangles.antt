-- ===== src/Tests/Triangles.antt =====
-- The triangle 0, 1, 2 with the vertex 3 at 0.
use avbgraph.Algorithm.Lcc.Triangles.{Strict, triangle_sum, count_triangles-triangle_sum}
use avbgraph.Algorithm.Lcc.{
  precedes, orient, add2, found, intersect, intersect_all, count_triangles,
}
use avbgraph.Prelude.{ℕ, zero, suc, ◌*◌, ◌≡◌, refl, List, [], ◌∷◌, arith}

abbrev kite : ℕ → List ℕ
kite zero = 1 ∷ 2 ∷ 3 ∷ []
kite (suc zero) = 0 ∷ 2 ∷ []
kite (suc (suc zero)) = 0 ∷ 1 ∷ []
kite (suc (suc (suc zero))) = 0 ∷ []
kite (suc (suc (suc (suc v)))) = []

kite-Strict : (v : ℕ) → Strict 0 (kite v)
kite-Strict zero = (omega arith, (omega arith, (omega arith, tt)))
kite-Strict (suc zero) = (omega arith, (omega arith, tt))
kite-Strict (suc (suc zero)) = (omega arith, (omega arith, tt))
kite-Strict (suc (suc (suc zero))) = (omega arith, tt)
kite-Strict (suc (suc (suc (suc v)))) = tt

count_triangles-triangle_sum_example : count_triangles kite 4 0 ≡ 2 * triangle_sum kite 0 4
count_triangles-triangle_sum_example = count_triangles-triangle_sum kite kite-Strict 4 0

count_triangles_test : count_triangles kite 4 0 ≡ 2
unfolding count_triangles intersect_all intersect found add2 orient precedes
count_triangles_test = refl
