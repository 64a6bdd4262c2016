-- ===== src/Algorithm/Lcc/Triangles.antt =====
-- What the counting of triangles adds up.
use avbgraph.Algorithm.Lcc.{
  precedes, orient, forward, add2, found, intersect, intersect_all, count_triangles,
}
use avbgraph.Prelude.{
  mem, ℕ, zero, suc, ◌+◌, ◌*◌, ◌≤◌, ◌<◌, ◌≡◌, ◌≢◌, refl, ap, Bool, true, false, not, ◌&&◌, List, [],
  ◌∷◌, ltb, ◌==◌, if◌then◌else◌, arith, Bool-cases, inl, inr,
}

-- The neighbours rise.
abbrev pub Strict : ℕ → List ℕ → Type 0
Strict b [] = Unit {0}
Strict b (x ∷ xs) = (b ≤ x) × Strict (suc x) xs

abbrev pub one_if : Bool → ℕ
one_if b = if b then 1 else 0

-- How often `k` is one of three vertices.
abbrev pub corner : ℕ → ℕ → ℕ → ℕ → ℕ
corner k u v w = one_if (u == k) + (one_if (v == k) + one_if (w == k))

-- The sum over the elements of a list that pass a test.
abbrev pub sum_over : (ℕ → Bool) → (ℕ → ℕ) → List ℕ → ℕ
sum_over p f [] = 0
sum_over p f (x ∷ xs) = (if p x then f x else 0) + sum_over p f xs

mem_before : (b k : ℕ) (xs : List ℕ) → Strict b xs → k < b → mem k xs ≡ false
mem_before b k [] s h = refl
mem_before b k (x ∷ xs) (p, s) h = ground (arith, mem_before (suc x) k xs s, p, h)

Strict-weaken : (a b : ℕ) (xs : List ℕ) → a ≤ b → Strict b xs → Strict a xs
Strict-weaken a b [] h s = tt
Strict-weaken a b (x ∷ xs) h (p, s) = (omega (arith, h, p), s)

found-corner :
    (u v w : ℕ) (triangles : ℕ → ℕ) (k : ℕ)
    → found u v w triangles k ≡ triangles k + 2 * corner k u v w
unfolding found add2
found-corner u v w triangles k = ground arith

-- Elements below the list add nothing, whether they are in the test's list or not.
sum_over_skip :
    (y : ℕ) (f : ℕ → ℕ) (xs ys : List ℕ)
    → Strict (suc y) xs
    → sum_over (λ x. mem x (y ∷ ys)) f xs ≡ sum_over (λ x. mem x ys) f xs
sum_over_skip y f [] ys s = refl
sum_over_skip y f (x ∷ xs) ys (p, s) =
    ground
      (arith, sum_over_skip y f xs ys (Strict-weaken (suc y) (suc x) xs (omega (arith, p)) s), p)

sum_over_nil : (f : ℕ → ℕ) (xs : List ℕ) → sum_over (λ x. mem x []) f xs ≡ 0
sum_over_nil f [] = refl
sum_over_nil f (x ∷ xs) = omega (arith, sum_over_nil f xs)

-- The walk adds 2 to the count of each corner of each triangle over the common elements.
intersect-corner :
    (u v : ℕ) (fu fv : List ℕ) (triangles : ℕ → ℕ) (k b c : ℕ)
    → Strict b fu
    → Strict c fv
    → intersect u v fu fv triangles k
      ≡ triangles k + 2 * sum_over (λ x. mem x fv) (λ w. corner k u v w) fu
unfolding intersect
intersect-corner u v [] fv triangles k b c sf sv = omega arith
intersect-corner u v (x ∷ fu) [] triangles k b c sf sv =
    omega (arith, sum_over_nil (λ w. corner k u v w) fu)
intersect-corner u v (x ∷ fu) (y ∷ fv) triangles k b c (p, sf) (q, sv) =
    elim (Bool-cases (ltb x y)) [
      | inl e ↦
          let less : x < y = ground arith in
          let other : (y == x) ≡ false = ground arith in
          rw (e, other, mem_before (suc y) x fv sv (omega (arith, less)))
            (omega
              (arith, intersect-corner u v fu (y ∷ fv) triangles k (suc x) y sf (omega arith, sv)))
      | inr e ↦ elim (Bool-cases (ltb y x)) [
        | inl e' ↦
            let more : suc y ≤ x = ground arith in
            let other : (y == x) ≡ false = ground arith in
            rw
              (
                e,
                e',
                other,
                sum_over_skip y (λ w. corner k u v w) fu fv
                    (Strict-weaken (suc y) (suc x) fu (omega (arith, more)) sf),
              )
              (omega (
                arith,
                intersect-corner u v (x ∷ fu) fv triangles k x (suc y) (omega arith, sf) sv,
              ))
        | inr e' ↦
            let same : y ≡ x = ground arith in
            let here : (y == x) ≡ true = ground arith in
            let rest = intersect-corner u v fu fv (found u v x triangles) k (suc x) (suc y) sf sv in
            rw
              (
                e,
                e',
                here,
                sum_over_skip y (λ w. corner k u v w) fu fv
                    (Strict-weaken (suc y) (suc x) fu (omega (arith, same)) sf),
              )
              (omega (arith, rest, found-corner u v x triangles k))
      ]
    ]

-- What the vertices `vs` of an apex add, and what the vertices below a bound add as apexes.
abbrev pub apex_sum : (ℕ → List ℕ) → ℕ → ℕ → List ℕ → ℕ
apex_sum neighbors k u [] = 0
apex_sum neighbors k u (v ∷ vs) =
    sum_over (λ x. mem x (forward neighbors v)) (λ w. corner k u v w) (forward neighbors u)
    + apex_sum neighbors k u vs

abbrev pub triangle_sum : (ℕ → List ℕ) → ℕ → ℕ → ℕ
triangle_sum neighbors k zero = 0
triangle_sum neighbors k (suc u) =
    apex_sum neighbors k u (forward neighbors u) + triangle_sum neighbors k u

orient-Strict :
    (neighbors : ℕ → List ℕ) (u b : ℕ) (vs : List ℕ)
    → Strict b vs
    → Strict b (orient neighbors u vs)
unfolding orient
orient-Strict neighbors u b [] s = tt
orient-Strict neighbors u b (v ∷ vs) (p, s) =
    let rest = orient-Strict neighbors u (suc v) vs s in
    elim (Bool-cases (precedes neighbors u v)) [
      | inl e ↦ rw e (p, rest)
      | inr e ↦ rw e (Strict-weaken b (suc v) (orient neighbors u vs) (omega (arith, p)) rest)
    ]

module _ (neighbors : ℕ → List ℕ) (sorted : (v : ℕ) → Strict 0 (neighbors v)) where
  intersect_all-apex_sum :
      (u : ℕ) (vs : List ℕ) (triangles : ℕ → ℕ) (k : ℕ)
      → intersect_all neighbors u vs triangles k ≡ triangles k + 2 * apex_sum neighbors k u vs
  unfolding intersect_all
  intersect_all-apex_sum u [] triangles k = omega arith
  intersect_all-apex_sum u (v ∷ vs) triangles k =
      let fu = forward neighbors u in
      let fv = forward neighbors v in
      omega (
        arith,
        intersect_all-apex_sum u vs (intersect u v fu fv triangles) k,
        intersect-corner u v fu fv triangles k 0 0
            (orient-Strict neighbors u 0 (neighbors u) (sorted u))
            (orient-Strict neighbors v 0 (neighbors v) (sorted v)),
      )

  -- If the lists of neighbours are sorted and without repeats, every vertex is counted twice for
  -- each triangle that it is a corner of, where a triangle is an apex `u`, a vertex `v` of its
  -- forward list, and a vertex of the forward lists of both.
  pub count_triangles-triangle_sum :
      (max_vid k : ℕ) → count_triangles neighbors max_vid k ≡ 2 * triangle_sum neighbors k max_vid
  unfolding count_triangles
  count_triangles-triangle_sum zero k = refl
  count_triangles-triangle_sum (suc u) k = omega (
    arith,
    intersect_all-apex_sum u (forward neighbors u) (count_triangles neighbors u) k,
    count_triangles-triangle_sum u k,
  )

mem-orient :
    (neighbors : ℕ → List ℕ) (u k : ℕ) (vs : List ℕ)
    → mem k (orient neighbors u vs) ≡ (mem k vs && precedes neighbors u k)
unfolding orient
mem-orient neighbors u k [] = refl
mem-orient neighbors u k (v ∷ vs) = elim (Bool-cases (v == k)) [
  | inl e ↦
      let same : v ≡ k = ground arith in
      let p : precedes neighbors u v ≡ precedes neighbors u k = ap (precedes neighbors u) same in
      ground (arith, mem-orient neighbors u k vs, p, e)
  | inr e ↦ ground (arith, mem-orient neighbors u k vs, e)
]

-- `u` is the apex of a triangle with `v` in the middle.
abbrev pub is_triangle : (ℕ → List ℕ) → ℕ → ℕ → ℕ → Bool
is_triangle neighbors u v w =
    mem v (forward neighbors u) && (mem w (forward neighbors u) && mem w (forward neighbors v))

-- Are there the edges between two vertices?
abbrev pub Adjacent : (ℕ → List ℕ) → ℕ → ℕ → Type 0
Adjacent neighbors u v = (mem v (neighbors u) ≡ true) × (mem u (neighbors v) ≡ true)

precedes_total :
    (neighbors : ℕ → List ℕ) (u v : ℕ)
    → u ≢ v
    → precedes neighbors u v ≡ not (precedes neighbors v u)
unfolding precedes
precedes_total neighbors u v h = ground (arith, h)

precedes_trans :
    (neighbors : ℕ → List ℕ) (u v w : ℕ)
    → precedes neighbors u v ≡ true
    → precedes neighbors v w ≡ true
    → precedes neighbors u w ≡ true
unfolding precedes
precedes_trans neighbors u v w p q = ground arith

-- Three vertices with edges between all of them, of either direction, are exactly one triangle of
-- the count: in one of their six orders.
is_triangle_once :
    (neighbors : ℕ → List ℕ) (a b c : ℕ)
    → a ≢ b
    → b ≢ c
    → a ≢ c
    → Adjacent neighbors a b
    → Adjacent neighbors b c
    → Adjacent neighbors a c
    → one_if (is_triangle neighbors a b c)
        + (one_if (is_triangle neighbors a c b)
            + (one_if (is_triangle neighbors b a c)
                + (one_if (is_triangle neighbors b c a)
                    + (one_if (is_triangle neighbors c a b)
                        + one_if (is_triangle neighbors c b a)))))
      ≡ 1
is_triangle_once neighbors a b c ab bc ac (nab, nba) (nbc, ncb) (nac, nca) =
    rw
      (
        mem-orient neighbors a b (neighbors a),
        mem-orient neighbors a c (neighbors a),
        mem-orient neighbors b a (neighbors b),
        mem-orient neighbors b c (neighbors b),
        mem-orient neighbors c a (neighbors c),
        mem-orient neighbors c b (neighbors c),
        nab,
        nba,
        nbc,
        ncb,
        nac,
        nca,
        precedes_total neighbors a b ab,
        precedes_total neighbors b c bc,
        precedes_total neighbors a c ac,
      )
      (ground (
        arith,
        precedes_total neighbors a b ab,
        precedes_total neighbors b c bc,
        precedes_total neighbors a c ac,
        precedes_trans neighbors a b c,
        precedes_trans neighbors b c a,
        precedes_trans neighbors c a b,
        precedes_trans neighbors c b a,
        precedes_trans neighbors a c b,
        precedes_trans neighbors b a c,
      ))
