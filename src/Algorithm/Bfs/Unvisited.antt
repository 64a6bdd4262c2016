-- ===== src/Algorithm/Bfs/Unvisited.antt =====
-- How many vertices are not visited yet: the measure of both loops.
use avbgraph.Algorithm.Bfs.Walks.{Keeps}
use avbgraph.Algorithm.Bfs.{Reading, negative}
use avbgraph.Prelude.Int.{ℤ}
use avbgraph.Prelude.{
  ℕ, zero, suc, ◌+◌, ◌≤◌, ◌<◌, ◌≡◌, inl, inr, ap, ◌∙◌, true, false, Bool, if◌then◌else◌, arith,
  Bool-cases, ◌==◌,
}

-- How many numbers below a bound pass a test.
abbrev pub count_below : ℕ → (ℕ → Bool) → ℕ
count_below zero test = 0
count_below (suc n) test = count_below n test + (if test n then 1 else 0)

abbrev pub unknown : Reading → (ℕ → ℤ) → ℕ
unknown g distances = count_below g.max_vid (λ v. negative (distances v))

pub count_below-le : (n : ℕ) (f : ℕ → Bool) → count_below n f ≤ n
count_below-le zero f = omega arith
count_below-le (suc n) f = ground (arith, count_below-le n f)

pub count_below_some :
    (n : ℕ) (f : ℕ → Bool) → 0 < count_below n f → (v : ℕ) × (v < n) × (f v ≡ true)
count_below_some zero f h = absurd (omega (arith, h))
count_below_some (suc n) f h = elim (Bool-cases (f n)) [
  | inl e ↦ (n, omega arith, e)
  | inr e ↦
      let before : 0 < count_below n f = ground (arith, h, e) in
      let (v, low, t) = count_below_some n f before in (v, omega (arith, low), t)
]

count_below_mono :
    (n : ℕ) (f g : ℕ → Bool)
    → ((v : ℕ) → v < n → f v ≡ true → g v ≡ true)
    → count_below n f ≤ count_below n g
count_below_mono zero f g h = omega arith
count_below_mono (suc n) f g h =
    let rest = count_below_mono n f g (λ v low. h v (omega (arith, low))) in
    elim (Bool-cases (f n)) [
      | inl e ↦ rw (e, h n (omega arith) e) (omega (arith, rest))
      | inr e ↦ rw e (omega (arith, rest))
    ]

count_below_less :
    (n : ℕ) (f g : ℕ → Bool) (u : ℕ)
    → ((v : ℕ) → v < n → f v ≡ true → g v ≡ true)
    → u < n
    → f u ≡ false
    → g u ≡ true
    → count_below n f < count_below n g
count_below_less zero f g u h low off on = absurd (omega (arith, low))
count_below_less (suc n) f g u h low off on =
    let below : (v : ℕ) → v < n → f v ≡ true → g v ≡ true = λ v less. h v (omega (arith, less)) in
    elim (Bool-cases (u == n)) [
      | inl at ↦
          let same : n ≡ u = ground arith in
          let rest = count_below_mono n f g below in
          rw (ap f same ∙ off, ap g same ∙ on) (omega (arith, rest))
      | inr other ↦
          let rest = count_below_less n f g u below (ground (arith, low, other)) off on in
          elim (Bool-cases (f n)) [
            | inl e ↦ rw (e, h n (omega arith) e) (omega (arith, rest))
            | inr e ↦ rw e (omega (arith, rest))
          ]
    ]

-- A step that keeps the known distances and finds one more leaves fewer unknown.
pub unknown_less :
    (g : Reading) (before after : ℕ → ℤ) (u : ℕ)
    → Keeps g before after
    → u < g.max_vid
    → negative (after u) ≡ false
    → negative (before u) ≡ true
    → unknown g after < unknown g before
unknown_less g before after u keeps low now then_unknown =
    count_below_less g.max_vid (λ v. negative (after v)) (λ v. negative (before v)) u
      (λ v inv e. elim (Bool-cases (negative (before v))) [
        | inl new ↦ new
        | inr old ↦ absurd (cc (ap negative (keeps v inv old)))
      ])
      low now then_unknown
