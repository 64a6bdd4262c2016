-- ===== src/EdgeBlock/VertexEdges/Merge/Order.antt =====
-- The merge keeps the order of the block and the edges.
use avbgraph.EdgeBlock.VertexEdges.Merge.{double_until, new_capacity, reverse_onto, merge_back}
use avbgraph.EdgeBlock.VertexEdges.{Item}
use avbgraph.Prelude.{
  ap, ltb→lt, ◌%◌, ◌^◌, ℕ, zero, suc, ◌+◌, ◌*◌, ◌≤◌, ◌<◌, ◌≡◌, refl, Bool, true, false, ◌||◌, List,
  [], ◌∷◌, some, arith, ltb, ◌==◌, length, Bool-cases, inl, inr,
}
use avbgraph.Types.{strip}

abbrev pub key : Item → ℕ
key x = strip x.0.e

-- The destinations rise from a bound on, or fall below a bound.
abbrev pub Ascending : ℕ → List Item → Type 0
Ascending b [] = Unit {0}
Ascending b (x ∷ xs) = (b ≤ key x) × Ascending (key x + 1) xs

abbrev pub Falling : ℕ → List Item → Type 0
Falling b [] = Unit {0}
Falling b (x ∷ xs) = (key x < b) × Falling (key x) xs

-- Is there an edge to the destination?
unfoldable pub has : List Item → ℕ → Bool
has [] k = false
has (x ∷ xs) k = key x == k || has xs k

pub Ascending-from : (a b : ℕ) (xs : List Item) → a ≤ b → Ascending b xs → Ascending a xs
Ascending-from a b [] h s = tt
Ascending-from a b (x ∷ xs) h (p, s) = (omega arith, s)

pub Falling-below : (a b : ℕ) (xs : List Item) → a ≤ b → Falling a xs → Falling b xs
Falling-below a b [] h s = tt
Falling-below a b (x ∷ xs) h (p, s) = (omega arith, s)

reverse_onto-Ascending :
    (b : ℕ) (ys acc : List Item)
    → Falling b ys
    → Ascending b acc
    → Ascending 0 (reverse_onto ys acc)
reverse_onto-Ascending b [] acc f s = Ascending-from 0 b acc (omega arith) s
reverse_onto-Ascending b (y ∷ ys) acc (p, f) s =
    reverse_onto-Ascending (key y) ys (y ∷ acc) f
      (omega arith, Ascending-from (key y + 1) b acc (omega arith) s)

pub reverse_onto-Falling :
    (b : ℕ) (xs acc : List Item)
    → Ascending b xs
    → Falling b acc
    → (c : ℕ) × Falling c (reverse_onto xs acc)
reverse_onto-Falling b [] acc s f = (b, f)
reverse_onto-Falling b (x ∷ xs) acc (p, s) f =
    reverse_onto-Falling (key x + 1) xs (x ∷ acc) s
      (omega arith, Falling-below b (key x) acc (omega arith) f)

pub has-reverse_onto :
    (xs acc : List Item) (k : ℕ) → has (reverse_onto xs acc) k ≡ (has xs k || has acc k)
unfolding has
has-reverse_onto [] acc k = refl
has-reverse_onto (x ∷ xs) acc k = ground (arith, has-reverse_onto xs (x ∷ acc) k)

pub length-reverse_onto :
    (xs acc : List Item) → length (reverse_onto xs acc) ≡ length xs + length acc
length-reverse_onto [] acc = omega arith
length-reverse_onto (x ∷ xs) acc = omega (arith, length-reverse_onto xs (x ∷ acc))

-- What a merge of two lists gives on top of what is written.
pub record Merged (xs ys acc zs : List Item) : Type 0 where
  pub order : Ascending 0 zs
  pub edges : (k : ℕ) → has zs k ≡ (has xs k || has ys k || has acc k)

abbrev pub Apart : List Item → List Item → Type 0
Apart xs ys = (k : ℕ) → has xs k ≡ true → has ys k ≡ false

pub merge_back-Merged :
    (fuel b : ℕ) (xs ys acc : List Item)
    → Falling b xs
    → Falling b ys
    → Ascending b acc
    → Apart xs ys
    → length xs + length ys < fuel
    → (zs : List Item) × (merge_back fuel xs ys acc ≡ some zs) × Merged xs ys acc zs
unfolding merge_back has
merge_back-Merged zero b xs ys acc fx fy s apart h = absurd (omega arith)
merge_back-Merged (suc fuel) b [] ys acc fx fy s apart h = (
  _,
  refl,
  record { order = reverse_onto-Ascending b ys acc fy s; edges = λ k. has-reverse_onto ys acc k },
)
merge_back-Merged (suc fuel) b (x ∷ xs) [] acc fx fy s apart h = (
  _,
  refl,
  record {
    order = reverse_onto-Ascending b (x ∷ xs) acc fx s;
    edges = λ k. ground (arith, has-reverse_onto (x ∷ xs) acc k);
  },
)
merge_back-Merged (suc fuel) b (x ∷ xs) (y ∷ ys) acc (px, fx) (py, fy) s apart h =
    elim (Bool-cases (ltb (key y) (key x))) [
      | inl above ↦
          let (zs, run, m) =
            merge_back-Merged fuel (key x) xs (y ∷ ys) (x ∷ acc) fx (ground arith, fy)
              (omega arith, Ascending-from (key x + 1) b acc (omega arith) s)
              (λ k e. apart k (ground arith)) (omega arith) in
          (zs, rw above run, record { order = m.order; edges = λ k. ground (arith, m.edges k) })
      | inr below ↦
          let differ = apart (key x) (ground arith) in
          let (zs, run, m) =
            merge_back-Merged fuel (key y) (x ∷ xs) ys (y ∷ acc) (ground arith, fx) fy
              (omega arith, Ascending-from (key y + 1) b acc (omega arith) s)
              (λ k e. ground (arith, apart k e)) (omega arith) in
          (zs, rw below run, record { order = m.order; edges = λ k. ground (arith, m.edges k) })
    ]

-- The doubling ends, at a capacity that holds all edges.
double_until_enough :
    (fuel num capacity : ℕ)
    → 0 < capacity
    → num < fuel + capacity
    → num ≤ 2 ^ 31
    → 0 < fuel
    → (c : ℕ) × (double_until fuel num capacity ≡ some c) × (num ≤ c)
unfolding double_until
double_until_enough zero num capacity pos h small f = absurd (omega arith)
double_until_enough (suc fuel) num capacity pos h word f = elim (Bool-cases (ltb capacity num)) [
  | inl small ↦
      let (c, run, fits) =
        double_until_enough fuel num (capacity * 2) (omega arith) (omega arith) word
          (ground arith) in
      let below = ltb→lt capacity num small in
      let exact : capacity * 2 % 2 ^ 32 ≡ capacity * 2 = omega arith in
      (c, rw (small, exact) run, fits)
  | inr enough ↦ (capacity, rw enough refl, ground arith)
]

pub new_capacity-fits :
    (num capacity : ℕ) → num ≤ 2 ^ 31 → (c : ℕ) × (new_capacity num capacity ≡ some c) × (num ≤ c)
unfolding new_capacity
new_capacity-fits num capacity word = elim (Bool-cases (ltb capacity num)) [
  | inl small ↦ elim (Bool-cases (capacity == 0)) [
    | inl none_yet ↦ (num, rw (small, none_yet) refl, omega arith)
    | inr some_yet ↦
        let (c, run, fits) =
          double_until_enough (num + 1) num capacity (ground arith) (ground arith) word
            (omega arith) in
        (c, rw (small, some_yet) run, fits)
  ]
  | inr enough ↦ (capacity, rw enough refl, ground arith)
]

-- The loops from the back lose no edge and make none up.
pub merge_back-length :
    (fuel : ℕ) (xs ys acc zs : List Item)
    → merge_back fuel xs ys acc ≡ some zs
    → length zs ≡ length xs + length ys + length acc
unfolding merge_back
merge_back-length zero xs ys acc zs h = absurd (cc)
merge_back-length (suc fuel) [] ys acc zs h =
    let done : reverse_onto ys acc ≡ zs = cc in
    omega (arith, ap length done, length-reverse_onto ys acc)
merge_back-length (suc fuel) (x ∷ xs) [] acc zs h =
    let done : reverse_onto (x ∷ xs) acc ≡ zs = cc in
    omega (arith, ap length done, length-reverse_onto (x ∷ xs) acc)
merge_back-length (suc fuel) (x ∷ xs) (y ∷ ys) acc zs h =
    elim (Bool-cases (ltb (strip y.0.e) (strip x.0.e))) [
      | inl above ↦ omega (arith, merge_back-length fuel xs (y ∷ ys) (x ∷ acc) zs (rw above at h))
      | inr below ↦ omega (arith, merge_back-length fuel (x ∷ xs) ys (y ∷ acc) zs (rw below at h))
    ]
