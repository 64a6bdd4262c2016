-- ===== src/Algorithm/Cdlp/Counts.antt =====
-- The label that a vertex takes.
use avbgraph.Algorithm.Cdlp.{run_behind, best_loop, choose_sorted, choose}
use avbgraph.Prelude.{
  ℕ, zero, suc, ◌+◌, ◌≤◌, ◌<◌, ◌≡◌, ◌≢◌, ◌⊎◌, refl, ap, sym, ◌∙◌, List, [], ◌∷◌, some, ltb, ◌==◌,
  if◌then◌else◌, length, arith, ltb→lt, ltb→le, ==_refl, Bool-cases, inl, inr,
}

abbrev pub count : ℕ → List ℕ → ℕ
count k [] = 0
count k (x ∷ xs) = (if x == k then 1 else 0) + count k xs

abbrev pub SortedFrom : ℕ → List ℕ → Type 0
SortedFrom b [] = Unit {0}
SortedFrom b (x ∷ xs) = (b ≤ x) × SortedFrom x xs

SortedFrom-weaken : (a b : ℕ) (xs : List ℕ) → a ≤ b → SortedFrom b xs → SortedFrom a xs
SortedFrom-weaken a b [] h s = tt
SortedFrom-weaken a b (x ∷ xs) h (p, s) = (omega (arith, h, p), s)

count_before : (b k : ℕ) (xs : List ℕ) → SortedFrom b xs → k < b → count k xs ≡ 0
count_before b k [] s h = refl
count_before b k (x ∷ xs) (p, s) h = ground (arith, count_before x k xs s, p, h)

-- A run: its length is the number of the label, and the labels behind it are larger.
record Behind (label : ℕ) (xs : List ℕ) (counted : ℕ) (r : ℕ × List ℕ) : Type 0 where
  counted_lem : r.0 ≡ counted + count label xs
  sorted : SortedFrom (suc label) r.1
  others : (k : ℕ) → k ≢ label → count k r.1 ≡ count k xs
  shorter : length r.1 ≤ length xs

run_behind-Behind :
    (label : ℕ) (xs : List ℕ) (counted : ℕ)
    → SortedFrom label xs
    → Behind label xs counted (run_behind label xs counted)
unfolding run_behind
run_behind-Behind label [] counted s = record {
  counted_lem = omega arith;
  sorted = tt;
  others = λ k h. refl;
  shorter = omega arith;
}
run_behind-Behind label (x ∷ xs) counted (p, s) = elim (Bool-cases (x == label)) [
  | inl e ↦
      let same : x ≡ label = ground arith in
      let u = run_behind-Behind label xs (suc counted) (SortedFrom-weaken label x xs p s) in
      rw e record {
        counted_lem = ground (arith, u.counted_lem, e);
        sorted = u.sorted;
        others = λ k h. ground (arith, u.others k h, same, h);
        shorter = omega (arith, u.shorter);
      }
  | inr e ↦
      let above : suc label ≤ x = ground (arith, p) in
      rw e record {
        counted_lem = ground (arith, count_before x label xs s above, e);
        sorted = (above, s);
        others = λ k h. refl;
        shorter = omega arith;
      }
]

-- The result `r` of the loop: a label with more than `best_count` occurrences in the rest, the
-- smallest of the most frequent, or the best label so far if there is none.
record Best (xs : List ℕ) (label best_count r most : ℕ) : Type 0 where
  which : ((most ≡ best_count) × (r ≡ label)) ⊎ ((best_count < most) × (count r xs ≡ most))
  bound : (k : ℕ) → count k xs ≤ most
  least : (k : ℕ) → best_count < most → count k xs ≡ most → r ≤ k

-- A run of the label `x`, with `n` of it, in front of the rest `ys`.
record HasRun (x n : ℕ) (xs ys : List ℕ) : Type 0 where
  number : count x (x ∷ xs) ≡ n
  positive : 0 < n
  gone : count x ys ≡ 0
  others : (k : ℕ) → k ≢ x → count k ys ≡ count k (x ∷ xs)
  above : (k : ℕ) → k < x → count k ys ≡ 0

none_left : (label best_count : ℕ) → Best [] label best_count label best_count
none_left label best_count = record {
  which = inl (refl, refl);
  bound = λ k. omega arith;
  least = λ k more e. absurd (omega (arith, more));
}

-- The number of any label in front of and in the rest.
number_of :
    {x n : ℕ} {xs ys : List ℕ} (k : ℕ)
    → HasRun x n xs ys
    → ((k ≡ x) × (count k (x ∷ xs) ≡ n) × (count k ys ≡ 0))
      ⊎ ((k ≢ x) × (count k (x ∷ xs) ≡ count k ys))
number_of {x} {n} {xs} {ys} k run = elim (Bool-cases (k == x)) [
  | inl e ↦
      let same : k ≡ x = ground arith in
      inl (
        same,
        ap (λ (j : ℕ). count j (x ∷ xs)) same ∙ run.number,
        ap (λ (j : ℕ). count j ys) same ∙ run.gone,
      )
  | inr e ↦ let other : k ≢ x = ground arith in inr (other, sym (run.others k other))
]

better-Best :
    (x n : ℕ) (xs ys : List ℕ) (label best_count r most : ℕ)
    → HasRun x n xs ys
    → best_count < n
    → Best ys x n r most
    → Best (x ∷ xs) label best_count r most
better-Best x n xs ys label best_count r most run more best =
    let reached : n ≤ most = ground (arith, best.which) in
    record {
      which =
          inr (
            omega (arith, reached, more),
            ground (arith, number_of r run, best.which, run.positive),
          );
      bound = λ k. ground (arith, number_of k run, best.bound k, reached);
      least = λ k m e.
          ground (
            arith,
            number_of k run,
            best.which,
            best.least k,
            reached,
            e,
            run.above k,
            run.positive,
          );
    }

same-Best :
    (x n : ℕ) (xs ys : List ℕ) (label best_count r most : ℕ)
    → HasRun x n xs ys
    → n ≤ best_count
    → Best ys label best_count r most
    → Best (x ∷ xs) label best_count r most
same-Best x n xs ys label best_count r most run less best =
    let reached : best_count ≤ most = ground (arith, best.which) in
    record {
      which = ground (arith, number_of r run, best.which, less);
      bound = λ k. ground (arith, number_of k run, best.bound k, reached, less);
      least = λ k m e. ground (arith, number_of k run, best.least k, m, e, less);
    }

run_behind-HasRun :
    (x b : ℕ) (xs : List ℕ)
    → SortedFrom x xs
    → HasRun x (run_behind x xs 1).0 xs (run_behind x xs 1).1
run_behind-HasRun x b xs s =
    let u = run_behind-Behind x xs 1 s in
    record {
      number = ground (arith, u.counted_lem, ==_refl x);
      positive = omega (arith, u.counted_lem);
      gone = count_before (suc x) x (run_behind x xs 1).1 u.sorted (omega arith);
      others = λ k h. ground (arith, u.others k h, h);
      above = λ k h. count_before (suc x) k (run_behind x xs 1).1 u.sorted (omega (arith, h));
    }

best_loop-Best :
    (fuel : ℕ) (xs : List ℕ) (label best_count b : ℕ)
    → length xs ≤ fuel
    → SortedFrom b xs
    → (r : ℕ) × (most : ℕ) × (best_loop fuel xs label best_count ≡ some r)
      × Best xs label best_count r most
unfolding best_loop
best_loop-Best zero [] label best_count b h s =
    (label, best_count, refl, none_left label best_count)
best_loop-Best zero (x ∷ xs) label best_count b h s = absurd (omega (arith, h))
best_loop-Best (suc fuel) [] label best_count b h s =
    (label, best_count, refl, none_left label best_count)
best_loop-Best (suc fuel) (x ∷ xs) label best_count b h (p, s) =
    let counted = run_behind x xs 1 in
    let u = run_behind-Behind x xs 1 s in
    let run = run_behind-HasRun x b xs s in
    let short : length counted.1 ≤ fuel = omega (arith, u.shorter, h) in
    elim (Bool-cases (ltb best_count counted.0)) [
      | inl more ↦
          let (r, most, e, best) =
            best_loop-Best fuel counted.1 x counted.0 (suc x) short u.sorted in
          (
            r,
            most,
            rw more e,
            better-Best x counted.0 xs counted.1 label best_count r most run (ltb→lt _ _ more) best,
          )
      | inr less ↦
          let (r, most, e, best) =
            best_loop-Best fuel counted.1 label best_count (suc x) short u.sorted in
          (
            r,
            most,
            rw less e,
            same-Best x counted.0 xs counted.1 label best_count r most run (ltb→le _ _ less) best,
          )
    ]

-- The label `r` is the smallest of those that occur most often among the labels.
abbrev pub IsLeastMost : ℕ → List ℕ → Type 0
IsLeastMost r labels =
    (0 < count r labels)
    × ((k : ℕ) → count k labels ≤ count r labels)
    × ((k : ℕ) → count k labels ≡ count r labels → r ≤ k)

not_nil : (labels : List ℕ) → ((k : ℕ) → 0 ≡ count k labels) → labels ≡ []
not_nil [] same = refl
not_nil (x ∷ labels) same = absurd (ground (arith, same x, ==_refl x))

choose_sorted-IsLeastMost :
    (l labels : List ℕ)
    → SortedFrom 0 l
    → ((k : ℕ) → count k l ≡ count k labels)
    → labels ≢ []
    → (r : ℕ) × (choose_sorted l ≡ some r) × IsLeastMost r labels
unfolding choose_sorted
choose_sorted-IsLeastMost [] labels s same some_label = absurd (some_label (not_nil labels same))
choose_sorted-IsLeastMost (x ∷ xs) labels s same some_label =
    let (r, most, e, best) = best_loop-Best (suc (length xs)) (x ∷ xs) x 0 0 (omega arith) s in
    let positive : 0 < most = ground (arith, best.bound x, ==_refl x) in
    let number : count r (x ∷ xs) ≡ most = ground (arith, best.which, positive) in
    (
      r,
      e,
      (
        omega (arith, number, same r, positive),
        λ k. omega (arith, same k, same r, number, best.bound k),
        λ k h. best.least k positive (omega (arith, same k, same r, number, h)),
      ),
    )

-- A vertex with neighbours takes, of the labels of its neighbours, the smallest of those that occur
-- most often; the loop ends. The sort may be any that sorts the labels and keeps their numbers.
pub choose-IsLeastMost :
    (sort : List ℕ → List ℕ) (labels : List ℕ)
    → SortedFrom 0 (sort labels)
    → ((k : ℕ) → count k (sort labels) ≡ count k labels)
    → labels ≢ []
    → (r : ℕ) × (choose sort labels ≡ some r) × IsLeastMost r labels
unfolding choose
choose-IsLeastMost sort labels sorted same some_label =
    choose_sorted-IsLeastMost (sort labels) labels sorted same some_label
