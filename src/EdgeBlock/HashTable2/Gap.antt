-- ===== src/EdgeBlock/HashTable2/Gap.antt =====
-- HashTable2: a table with one gap, and one round of the backward shift.
use avbgraph.EdgeBlock.HashTable2.Clusters.{Clustered}
use avbgraph.EdgeBlock.HashTable2.Probe.{distance, count_full, hash-lt}
use avbgraph.EdgeBlock.HashTable2.{empty_slot, at, hash, next, masked_next, on_path}
use avbgraph.Prelude.{
  ℕ, zero, suc, ◌+◌, ◌^◌, ◌<◌, ◌≡◌, ◌≢◌, ◌∙◌, ap, sym, subst, false, List, [], ◌∷◌, inl, inr, arith,
  leb, ltb, ◌==◌, ◌⊎◌, if◌then◌else◌, set, length, get_or-set, length-set, Bool-cases, ==_iff,
  bit_and-mask, bit_and-over,
}

-- How often a key stands in the slots.
unfoldable pub occurs : List ℕ → ℕ → ℕ
occurs [] q = 0
occurs (x ∷ xs) q = (if q == x then 1 else 0) + occurs xs q

pub occurs-set :
    (xs : List ℕ) (i v q : ℕ)
    → i < length xs
    → occurs (set xs i v) q + (if q == at xs i then 1 else 0)
      ≡ occurs xs q + (if q == v then 1 else 0)
unfolding occurs
occurs-set [] i v q h = absurd (omega arith)
occurs-set (x ∷ xs) zero v q h = omega arith
occurs-set (x ∷ xs) (suc i) v q h = omega (arith, occurs-set xs i v q (omega arith))

pub count_full-set_any :
    (xs : List ℕ) (i v : ℕ)
    → i < length xs
    → count_full (set xs i v) + (if at xs i == empty_slot then 0 else 1)
      ≡ count_full xs + (if v == empty_slot then 0 else 1)
unfolding count_full
count_full-set_any [] i v h = absurd (omega arith)
count_full-set_any (x ∷ xs) zero v h = omega arith
count_full-set_any (x ∷ xs) (suc i) v h = omega (arith, count_full-set_any xs i v (omega arith))

-- On a table of a power of two, the masked step is the step with the wrap test.
pub masked_next-next : (w n i : ℕ) → n ≡ 2 ^ w → i < n → masked_next n i ≡ next n i
unfolding masked_next
masked_next-next w n i e h = elim (Bool-cases (leb n (i + 1))) [
  | inl last ↦ let full : i + 1 ≡ 2 ^ w = ground arith in rw (last, e, full) (bit_and-over w)
  | inr more ↦ rw (more, e) (bit_and-mask w (i + 1) (ground arith))
]

-- The test of the code says that the gap comes before the cursor on the way from the home.
pub on_path-distance :
    (n h i j : ℕ) → h < n → i < n → j < n → on_path h i j ≡ ltb (distance n h i) (distance n h j)
on_path-distance n h i j hn inn jn = ground arith

-- Every key is reached, but for the gap `i` on the way to a key beyond the cursor `j`.
abbrev pub Gapped : ℕ → List ℕ → ℕ → ℕ → Type 0
Gapped n xs i j =
    (p : ℕ)
    → p < n
    → at xs p ≢ empty_slot
    → (m : ℕ) → m < n
    → distance n (hash n (at xs p)) m < distance n (hash n (at xs p)) p
    → (at xs m ≢ empty_slot) ⊎ ((m ≡ i) × (distance n i j < distance n i p))

-- Between the gap and a key beyond the cursor stands the slot after the cursor.
pub between :
    (n h i j p : ℕ)
    → h < n
    → i < n
    → j < n
    → p < n
    → distance n h i < distance n h p
    → distance n i j < distance n i p
    → next n j ≢ p
    → (distance n h (next n j) < distance n h p)
      × (next n j ≢ i)
      × (distance n i (next n j) < distance n i p)
between n h i j p hn inn jn pn a b c = ground arith

-- The slot after the cursor is free: nothing stands behind the gap.
pub stop-Clustered :
    (n : ℕ) (xs : List ℕ) (i j : ℕ)
    → i < n
    → j < n
    → at xs (next n j) ≡ empty_slot
    → Gapped n xs i j
    → Clustered n xs
stop-Clustered n xs i j inn jn free g p pn used m mn d = elim (g p pn used m mn d) [
  | inl full ↦ full
  | inr (e, beyond) ↦
      let h = hash n (at xs p) in
      let home = hash-lt n (at xs p) (omega arith) in
      let ne : next n j ≢ p = λ z. used (ap (at xs) (sym z) ∙ free) in
      let (a, b, c) = between n h i j p home inn jn pn (rw e at d) beyond ne in
      elim (g p pn used (next n j) (ground arith) a) [
        | inl full ↦ absurd (full free)
        | inr (e', _) ↦ absurd (b e')
      ]
]

-- The key at the cursor does not need the gap, and stays.
pub stay-Gapped :
    (n : ℕ) (xs : List ℕ) (i j : ℕ)
    → i < n
    → j < n
    → ltb
        (distance n (hash n (at xs (next n j))) i)
        (distance n (hash n (at xs (next n j))) (next n j))
      ≡ false
    → Gapped n xs i j
    → Gapped n xs i (next n j)
stay-Gapped n xs i j inn jn off g p pn used m mn d = elim (g p pn used m mn d) [
  | inl full ↦ inl full
  | inr (e, beyond) ↦
      let h = hash n (at xs p) in
      let home = hash-lt n (at xs p) (omega arith) in
      let before : distance n h i < distance n h p = rw e at d in
      let ne : next n j ≢ p = λ z. ground (
        arith,
        subst (λ q. ltb (distance n (hash n (at xs q)) i) (distance n (hash n (at xs q)) q) ≡ false)
            z off,
      ) in
      inr (e, (between n h i j p home inn jn pn before beyond ne).2)
]

-- The key at the cursor fills the gap, and leaves one behind.
abbrev pub moved : List ℕ → ℕ → ℕ → List ℕ
moved xs i j = set (set xs i (at xs j)) j empty_slot

pub at-moved :
    (xs : List ℕ) (i j q : ℕ)
    → i < length xs
    → j < length xs
    → at (moved xs i j) q ≡ (if j == q then empty_slot else if i == q then at xs j else at xs q)
at-moved xs i j q inn jn =
    get_or-set (set xs i (at xs j)) j q empty_slot empty_slot
      (omega (arith, length-set xs i (at xs j)))
    ∙ ap (λ (x : ℕ). if j == q then empty_slot else x) (get_or-set xs i q (at xs j) empty_slot inn)

pub move-Gapped :
    (n : ℕ) (xs : List ℕ) (i j k : ℕ)
    → length xs ≡ n
    → i < n
    → j < n
    → k < n
    → at xs i ≡ empty_slot
    → at xs k ≢ empty_slot
    → distance n (hash n (at xs k)) i < distance n (hash n (at xs k)) k
    → Gapped n xs i j
    → Gapped n (moved xs i k) k k
move-Gapped n xs i j k w inn jn kn free filled on g p pn used m mn d =
    let value = λ (q : ℕ). at-moved xs i k q (omega arith) (omega arith) in
    let apart : p ≢ k = λ z. used (value p ∙ ground (arith, z)) in
    let far : i ≢ k = λ z. filled (ap (at xs) (sym z) ∙ free) in
    elim (Bool-cases (i == p)) [
      | inl same ↦
          let here : at (moved xs i k) p ≡ at xs k = value p ∙ ground arith in
          let h = hash n (at xs k) in
          let d' : distance n h m < distance n h p = rw here at d in
          let at_i = ap (distance n h) ((==_iff i p).0 same) in
          elim (g k kn filled m mn (omega arith)) [
            | inl full ↦ inl (λ z. elim (Bool-cases (k == m)) [
              | inl last ↦ absurd (omega (arith, ap (distance n h) ((==_iff k m).0 last)))
              | inr more ↦ ground (arith, value m)
            ])
            | inr (e, _) ↦ absurd (omega (arith, ap (distance n h) e))
          ]
      | inr other ↦
          let here : at (moved xs i k) p ≡ at xs p = value p ∙ ground arith in
          let h = hash n (at xs p) in
          let d' : distance n h m < distance n h p = rw here at d in
          elim (Bool-cases (k == m)) [
            | inl gap ↦ inr (ground arith, ground arith)
            | inr more ↦ elim (g p pn (λ z. used (here ∙ z)) m mn d') [
              | inl full ↦ inl (λ z. ground (arith, value m))
              | inr (e, _) ↦ inl (λ z. ground (arith, value m))
            ]
          ]
    ]
