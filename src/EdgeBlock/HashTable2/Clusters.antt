-- ===== src/EdgeBlock/HashTable2/Clusters.antt =====
-- HashTable2: the invariant of linear probing. No slot on the way from the hash of a key to the
-- slot of the key is empty.
use avbgraph.EdgeBlock.HashTable2.Probe.{distance}
use avbgraph.EdgeBlock.HashTable2.{empty_slot, at, hash, next, get_loop, free_slot}
use avbgraph.Prelude.{
  ℕ, zero, suc, ◌+◌, ◌<◌, ◌≡◌, ◌≢◌, ◌∙◌, ap, true, List, some, inl, inr, arith, ◌==◌, set, length,
  get_or-set, Bool-cases, ==_iff,
}

-- Every slot from `h` up to, but not including, `p` is in use.
abbrev pub Clear : ℕ → List ℕ → ℕ → ℕ → Type 0
Clear n xs h p = (m : ℕ) → m < n → distance n h m < distance n h p → at xs m ≢ empty_slot

abbrev pub Clustered : ℕ → List ℕ → Type 0
Clustered n xs = (p : ℕ) → p < n → at xs p ≢ empty_slot → Clear n xs (hash n (at xs p)) p

pub distance-next :
    (n h m : ℕ) → h < n → m < n → h ≢ m → distance n (next n h) m + 1 ≡ distance n h m
distance-next n h m hn mn ne = ground arith

pub distance_lt : (n h p : ℕ) → h < n → p < n → distance n h p < n
distance_lt n h p hn pn = ground arith

Clear-next :
    (n : ℕ) (xs : List ℕ) (h p : ℕ)
    → h < n
    → p < n
    → h ≢ p
    → Clear n xs h p
    → Clear n xs (next n h) p
Clear-next n xs h p hn pn ne c m mn d = elim (Bool-cases (h == m)) [
  | inl same ↦ absurd (ground arith)
  | inr other ↦
      c m mn (omega (arith, distance-next n h p hn pn ne, distance-next n h m hn mn (ground arith)))
]

pub Clear-found :
    (n : ℕ) (xs : List ℕ) (p : ℕ)
    → p < n
    → at xs p ≢ empty_slot
    → (fuel h : ℕ) → h < n
    → distance n h p < fuel
    → Clear n xs h p
    → get_loop fuel n xs (at xs p) h ≡ some true
unfolding get_loop
Clear-found n xs p pn used zero h hn d c = absurd (omega arith)
Clear-found n xs p pn used (suc fuel) h hn d c = elim (Bool-cases (h == p)) [
  | inl same ↦ ground (arith, ap (at xs) ((==_iff h p).0 same))
  | inr other ↦
      let ne : h ≢ p = ground arith in
      let full : at xs h ≢ empty_slot = c h hn (ground arith) in
      let rest =
        Clear-found n xs p pn used fuel (next n h) (ground arith)
          (omega (arith, distance-next n h p hn pn ne)) (Clear-next n xs h p hn pn ne c) in
      ground (arith, full, rest)
]

pub free_slot-Clear :
    (n : ℕ) (xs : List ℕ) (e : ℕ)
    → e < n
    → at xs e ≡ empty_slot
    → (fuel h : ℕ) → h < n
    → free_slot fuel n xs h ≡ some e
    → Clear n xs h e
unfolding free_slot
free_slot-Clear n xs e en free zero h hn run m mn d = absurd (cc)
free_slot-Clear n xs e en free (suc fuel) h hn run m mn d =
    elim (Bool-cases (at xs h == empty_slot)) [
      | inl here ↦ let same : h ≡ e = ground arith in absurd (ground (arith, same))
      | inr used ↦ elim (Bool-cases (h == m)) [
        | inl same ↦ ground (arith, ap (at xs) ((==_iff h m).0 same))
        | inr other ↦
            let ne : h ≢ e = λ z. ground (arith, ap (at xs) z) in
            free_slot-Clear n xs e en free fuel (next n h) (ground arith) (rw used at run) m mn (
              omega (arith, distance-next n h e hn en ne, distance-next n h m hn mn (ground arith)))
      ]
    ]

pub set-Clustered :
    (n : ℕ) (xs : List ℕ) (e key : ℕ)
    → length xs ≡ n
    → e < n
    → at xs e ≡ empty_slot
    → key ≢ empty_slot
    → Clear n xs (hash n key) e
    → Clustered n xs
    → Clustered n (set xs e key)
set-Clustered n xs e key w en free k clear old p pn used m mn d =
    let value = λ (q : ℕ). get_or-set xs e q key empty_slot (omega arith) in
    elim (Bool-cases (e == p)) [
      | inl same ↦
          let here : at (set xs e key) p ≡ key = rw (value p, same) in
          let d' : distance n (hash n key) m < distance n (hash n key) p = rw here at d in
          let near = ap (distance n (hash n key)) ((==_iff e p).0 same) in
          elim (Bool-cases (e == m)) [
            | inl last ↦ absurd (omega (arith, ap (distance n (hash n key)) ((==_iff e m).0 last)))
            | inr more ↦ ground (arith, value m, clear m mn (omega arith))
          ]
      | inr other ↦
          let here : at (set xs e key) p ≡ at xs p = rw (value p, other) in
          let d' : distance n (hash n (at xs p)) m < distance n (hash n (at xs p)) p =
            rw here at d in
          ground (arith, value m, old p pn (λ z. used (here ∙ z)) m mn d')
    ]
