-- ===== src/EdgeBlock/HashTable2/Growth.antt =====
-- HashTable2: one write of a new key, and the writes of a resize.
use avbgraph.EdgeBlock.HashTable2.Probe.{
  count_full, contains, hash-lt, count_full-set, contains-set, probe_free,
}
use avbgraph.EdgeBlock.HashTable2.Clusters.{Clustered, free_slot-Clear, set-Clustered}
use avbgraph.EdgeBlock.HashTable2.Gap.{occurs, occurs-set}
use avbgraph.EdgeBlock.HashTable2.{empty_slot, hash, place, rehash}
use avbgraph.Prelude.{
  ℕ, ◌+◌, ◌<◌, ◌≡◌, refl, ◌≢◌, ◌||◌, List, [], ◌∷◌, some, arith, ◌==◌, set, length, length-set,
  if◌then◌else◌, inl, inr, Bool-cases, ◌∙◌,
}

-- What one write of a new key gives.
pub record Placed (n : ℕ) (xs : List ℕ) (key : ℕ) (ys : List ℕ) : Type 0 where
  pub width : length ys ≡ n
  pub reach : Clustered n ys
  pub full : count_full ys ≡ count_full xs + 1
  pub keys : (q : ℕ) → q ≢ empty_slot → contains ys q ≡ (q == key || contains xs q)
  pub times : (q : ℕ) → q ≢ empty_slot → occurs ys q ≡ (if q == key then 1 else 0) + occurs xs q

pub place-Placed :
    (n : ℕ) (xs : List ℕ) (key : ℕ)
    → length xs ≡ n
    → count_full xs < n
    → Clustered n xs
    → key ≢ empty_slot
    → (ys : List ℕ) × (place n xs key ≡ some ys) × Placed n xs key ys
unfolding place
place-Placed n xs key w room reach k =
    let (j, run, jn, free) = probe_free n xs (hash n key) w room (hash-lt n key (omega arith)) in
    (
      set xs j key,
      rw run,
      record {
        width = length-set xs j key ∙ w;
        reach =
            set-Clustered n xs j key w jn free k
              (free_slot-Clear n xs j jn free n (hash n key) (hash-lt n key (omega arith)) run)
              reach;
        full = count_full-set xs j key (omega arith) free k;
        keys = λ q qk. contains-set xs j key q (omega arith) free qk;
        times = λ q qk. ground (arith, occurs-set xs j key q (omega arith), free, qk);
      },
    )

-- What the loop over the old slots gives.
pub record Rehashed (n : ℕ) (old xs ys : List ℕ) : Type 0 where
  pub width : length ys ≡ n
  pub reach : Clustered n ys
  pub full : count_full ys ≡ count_full xs + count_full old
  pub keys : (q : ℕ) → q ≢ empty_slot → contains ys q ≡ (contains old q || contains xs q)
  pub times : (q : ℕ) → q ≢ empty_slot → occurs ys q ≡ occurs old q + occurs xs q

pub rehash-Rehashed :
    (n : ℕ) (old xs : List ℕ)
    → length xs ≡ n
    → count_full xs + count_full old < n
    → Clustered n xs
    → (ys : List ℕ) × (rehash n old xs ≡ some ys) × Rehashed n old xs ys
unfolding rehash count_full contains occurs
rehash-Rehashed n [] xs w room reach = (
  xs,
  refl,
  record {
    width = w;
    reach = reach;
    full = omega arith;
    keys = λ q k. refl;
    times = λ q k. omega arith;
  },
)
rehash-Rehashed n (key ∷ old) xs w room reach = elim (Bool-cases (key == empty_slot)) [
  | inl hole ↦
      let (ys, run, r) = rehash-Rehashed n old xs w (ground arith) reach in
      (
        ys,
        rw hole run,
        record {
          width = r.width;
          reach = r.reach;
          full = ground (arith, r.full);
          keys = λ q k. ground (arith, r.keys q k);
          times = λ q k. ground (arith, r.times q k);
        },
      )
  | inr used ↦
      let (zs, put, p) = place-Placed n xs key w (ground arith) reach (ground arith) in
      let (ys, run, r) = rehash-Rehashed n old zs p.width (ground (arith, p.full)) p.reach in
      (
        ys,
        rw (used, put) run,
        record {
          width = r.width;
          reach = r.reach;
          full = ground (arith, r.full, p.full);
          keys = λ q k. ground (arith, r.keys q k, p.keys q k);
          times = λ q k. ground (arith, r.times q k, p.times q k);
        },
      )
]
