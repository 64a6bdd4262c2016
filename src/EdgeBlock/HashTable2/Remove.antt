-- ===== src/EdgeBlock/HashTable2/Remove.antt =====
-- HashTable2: a removal takes one copy of the key and keeps all else reachable.
use avbgraph.EdgeBlock.HashTable2.Clusters.{Clustered, distance_lt}
use avbgraph.EdgeBlock.HashTable2.Insert.{IsValid, get_dest-contains, loop-contains}
use avbgraph.EdgeBlock.HashTable2.Probe.{count_full, contains, hash-lt, empty_below, distance}
use avbgraph.EdgeBlock.HashTable2.Gap.{
  occurs, occurs-set, count_full-set_any, masked_next-next, Gapped,
}
use avbgraph.EdgeBlock.HashTable2.Shift.{shift_loop-Shifted}
use avbgraph.EdgeBlock.HashTable2.{
  HashTable2, empty_slot, at, hash, next, get_loop, get_dest, find_loop, shift_loop, remove_dest,
}
use avbgraph.Prelude.{
  ◌≤◌, ℕ, zero, suc, ◌+◌, ◌-◌, ◌^◌, ◌<◌, ◌≡◌, refl, ◌≢◌, ◌∙◌, ap, sym, Bool, true, false, List, [],
  ◌∷◌, some, inl, inr, arith, ltb, ◌==◌, if◌then◌else◌, set, length, get_or-set, length-set,
  Bool-cases, ==_iff,
}

pub contains-occurs : (xs : List ℕ) (q : ℕ) → contains xs q ≡ ltb 0 (occurs xs q)
unfolding contains occurs
contains-occurs [] q = refl
contains-occurs (x ∷ xs) q = ground (arith, contains-occurs xs q)

-- The loop of a removal stops where the loop of a lookup stops.
find_loop-get_loop :
    (w n : ℕ) (xs : List ℕ) (key : ℕ) (b : Bool)
    → n ≡ 2 ^ w
    → key ≢ empty_slot
    → (fuel i : ℕ) → i < n
    → get_loop fuel n xs key i ≡ some b
    → (j : ℕ) × (find_loop fuel n xs key i ≡ some j) × (j < n) × ((at xs j == key) ≡ b)
unfolding get_loop find_loop
find_loop-get_loop w n xs key b size k zero i h run = absurd (cc)
find_loop-get_loop w n xs key b size k (suc fuel) i h run =
    elim (Bool-cases (at xs i == empty_slot)) [
      | inl free ↦ (i, rw free, h, ground arith)
      | inr used ↦ elim (Bool-cases (at xs i == key)) [
        | inl hit ↦ (i, rw (used, hit), h, ground arith)
        | inr miss ↦
            let (j, r, p, q) =
              find_loop-get_loop w n xs key b size k fuel (next n i) (ground arith)
                (ground arith) in
            (j, rw (used, miss, masked_next-next w n i size h) r, p, q)
      ]
    ]

clear-Gapped :
    (n : ℕ) (xs : List ℕ) (j : ℕ)
    → length xs ≡ n
    → j < n
    → Clustered n xs
    → Gapped n (set xs j empty_slot) j j
clear-Gapped n xs j w jn reach p pn used m mn d =
    let value = λ (q : ℕ). get_or-set xs j q empty_slot empty_slot (omega arith) in
    let apart : p ≢ j = λ z. used (value p ∙ ground (arith, z)) in
    let here : at (set xs j empty_slot) p ≡ at xs p = value p ∙ ground arith in
    let d' : distance n (hash n (at xs p)) m < distance n (hash n (at xs p)) p = rw here at d in
    elim (Bool-cases (j == m)) [
      | inl gap ↦ inr (ground arith, ground arith)
      | inr other ↦ inl (λ z. ground (arith, value m, reach p pn (λ y. used (here ∙ y)) m mn d'))
    ]

-- What a removal gives.
pub record Removed (t : HashTable2) (key : ℕ) (r : HashTable2) : Type 0 where
  pub valid : IsValid r
  pub size : r.hash_block_size ≡ t.hash_block_size
  pub not_more : r.entry_counter ≤ t.entry_counter
  pub rest :
      (q : ℕ)
      → q ≢ empty_slot
      → occurs r.hashtable q ≡ occurs t.hashtable q - (if q == key then 1 else 0)

take_out :
    (t : HashTable2) (key j : ℕ)
    → IsValid t
    → key ≢ empty_slot
    → j < t.hash_block_size
    → at t.hashtable j ≡ key
    → (ys : List ℕ) × (shift_loop t.hash_block_size t.hash_block_size
          (set t.hashtable j empty_slot)
          j
          j
        ≡ some ys)
      × Removed t key (record t { hashtable = ys; entry_counter = t.entry_counter - 1 })
take_out t key j v k jn e =
    let n = t.hash_block_size in
    let xs = t.hashtable in
    let jx : j < length xs = omega (arith, v.width) in
    let (z, zx, free) = empty_below xs (omega (arith, v.width, v.counted, v.load, v.large)) in
    let ne : z ≢ j = λ q. k (sym e ∙ ap (at xs) (sym q) ∙ free) in
    let (ys, run, s) =
      shift_loop-Shifted v.bits n z v.power (omega (arith, v.width)) n (set xs j empty_slot) j j
        (length-set xs j empty_slot ∙ v.width) jn jn
        (get_or-set xs j j empty_slot empty_slot jx ∙ ground arith)
        (get_or-set xs j z empty_slot empty_slot jx ∙ ground arith) ne ne
        (omega (arith, distance_lt n j z jn (omega (arith, v.width))))
        (clear-Gapped n xs j v.width jn v.reach) in
    let less = count_full-set_any xs j empty_slot jx in
    let fewer : count_full ys + 1 ≡ count_full xs = ground (arith, less, s.full) in
    (
      ys,
      run,
      record {
        valid = record {
          width = s.width;
          bits = v.bits;
          power = v.power;
          large = v.large;
          counted = omega (arith, fewer, v.counted);
          load = omega (arith, v.load);
          reach = s.reach;
        };
        size = refl;
        not_more = omega arith;
        rest = λ q real. ground (arith, s.same q real, occurs-set xs j empty_slot q jx);
      },
    )

occurs-absent : (xs : List ℕ) (q : ℕ) → contains xs q ≡ false → occurs xs q ≡ 0
occurs-absent xs q h = ground (arith, contains-occurs xs q)

module _ (t : HashTable2) (key j : ℕ) where
  open t use {hashtable, entry_counter, hash_block_size as n}

  remove_dest-hit :
      (ys : List ℕ)
      → find_loop n n hashtable key (hash n key) ≡ some j
      → (at hashtable j == key) ≡ true
      → shift_loop n n (set hashtable j empty_slot) j j ≡ some ys
      → remove_dest t key ≡ some (record t { hashtable = ys; entry_counter = entry_counter - 1 })
  unfolding remove_dest
  remove_dest-hit ys run hit out = rw (run, hit, out)

  remove_dest-miss :
      find_loop n n hashtable key (hash n key) ≡ some j
      → (at hashtable j == key) ≡ false
      → remove_dest t key ≡ some t
  unfolding remove_dest
  remove_dest-miss run miss = rw (run, miss)

pub remove_dest-Removed :
    (t : HashTable2) (key : ℕ)
    → IsValid t
    → key ≢ empty_slot
    → (r : HashTable2) × (remove_dest t key ≡ some r) × Removed t key r
remove_dest-Removed t key v k =
    let n = t.hash_block_size in
    let xs = t.hashtable in
    let start = hash-lt n key (omega (arith, v.large)) in
    let (j, run, jn, same) =
      find_loop-get_loop v.bits n xs key (contains xs key) v.power k n (hash n key) start
        (loop-contains n xs key v.width (omega (arith, v.counted, v.load, v.large)) v.reach k) in
    elim (Bool-cases (at xs j == key)) [
      | inl hit ↦
          let (ys, out, r) = take_out t key j v k jn ((==_iff (at xs j) key).0 hit) in
          (_, remove_dest-hit t key j ys run hit out, r)
      | inr miss ↦
          let absent = occurs-absent xs key (sym same ∙ miss) in
          (
            t,
            remove_dest-miss t key j run miss,
            record {
              valid = v;
              size = refl;
              not_more = omega arith;
              rest = λ q real. elim (Bool-cases (q == key)) [
                | inl hit ↦ omega (arith, absent, ap (occurs xs) ((==_iff q key).0 hit))
                | inr other ↦ rw other (omega arith)
              ];
            },
          )
    ]

-- On a valid table the removal of a key ends, whether the key is there or not. The table is valid
-- again, and afterwards a lookup finds exactly the keys that it held, where the removed key must
-- have been there twice.
pub remove_dest-get_dest :
    (t : HashTable2) (key : ℕ)
    → IsValid t
    → key ≢ empty_slot
    → (r : HashTable2) × (remove_dest t key ≡ some r)
      × IsValid r
      × ((q : ℕ)
          → q ≢ empty_slot
          → get_dest r q ≡ some (ltb (if q == key then 1 else 0) (occurs t.hashtable q)))
remove_dest-get_dest t key v k =
    let (r, run, d) = remove_dest-Removed t key v k in
    (
      r,
      run,
      d.valid,
      λ q real.
          get_dest-contains r q d.valid real
          ∙ ap some (contains-occurs r.hashtable q ∙ ground (arith, d.rest q real)),
    )
