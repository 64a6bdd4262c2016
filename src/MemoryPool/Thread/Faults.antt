-- ===== src/MemoryPool/Thread/Faults.antt =====
-- The sizes that a thread's allocator serves.
use avbgraph.MemoryPool.{sixteen_mb}
use avbgraph.MemoryPool.Index.{
  MemoryBucket, HashTableMemoryIndex, find_bucket, get_index_val, insert_index, insert_new,
  keep_or_add, add_bucket, new_index, resize_index,
}
use avbgraph.MemoryPool.Thread.{
  Memory, replace_bucket, set_bucket, init_size, init_loop, init_thread, from_vector,
  allocate_block, allocate_each, new_list, free_into, free_block,
}
use avbgraph.Prelude.{
  ℕ, suc, ◌%◌, ◌≤◌, ◌<◌, ◌≡◌, ◌≢◌, ◌⊎◌, inl, inr, refl, ap, ◌∙◌, true, false, List, [], ◌∷◌, none,
  some, leb, ◌==◌, ◌>>=◌, if◌then◌else◌, arith, Bool-cases,
}

-- The bucket that is set is found under its size, if there was one.
find_bucket-replace_bucket :
    (b : MemoryBucket) (cs : List MemoryBucket) (j : ℕ)
    → find_bucket j (replace_bucket b cs) ≡ (
        if b.block_size == j
        then (find_bucket j cs >>= λ (c : MemoryBucket). some b)
        else find_bucket j cs)
unfolding find_bucket replace_bucket
find_bucket-replace_bucket b [] j = ground arith
find_bucket-replace_bucket b (c ∷ cs) j = elim (Bool-cases (c.block_size == b.block_size)) [
  | inl e ↦
      let same : c.block_size ≡ b.block_size = ground arith in
      rw (e, same) (elim (Bool-cases (b.block_size == j)) [ inl f ↦ rw f refl | inr f ↦ rw f refl ])
  | inr e ↦ elim (Bool-cases (c.block_size == j)) [
    | inl f ↦
        let other : (b.block_size == j) ≡ false = ground (arith, e, f) in rw (e, f, other) refl
    | inr f ↦ rw (e, f) (find_bucket-replace_bucket b cs j)
  ]
]

set_bucket-get_index_val :
    (b : MemoryBucket) (idx : HashTableMemoryIndex) (j : ℕ)
    → get_index_val j (set_bucket b idx) ≡ (
        if b.block_size == j
        then (get_index_val j idx >>= λ (c : MemoryBucket). some b)
        else get_index_val j idx)
unfolding set_bucket get_index_val
set_bucket-get_index_val b idx j =
    let n = idx.cur_size1 in
    elim (Bool-cases (b.block_size % n == j % n)) [
      | inl slot ↦
          let same : b.block_size % n ≡ j % n = ground arith in
          rw slot (rw same (find_bucket-replace_bucket b (idx.hash_index_arr (j % n)) j))
      | inr apart ↦
          let other : (b.block_size == j) ≡ false = elim (Bool-cases (b.block_size == j)) [
            | inl at ↦
                let same : b.block_size ≡ j = ground arith in
                absurd (ground (arith, apart, ap (λ (k : ℕ). k % n) same))
            | inr off ↦ off
          ] in
          rw (apart, other) refl
    ]

-- The thread serves blocks of 2048 bytes from its regions, and of no other size up to 16 MB.
pub record Serves2048 (idx : HashTableMemoryIndex) : Type 0 where
  pub bucket : MemoryBucket
  pub found : get_index_val 2048 idx ≡ some bucket
  pub from_regions : bucket.is_available ≡ false
  pub no_list : bucket.free_block.free_list ≡ none
  pub no_other : (k : ℕ) → k ≢ 2048 → get_index_val k idx ≡ none

set_bucket-Serves2048 :
    (b : MemoryBucket) (idx : HashTableMemoryIndex)
    → Serves2048 idx
    → b.block_size ≡ 2048
    → b.is_available ≡ false
    → b.free_block.free_list ≡ none
    → Serves2048 (set_bucket b idx)
set_bucket-Serves2048 b idx s size off alone =
    let here : (b.block_size == 2048) ≡ true = ground (arith, size) in
    record {
      bucket = b;
      found = set_bucket-get_index_val b idx 2048 ∙ rw (here, s.found) refl;
      from_regions = off;
      no_list = alone;
      no_other = λ k h.
          let other : (b.block_size == k) ≡ false = ground (arith, size, h) in
          set_bucket-get_index_val b idx k ∙ rw other (s.no_other k h);
    }

init-Serves2048 :
    (w : Memory) → (t : HashTableMemoryIndex) × (init_thread w ≡ some t) × Serves2048 t
unfolding init_thread init_loop init_size new_index resize_index insert_index insert_new keep_or_add
    add_bucket get_index_val find_bucket set_bucket replace_bucket
init-Serves2048 w = (
  _,
  refl,
  record {
    bucket = _;
    found = refl;
    from_regions = refl;
    no_list = refl;
    no_other = λ k h. elim (Bool-cases (234 == k % 907)) [
      | inl slot ↦ let other : (2048 == k) ≡ false = ground (arith, h) in rw (slot, other) refl
      | inr apart ↦ rw apart refl
    ];
  },
)

find_bucket_size :
    (key : ℕ) (cs : List MemoryBucket) (b : MemoryBucket)
    → find_bucket key cs ≡ some b
    → b.block_size ≡ key
unfolding find_bucket
find_bucket_size key [] b e = absurd (cc)
find_bucket_size key (c ∷ cs) b e = ground (arith, e, find_bucket_size key cs b)

found_size :
    (idx : HashTableMemoryIndex) (key : ℕ) (b : MemoryBucket)
    → get_index_val key idx ≡ some b
    → b.block_size ≡ key
unfolding get_index_val
found_size idx key b e = find_bucket_size key (idx.hash_index_arr (key % idx.cur_size1)) b e

-- A request of 2048 bytes, or of more than 16 MB, is served.
allocate_block-Serves2048 :
    (w : Memory) (r : ℕ) (t : HashTableMemoryIndex)
    → (r ≡ 2048) ⊎ (sixteen_mb < r)
    → Serves2048 t
    → (a : ℕ × HashTableMemoryIndex) × (allocate_block w r t ≡ some a) × Serves2048 a.1
unfolding allocate_block from_vector
allocate_block-Serves2048 w r t (inl e) s =
    let small : leb r sixteen_mb ≡ true = ground (arith, e) in
    let got : get_index_val r t ≡ some s.bucket = ap (λ (k : ℕ). get_index_val k t) e ∙ s.found in
    (
      from_vector w r s.bucket t,
      rw (small, got, s.from_regions) refl,
      set_bucket-Serves2048 _ t s (found_size t 2048 s.bucket s.found) s.from_regions s.no_list,
    )
allocate_block-Serves2048 w r t (inr h) s =
    let large : leb r sixteen_mb ≡ false = ground (arith, h) in ((w.mapped r, t), rw large refl, s)

-- Every request is of 2048 bytes or of more than 16 MB.
abbrev pub AllServed : List ℕ → Type 0
AllServed [] = Unit {0}
AllServed (r ∷ rs) = ((r ≡ 2048) ⊎ (sixteen_mb < r)) × AllServed rs

allocate_each-Serves2048 :
    (w : Memory) (rs : List ℕ) (t : HashTableMemoryIndex)
    → AllServed rs
    → Serves2048 t
    → (u : HashTableMemoryIndex) × (allocate_each w rs t ≡ some u) × Serves2048 u
unfolding allocate_each
allocate_each-Serves2048 w [] t served s = (t, refl, s)
allocate_each-Serves2048 w (r ∷ rs) t (here, served) s =
    let (a, run, s') = allocate_block-Serves2048 w r t here s in
    let (u, run', s'') = allocate_each-Serves2048 w rs a.1 served s' in (u, rw run run', s'')

allocate_block_faults :
    (w : Memory) (r : ℕ) (t : HashTableMemoryIndex)
    → Serves2048 t
    → r ≤ sixteen_mb
    → r ≢ 2048
    → allocate_block w r t ≡ none
unfolding allocate_block
allocate_block_faults w r t s small other =
    let fits : leb r sixteen_mb ≡ true = ground (arith, small) in rw (fits, s.no_other r other) refl

new_list_faults :
    (w : Memory) (ptr size : ℕ) (t : HashTableMemoryIndex)
    → Serves2048 t
    → new_list w ptr size t ≡ none
unfolding new_list allocate_each
new_list_faults w ptr size t s =
    rw (allocate_block_faults w 24 t s (omega arith) (λ e. absurd (omega (arith, e)))) refl

free_block_faults :
    (w : Memory) (fuel old ptr size : ℕ) (t : HashTableMemoryIndex)
    → Serves2048 t
    → size ≤ sixteen_mb
    → free_block w (suc fuel) old ptr size t ≡ none
unfolding free_block free_into
free_block_faults w fuel old ptr size t s small =
    let fits : leb size sixteen_mb ≡ true = ground (arith, small) in
    elim (Bool-cases (size == 2048)) [
      | inl e ↦
          let at : size ≡ 2048 = ground arith in
          let got : get_index_val size t ≡ some s.bucket =
            ap (λ (k : ℕ). get_index_val k t) at ∙ s.found in
          rw (fits, got, s.no_list) (new_list_faults w ptr size t s)
      | inr e ↦
          let other : size ≢ 2048 = λ at. absurd (ground (arith, e, at)) in
          rw (fits, s.no_other size other) refl
    ]

-- After init and any sequence of requests of 2048 bytes or of more than 16 MB, which are all
-- served, a thread's allocator faults when a block of any size up to 16 MB is given back, with any
-- fuel, and on a request of any size up to 16 MB but 2048 bytes.
pub free_block_always_faults :
    (w : Memory) (rs : List ℕ) (fuel old ptr size : ℕ)
    → AllServed rs
    → size ≤ sixteen_mb
    → (t : HashTableMemoryIndex) × ((init_thread w >>= allocate_each w rs) ≡ some t)
      × (free_block w (suc fuel) old ptr size t ≡ none)
      × ((size ≡ 2048) ⊎ (allocate_block w size t ≡ none))
free_block_always_faults w rs fuel old ptr size served small =
    let (t, start, s) = init-Serves2048 w in
    let (u, run, s') = allocate_each-Serves2048 w rs t served s in
    (
      u,
      rw start run,
      free_block_faults w fuel old ptr size u s' small,
      elim (Bool-cases (size == 2048)) [
        | inl e ↦ inl (ground arith)
        | inr e ↦
            inr (allocate_block_faults w size u s' small (λ at. absurd (ground (arith, e, at))))
      ],
    )
