-- ===== src/MemoryPool/Index/Capacity.antt =====
-- How many insertions an index takes, and what it holds.
use avbgraph.MemoryPool.Index.{
  AllocatorBlock, MemoryBucket, HashTableMemoryIndex, default_size, find_bucket, get_index_val,
  add_bucket, insert_new, keep_or_add, insert_index, new_index, resize_index,
}
use avbgraph.MemoryPool.{get_cur_size_table}
use avbgraph.Prelude.{
  ℕ, ◌+◌, ◌%◌, ◌≤◌, ◌<◌, ◌≡◌, ◌⊎◌, inl, inr, refl, ap, sym, ◌∙◌, Bool, true, false, List, [], ◌∷◌,
  Option, none, some, ltb, ◌==◌, ◌>>=◌, if◌then◌else◌, length, arith, Bool-cases, Option-cases,
  ltb→lt, ltb→le,
}

-- The blocks of a size.
abbrev pub block_of : ℕ → HashTableMemoryIndex → Option AllocatorBlock
block_of key idx = get_index_val key idx >>= λ (b : MemoryBucket). some b.free_block

abbrev pub or_else {ℓ} : {A : Type ℓ} → Option A → Option A → Option A
or_else none b = b
or_else (some a) b = some a

-- The first of a sequence of insertions that has the size.
abbrev pub first : ℕ → List (ℕ × AllocatorBlock) → Option AllocatorBlock
first key [] = none
first key ((k, val) ∷ kvs) = if k == key then some val else first key kvs

-- A sequence of insertions.
unfoldable pub insert_each :
    (ℕ → Bool) → List (ℕ × AllocatorBlock) → HashTableMemoryIndex → Option HashTableMemoryIndex
insert_each junk [] idx = some idx
insert_each junk ((key, val) ∷ kvs) idx = insert_index junk key val idx >>= insert_each junk kvs

add_bucket-block_of :
    (junk : ℕ → Bool) (key : ℕ) (val : AllocatorBlock) (idx : HashTableMemoryIndex) (j : ℕ)
    → block_of j (add_bucket junk key val idx) ≡ (if key == j then some val else block_of j idx)
unfolding add_bucket get_index_val find_bucket
add_bucket-block_of junk key val idx j = elim (Bool-cases (key == j)) [
  | inl at ↦
      let same : key ≡ j = ground arith in
      let slot : (key % idx.cur_size1 == j % idx.cur_size1) ≡ true =
        ground (arith, ap (λ (k : ℕ). k % idx.cur_size1) same) in
      rw (slot, at) refl
  | inr other ↦ elim (Bool-cases (key % idx.cur_size1 == j % idx.cur_size1)) [
    | inl slot ↦
        let same : key % idx.cur_size1 ≡ j % idx.cur_size1 = ground arith in
        rw (slot, other) (rw same refl)
    | inr apart ↦ rw (apart, other) refl
  ]
]

or_else-none {ℓ} : {A : Type ℓ} (a : Option A) → a ≡ or_else a none
or_else-none none = refl
or_else-none (some x) = refl

insert_new-cur_size1 :
    (junk : ℕ → Bool) (key : ℕ) (val : AllocatorBlock) (idx : HashTableMemoryIndex)
    → (insert_new junk key val idx).cur_size1 ≡ idx.cur_size1
unfolding insert_new keep_or_add add_bucket
insert_new-cur_size1 junk key val idx = elim (Option-cases (get_index_val key idx)) [
  | inl e ↦ rw e refl
  | inr (b, e) ↦ rw e refl
]

insert_new-entry_counter1 :
    (junk : ℕ → Bool) (key : ℕ) (val : AllocatorBlock) (idx : HashTableMemoryIndex)
    → (insert_new junk key val idx).entry_counter1 ≡ idx.entry_counter1
unfolding insert_new keep_or_add add_bucket
insert_new-entry_counter1 junk key val idx = elim (Option-cases (get_index_val key idx)) [
  | inl e ↦ rw e refl
  | inr (b, e) ↦ rw e refl
]

insert_new-block_of :
    (junk : ℕ → Bool) (key : ℕ) (val : AllocatorBlock) (idx : HashTableMemoryIndex) (j : ℕ)
    → block_of j (insert_new junk key val idx)
      ≡ or_else (block_of j idx) (if key == j then some val else none)
unfolding insert_new keep_or_add
insert_new-block_of junk key val idx j = elim (Option-cases (get_index_val key idx)) [
  | inl absent ↦ elim (Bool-cases (key == j)) [
    | inl at ↦
        let same : key ≡ j = ground arith in
        let missing : block_of j idx ≡ none =
          ap (λ (k : ℕ). block_of k idx) (sym same) ∙ rw absent refl in
        rw (absent, missing) (add_bucket-block_of junk key val idx j ∙ rw at refl)
    | inr other ↦
        rw absent
          (add_bucket-block_of junk key val idx j ∙ rw other (or_else-none (block_of j idx)))
  ]
  | inr (b, present) ↦ elim (Bool-cases (key == j)) [
    | inl at ↦
        let same : key ≡ j = ground arith in
        let there : block_of j idx ≡ some b.free_block =
          ap (λ (k : ℕ). block_of k idx) (sym same) ∙ rw present refl in
        rw (present, there) refl
    | inr other ↦ rw (present, other) (or_else-none (block_of j idx))
  ]
]

-- One insertion into an index of the first size, and the one that does not fit.
insert_index-block_of :
    (junk : ℕ → Bool) (key : ℕ) (val : AllocatorBlock) (idx : HashTableMemoryIndex)
    → idx.cur_size1 ≡ default_size
    → idx.entry_counter1 < default_size
    → (r : HashTableMemoryIndex) × (insert_index junk key val idx ≡ some r)
      × (r.cur_size1 ≡ default_size)
      × (r.entry_counter1 ≡ idx.entry_counter1 + 1)
      × ((j : ℕ) → block_of j r ≡ or_else (block_of j idx) (if key == j then some val else none))
unfolding insert_index get_index_val
insert_index-block_of junk key val idx size room =
    let counted = record idx { entry_counter1 = idx.entry_counter1 + 1 } in
    let fits : ltb idx.cur_size1 (idx.entry_counter1 + 1) ≡ false = ground (arith, size, room) in
    (
      insert_new junk key val counted,
      rw fits refl,
      insert_new-cur_size1 junk key val counted ∙ size,
      insert_new-entry_counter1 junk key val counted,
      λ j. insert_new-block_of junk key val counted j,
    )

insert_index_full :
    (junk : ℕ → Bool) (key : ℕ) (val : AllocatorBlock) (idx : HashTableMemoryIndex)
    → idx.cur_size1 ≡ default_size
    → default_size ≤ idx.entry_counter1
    → insert_index junk key val idx ≡ none
unfolding insert_index resize_index get_cur_size_table
insert_index_full junk key val idx size full =
    let over : ltb idx.cur_size1 (idx.entry_counter1 + 1) ≡ true = ground (arith, size, full) in
    rw (over, size) refl

or_else-first :
    (j key : ℕ) (val : AllocatorBlock) (kvs : List (ℕ × AllocatorBlock)) (o : Option AllocatorBlock)
    → or_else (or_else o (if key == j then some val else none)) (first j kvs)
      ≡ or_else o (first j ((key, val) ∷ kvs))
or_else-first j key val kvs none = elim (Bool-cases (key == j)) [
  | inl e ↦ rw e refl
  | inr e ↦ rw e refl
]
or_else-first j key val kvs (some b) = refl

insert_each-block_of :
    (junk : ℕ → Bool) (kvs : List (ℕ × AllocatorBlock)) (idx : HashTableMemoryIndex)
    → idx.cur_size1 ≡ default_size
    → idx.entry_counter1 ≤ default_size
    → ((idx.entry_counter1 + length kvs ≤ default_size)
        × ((r : HashTableMemoryIndex) × (insert_each junk kvs idx ≡ some r)
            × ((j : ℕ) → block_of j r ≡ or_else (block_of j idx) (first j kvs))))
      ⊎ ((default_size < idx.entry_counter1 + length kvs) × (insert_each junk kvs idx ≡ none))
unfolding insert_each
insert_each-block_of junk [] idx size top =
    inl (omega (arith, top), (idx, refl, λ j. or_else-none (block_of j idx)))
insert_each-block_of junk ((key, val) ∷ kvs) idx size top =
    elim (Bool-cases (ltb idx.entry_counter1 default_size)) [
      | inl room ↦
          let (r, run, size', counter, blocks) =
            insert_index-block_of junk key val idx size (ltb→lt _ _ room) in
          elim (insert_each-block_of junk kvs r size' (omega (arith, counter, ltb→lt _ _ room))) [
            | inl (fits, (s, run', blocks')) ↦ inl (
              omega (arith, fits, counter),
              (
                s,
                rw run run',
                λ j.
                    blocks' j
                    ∙ ap (λ (o : Option AllocatorBlock). or_else o (first j kvs)) (blocks j)
                    ∙ or_else-first j key val kvs (block_of j idx),
              ),
            )
            | inr (over, run') ↦ inr (omega (arith, over, counter), rw run run')
          ]
      | inr full ↦ inr (
        omega (arith, ltb→le _ _ full),
        rw (insert_index_full junk key val idx size (ltb→le _ _ full)) refl,
      )
    ]

-- A new index takes exactly 907 insertions, whichever sizes they name. After at most so many it
-- holds for every size the blocks of the first insertion that named it, and for the others none; a
-- sequence of more ends in an access to an array that is not there.
pub insert_each-first :
    (junk : ℕ → Bool) (kvs : List (ℕ × AllocatorBlock))
    → ((length kvs ≤ default_size)
        × ((r : HashTableMemoryIndex) × ((new_index junk >>= insert_each junk kvs) ≡ some r)
            × ((j : ℕ) → block_of j r ≡ first j kvs)))
      ⊎ ((default_size < length kvs) × ((new_index junk >>= insert_each junk kvs) ≡ none))
unfolding new_index resize_index get_index_val find_bucket
insert_each-first junk kvs =
    let start : HashTableMemoryIndex = record {
      hash_index_arr = λ i. [];
      cur_size1 = default_size;
      entry_counter1 = 0;
    } in
    elim (insert_each-block_of junk kvs start refl (omega arith)) [
      | inl (fits, (r, run, blocks)) ↦ inl (omega (arith, fits), (r, run, blocks))
      | inr (over, run) ↦ inr (omega (arith, over), run)
    ]
