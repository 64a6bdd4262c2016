-- ===== src/MemoryPool/Index.antt =====
-- HALMemoryPool/HashTablMemory.{h,cpp}, the classes MemoryBucket and HashTableMemoryIndex: a table
-- from block sizes to the blocks of a thread. A chain of buckets is a list; `none` is an access
-- that the code must not make.
pub mod Capacity
use avbgraph.MemoryPool.{get_cur_size_table}
use avbgraph.MemoryPool.Queue.{TwoLevelQueue}
use avbgraph.MemoryPool.Vector.{TwoLevelVector}
use avbgraph.Prelude.{
  ℕ, zero, suc, ◌+◌, ◌%◌, Bool, List, [], ◌∷◌, Option, none, some, ltb, ◌==◌, ◌>>=◌, if◌then◌else◌,
  update,
}

pub record AllocatorBlock : Type 0 where
  pub mem_block : TwoLevelVector
  pub free_list : Option TwoLevelQueue

pub record MemoryBucket : Type 0 where
  pub block_size : ℕ
  pub free_block : AllocatorBlock
  pub is_available : Bool

pub record HashTableMemoryIndex : Type 0 where
  pub hash_index_arr : ℕ → List MemoryBucket
  pub cur_size1 : ℕ
  pub entry_counter1 : ℕ

abbrev pub default_size : ℕ
default_size = 907

-- The loop of getIndexVal.
unfoldable pub find_bucket : ℕ → List MemoryBucket → Option MemoryBucket
find_bucket key [] = none
find_bucket key (b ∷ bs) = if b.block_size == key then some b else find_bucket key bs

unfoldable pub get_index_val : ℕ → HashTableMemoryIndex → Option MemoryBucket
get_index_val key idx = find_bucket key (idx.hash_index_arr (key % idx.cur_size1))

-- The buckets of a slot, copied into another array. A copy takes what its memory held for
-- isAvailable, which nothing writes: `junk`, by the size.
unfoldable pub move_slot :
    (ℕ → Bool) → ℕ → List MemoryBucket → (ℕ → List MemoryBucket) → ℕ → List MemoryBucket
move_slot junk cur_size [] arr = arr
move_slot junk cur_size (b ∷ bs) arr =
    let new_index = b.block_size % cur_size in
    move_slot junk cur_size bs
      (update arr new_index (record b { is_available = junk b.block_size } ∷ arr new_index))

-- The slots below a bound.
unfoldable pub move_slots : (ℕ → Bool) → ℕ → (ℕ → List MemoryBucket) → ℕ → ℕ → List MemoryBucket
move_slots junk cur_size arr zero = λ i. []
move_slots junk cur_size arr (suc n) =
    move_slot junk cur_size (arr n) (move_slots junk cur_size arr n)

-- resizeHashTable; a size of -1 leaves no array to write to.
unfoldable pub resize_index : (ℕ → Bool) → HashTableMemoryIndex → Option HashTableMemoryIndex
resize_index junk idx =
    if idx.cur_size1 == 0
    then some (record idx { hash_index_arr = λ i. []; cur_size1 = default_size })
    else get_cur_size_table idx.cur_size1 >>= λ (cur_size : ℕ). some (record idx {
      hash_index_arr = move_slots junk cur_size idx.hash_index_arr idx.cur_size1;
      cur_size1 = cur_size;
    })

-- The constructor.
unfoldable pub new_index : (ℕ → Bool) → Option HashTableMemoryIndex
new_index junk =
    resize_index junk (record { hash_index_arr = λ i. []; cur_size1 = 0; entry_counter1 = 0 })

unfoldable pub add_bucket :
    (ℕ → Bool) → ℕ → AllocatorBlock → HashTableMemoryIndex → HashTableMemoryIndex
add_bucket junk key val idx =
    let index = key % idx.cur_size1 in
    let bucket : MemoryBucket = record {
      block_size = key;
      free_block = val;
      is_available = junk key;
    } in
    record idx {
      hash_index_arr = update idx.hash_index_arr index (bucket ∷ idx.hash_index_arr index);
    }

-- A size that is there keeps its blocks, though it is counted again.
unfoldable pub keep_or_add :
    Option MemoryBucket → HashTableMemoryIndex → HashTableMemoryIndex → HashTableMemoryIndex
keep_or_add none added idx = added
keep_or_add (some b) added idx = idx

unfoldable pub insert_new :
    (ℕ → Bool) → ℕ → AllocatorBlock → HashTableMemoryIndex → HashTableMemoryIndex
insert_new junk key val idx = keep_or_add (get_index_val key idx) (add_bucket junk key val idx) idx

-- HashTableMemoryIndex::insert
unfoldable pub insert_index :
    (ℕ → Bool) → ℕ → AllocatorBlock → HashTableMemoryIndex → Option HashTableMemoryIndex
insert_index junk key val idx =
    let counted = record idx { entry_counter1 = idx.entry_counter1 + 1 } in
    (if ltb counted.cur_size1 counted.entry_counter1
      then resize_index junk counted
      else some counted)
    >>= λ (ready : HashTableMemoryIndex). some (insert_new junk key val ready)
