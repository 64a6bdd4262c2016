-- ===== src/MemoryPool/Thread.antt =====
-- HALMemoryPool/BlockAllocator.{hpp,cpp}, class PerThreadMemoryAllocator: a thread's index of its
-- blocks. mmap is `mapped`, the address that it returns if a request of a size maps a region; the
-- arrays `al`, `indirect`, `blocks` and `slots` hold anything. `none` is a fault.
pub mod Faults
use avbgraph.MemoryPool.{sixteen_mb, fixed_size_queue}
use avbgraph.MemoryPool.Global.{GlobalAllocator}
use avbgraph.MemoryPool.Global as Global
use avbgraph.MemoryPool.Index.{
  AllocatorBlock, MemoryBucket, HashTableMemoryIndex, get_index_val, insert_index, new_index,
}
use avbgraph.MemoryPool.Queue.{
  FixedSizeBlock, TwoLevelQueue, new_queue, insert, add_block, push_current, is_full,
}
use avbgraph.MemoryPool.Queue as Queue
use avbgraph.MemoryPool.Vector.{FixedSizeVector, TwoLevelVector, new_vector, insert_global}
use avbgraph.MemoryPool.Vector as Vector
use avbgraph.Prelude.{
  ℕ, zero, suc, ◌+◌, ◌-◌, ◌*◌, ◌%◌, Bool, true, false, not, List, [], ◌∷◌, ◌++◌, Option, none, some,
  leb, ◌==◌, ◌>>=◌, if◌then◌else◌, update, replicate,
}

-- What the calls behind the allocator return.
pub record Memory : Type 0 where
  pub mapped : ℕ → ℕ
  pub al : ℕ → GlobalAllocator
  pub indirect : ℕ → FixedSizeVector
  pub blocks : ℕ → FixedSizeBlock
  pub slots : ℕ → ℕ
  pub junk : ℕ → Bool

-- The bucket in place of the one of its size.
unfoldable pub replace_bucket : MemoryBucket → List MemoryBucket → List MemoryBucket
replace_bucket b [] = []
replace_bucket b (c ∷ cs) = if c.block_size == b.block_size then b ∷ cs else c ∷ replace_bucket b cs

unfoldable pub set_bucket : MemoryBucket → HashTableMemoryIndex → HashTableMemoryIndex
set_bucket b idx =
    let index = b.block_size % idx.cur_size1 in
    record idx {
      hash_index_arr =
          update idx.hash_index_arr index (replace_bucket b (idx.hash_index_arr index));
    }

abbrev pub target_block_size : ℕ
target_block_size = 32 * 64

-- BlockSize and spaceNeeded, in init.
abbrev pub init_sizes : List (ℕ × ℕ)
init_sizes = (target_block_size, 4) ∷ replicate 15 (0, 0)

module _ (w : Memory) where
  -- The body of the loop of init, for a size and its space in megabytes.
  unfoldable pub init_size : ℕ → ℕ → HashTableMemoryIndex → Option HashTableMemoryIndex
  init_size size space block =
      let vec_two = new_vector w.indirect w.al in
      let gl = Global.init space true (w.mapped size) in
      let ptr : AllocatorBlock = record {
        mem_block = insert_global vec_two w.al gl;
        free_list = none;
      } in
      insert_index w.junk size ptr block >>= λ (idx : HashTableMemoryIndex).
      (get_index_val size idx >>= λ (b : MemoryBucket).
      some (set_bucket (record b { is_available = false }) idx))

  unfoldable pub init_loop : List (ℕ × ℕ) → HashTableMemoryIndex → Option HashTableMemoryIndex
  init_loop [] block = some block
  init_loop ((size, space) ∷ sizes) block =
      (if not (size == target_block_size) then some block else init_size size space block)
      >>= init_loop sizes

  -- PerThreadMemoryAllocator::init
  unfoldable pub init_thread : Option HashTableMemoryIndex
  init_thread = new_index w.junk >>= init_loop init_sizes

  -- `memBlock->getBlock(requestedBlock)`
  unfoldable pub from_vector : ℕ → MemoryBucket → HashTableMemoryIndex → ℕ × HashTableMemoryIndex
  from_vector requested m block =
      let taken = Vector.get_block m.free_block.mem_block w.al (w.mapped requested) requested in
      (
        taken.0,
        set_bucket (record m { free_block = record (m.free_block) { mem_block = taken.1 } }) block,
      )

  -- The list of freed blocks, when it is marked as available.
  unfoldable pub from_list :
      ℕ
      → MemoryBucket
      → Option TwoLevelQueue
      → HashTableMemoryIndex
      → Option (ℕ × HashTableMemoryIndex)
  from_list requested m none block = none
  from_list requested m (some q) block =
      if Queue.empty q
      then some (from_vector requested m block)
      else (let taken = Queue.get_block q in
          some (
            taken.0,
            set_bucket
                (record m { free_block = record (m.free_block) { free_list = some taken.1 } })
                block,
          ))

  -- PerThreadMemoryAllocator::Allocate
  unfoldable pub allocate_block : ℕ → HashTableMemoryIndex → Option (ℕ × HashTableMemoryIndex)
  allocate_block requested block =
      if leb requested sixteen_mb
      then (get_index_val requested block >>= λ (m : MemoryBucket).
          (if not m.is_available
            then some (from_vector requested m block)
            else from_list requested m m.free_block.free_list block))
      else some (w.mapped requested, block)

  -- A sequence of requests, whose blocks are kept.
  unfoldable pub allocate_each : List ℕ → HashTableMemoryIndex → Option HashTableMemoryIndex
  allocate_each [] block = some block
  allocate_each (r ∷ rs) block =
      allocate_block r block >>= λ (a : ℕ × HashTableMemoryIndex). allocate_each rs a.1

  -- `getIndexVal(deletedBlock)->getFreeBlockList()->freeList = newB`, with isAvailable.
  unfoldable pub set_list : ℕ → TwoLevelQueue → HashTableMemoryIndex → Option HashTableMemoryIndex
  set_list size q block = get_index_val size block >>= λ (m : MemoryBucket). some (
      set_bucket
        (record m {
          free_block = record (m.free_block) { free_list = some q };
          is_available = true;
        })
        block)

  -- What `two` points to.
  unfoldable pub list_of : ℕ → HashTableMemoryIndex → Option TwoLevelQueue
  list_of size block = get_index_val size block >>= λ (m : MemoryBucket). m.free_block.free_list

  -- The requests of a new block of a list: the block and its array.
  abbrev pub block_requests : List ℕ
  block_requests = 16 ∷ 8 * 1024 ∷ []

  -- The end of TwoLevelQueue::insert on a full block.
  unfoldable pub push_new : ℕ → ℕ → HashTableMemoryIndex → Option HashTableMemoryIndex
  push_new ptr size block = allocate_each block_requests block >>= λ (ready : HashTableMemoryIndex).
      (list_of size ready >>= λ (q : TwoLevelQueue).
      set_list size (push_current (add_block q w.slots) ptr) ready)

  -- setIndrArray on an array that is there, which frees the old one by `free_old` before it sets
  -- the sizes.
  unfoldable pub grow_list :
      (ℕ → HashTableMemoryIndex → Option HashTableMemoryIndex)
      → ℕ
      → TwoLevelQueue
      → HashTableMemoryIndex
      → Option HashTableMemoryIndex
  grow_list free_old size q block =
      let b_len_new = 2 * q.cur_size in
      allocate_each (8 * (b_len_new * fixed_size_queue) ∷ []) block
      >>= λ (ready : HashTableMemoryIndex).
          (set_list size (record q { cur_index = q.cur_size - 1 }) ready
            >>= λ (moved : HashTableMemoryIndex).
                (free_old (q.cur_size * fixed_size_queue * 8) moved
                  >>= λ (freed : HashTableMemoryIndex).
                      (list_of size freed >>= λ (q' : TwoLevelQueue).
                      set_list size
                        (record q' {
                          block_size = b_len_new * fixed_size_queue;
                          cur_size = b_len_new;
                        })
                        freed)))

  -- `two->insert(ptr, this)`
  unfoldable pub insert_freed :
      (ℕ → HashTableMemoryIndex → Option HashTableMemoryIndex)
      → ℕ
      → ℕ
      → TwoLevelQueue
      → HashTableMemoryIndex
      → Option HashTableMemoryIndex
  insert_freed free_old ptr size two block =
      if not (is_full (two.indr_array two.cur_index))
      then set_list size (push_current two ptr) block
      else if two.cur_index == two.block_size - 1
      then (grow_list free_old size two block >>= push_new ptr size)
      else push_new ptr size block

  -- The branch of free without a list: the list, its array and its first block are allocated.
  unfoldable pub new_list : ℕ → ℕ → HashTableMemoryIndex → Option HashTableMemoryIndex
  new_list ptr size block =
      allocate_each (24 ∷ 8 * fixed_size_queue ∷ block_requests) block
      >>= set_list size (insert (new_queue w.blocks w.slots) w.slots ptr)

  unfoldable pub free_into :
      (ℕ → HashTableMemoryIndex → Option HashTableMemoryIndex)
      → ℕ
      → ℕ
      → Option TwoLevelQueue
      → HashTableMemoryIndex
      → Option HashTableMemoryIndex
  free_into free_old ptr size none block = new_list ptr size block
  free_into free_old ptr size (some two) block = insert_freed free_old ptr size two block

  -- PerThreadMemoryAllocator::free; `old` is the address of an array that a list outgrew.
  unfoldable pub free_block : ℕ → ℕ → ℕ → ℕ → HashTableMemoryIndex → Option HashTableMemoryIndex
  free_block zero old ptr size block = none
  free_block (suc fuel) old ptr size block =
      if leb size sixteen_mb
      then (get_index_val size block >>= λ (m : MemoryBucket).
          free_into (free_block fuel old old) ptr size m.free_block.free_list block)
      else some block
