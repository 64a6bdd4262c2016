-- ===== src/MemoryPool/Vector.antt =====
-- HALMemoryPool/BlockAllocator.{hpp,cpp}, the classes FixedSizeVector and TwoLevelVector: the
-- regions of a thread, the last of which serves its requests. `cur1` is the `curIndex + 1` of a
-- FixedSizeVector; the memory of an array holds anything until it is written.
pub mod Bounds
pub mod Serves
pub mod Apart
use avbgraph.Prelude.{
  ℕ, suc, ◌+◌, ◌-◌, ◌*◌, Bool, true, false, ◌&&◌, ◌||◌, ltb, leb, ◌==◌, if◌then◌else◌, update,
}
use avbgraph.MemoryPool.{memory_vector_size, fixed_size, sixteen_mb}
use avbgraph.MemoryPool.Global.{GlobalAllocator, init, allocate, is_free_space}

pub record FixedSizeVector : Type 0 where
  pub cur1 : ℕ
  pub block_arr : ℕ → GlobalAllocator

-- initVal and initBlockArray on the array that aligned_alloc returned.
unfoldable pub init_vector : (ℕ → GlobalAllocator) → FixedSizeVector
init_vector allocated = record { cur1 = 0; block_arr = allocated }

unfoldable pub set_block_arr : FixedSizeVector → GlobalAllocator → FixedSizeVector
set_block_arr v ga = record { cur1 = suc v.cur1; block_arr = update v.block_arr v.cur1 ga }

-- IscurIndexFull
unfoldable pub vector_is_full : FixedSizeVector → Bool
vector_is_full v = v.cur1 == memory_vector_size

pub record TwoLevelVector : Type 0 where
  pub indr_array : ℕ → FixedSizeVector
  pub cur_index : ℕ
  pub cur_size : ℕ
  pub block_size : ℕ

-- initVal and the first setIndrArray.
unfoldable pub new_vector : (ℕ → FixedSizeVector) → (ℕ → GlobalAllocator) → TwoLevelVector
new_vector indirect allocated = record {
  indr_array = update indirect 0 (init_vector allocated);
  cur_index = 0;
  cur_size = 1;
  block_size = fixed_size;
}

-- addBlock
unfoldable pub add_vector : TwoLevelVector → (ℕ → GlobalAllocator) → TwoLevelVector
add_vector v allocated = record v {
  cur_index = suc v.cur_index;
  indr_array = update v.indr_array (suc v.cur_index) (init_vector allocated);
}

-- setIndrArray on an array that is there.
unfoldable pub grow_vector : TwoLevelVector → TwoLevelVector
grow_vector v = record v {
  cur_index = v.cur_size - 1;
  block_size = 2 * v.cur_size * fixed_size;
  cur_size = 2 * v.cur_size;
}

-- `IndrArray[curIndex]->setBlockArr(ga)`
unfoldable pub set_current : TwoLevelVector → GlobalAllocator → TwoLevelVector
set_current v ga = record v {
  indr_array = update v.indr_array v.cur_index (set_block_arr (v.indr_array v.cur_index) ga);
}

-- TwoLevelVector::insert
unfoldable pub insert_global :
    TwoLevelVector → (ℕ → GlobalAllocator) → GlobalAllocator → TwoLevelVector
insert_global v allocated ga =
    if v.cur_index == v.block_size - 1
    then (if vector_is_full (v.indr_array v.cur_index)
        then set_current (add_vector (grow_vector v) allocated) ga
        else set_current v ga)
    else if vector_is_full (v.indr_array v.cur_index)
    then set_current (add_vector v allocated) ga
    else set_current v ga

-- `IndrArray[curIndex]->getBlockArr()[IndrArray[curIndex]->getCurIndex()]`
unfoldable pub current : TwoLevelVector → GlobalAllocator
current v = let b = v.indr_array v.cur_index in b.block_arr (b.cur1 - 1)

-- The allocation from the current region, which changes its offset in place.
unfoldable pub allocate_current : TwoLevelVector → ℕ → ℕ × TwoLevelVector
allocate_current v requested =
    let b = v.indr_array v.cur_index in
    let taken = allocate (current v) requested in
    (
      taken.0,
      record v {
        indr_array =
            update v.indr_array v.cur_index
              (record b { block_arr = update b.block_arr (b.cur1 - 1) taken.1 });
      },
    )

-- The region that getBlock maps for a request that the current one cannot hold.
unfoldable pub region_for : ℕ → ℕ → GlobalAllocator
region_for requested mapped =
    if (requested == 40) || (requested == 32)
    then init 512 false mapped
    else if leb requested 4194304
    then init 512 false mapped
    else if ltb 4194304 requested && leb requested 8388608
    then init 512 false mapped
    else if ltb 8388608 requested && leb requested sixteen_mb
    then init 512 false mapped
    else init requested false mapped

-- getBlock; `mapped` is the address that mmap returns if a region is mapped.
unfoldable pub get_block : TwoLevelVector → (ℕ → GlobalAllocator) → ℕ → ℕ → ℕ × TwoLevelVector
get_block v allocated mapped requested =
    if is_free_space (current v) requested
    then allocate_current v requested
    else allocate_current (insert_global v allocated (region_for requested mapped)) requested
