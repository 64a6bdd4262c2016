-- ===== src/MemoryPool/Queue.antt =====
-- HALMemoryPool/HashTablMemory.{h,cpp}, the classes FixedSizeBlock and TwoLevelQueue: the addresses
-- that a thread freed and hands out again. `cur1` is `cur + 1`, the number of addresses in a block;
-- the memory that Allocate returns for an array holds anything until it is written.
pub mod Stack
pub mod Insert
pub mod Take
pub mod Run
use avbgraph.Prelude.{ℕ, suc, ◌+◌, ◌-◌, ◌*◌, Bool, true, false, ◌&&◌, ◌==◌, if◌then◌else◌, update}
use avbgraph.MemoryPool.{memory_queue_size, fixed_size_queue}

pub record FixedSizeBlock : Type 0 where
  pub cur1 : ℕ
  pub block_arr : ℕ → ℕ

-- initVal and initBlockArr on the array that Allocate returned.
unfoldable pub init_block : (ℕ → ℕ) → FixedSizeBlock
init_block allocated = record { cur1 = 0; block_arr = allocated }

unfoldable pub push : FixedSizeBlock → ℕ → FixedSizeBlock
push b val = record { cur1 = suc b.cur1; block_arr = update b.block_arr b.cur1 val }

unfoldable pub pop : FixedSizeBlock → ℕ × FixedSizeBlock
pop b = (b.block_arr (b.cur1 - 1), record b { cur1 = b.cur1 - 1 })

-- IscurIndexFull
unfoldable pub is_full : FixedSizeBlock → Bool
is_full b = b.cur1 == memory_queue_size

pub record TwoLevelQueue : Type 0 where
  pub indr_array : ℕ → FixedSizeBlock
  pub cur_index : ℕ
  pub cur_size : ℕ
  pub block_size : ℕ

-- initVal and the first setIndrArray, as free calls them: one block in an array of 16.
unfoldable pub new_queue : (ℕ → FixedSizeBlock) → (ℕ → ℕ) → TwoLevelQueue
new_queue indirect allocated = record {
  indr_array = update indirect 0 (init_block allocated);
  cur_index = 0;
  cur_size = 1;
  block_size = fixed_size_queue;
}

-- addBlock
unfoldable pub add_block : TwoLevelQueue → (ℕ → ℕ) → TwoLevelQueue
add_block q allocated = record q {
  cur_index = suc q.cur_index;
  indr_array = update q.indr_array (suc q.cur_index) (init_block allocated);
}

-- setIndrArray on an array that is there: the copy keeps the blocks, and the current block becomes
-- the one at the old curSize - 1.
unfoldable pub grow : TwoLevelQueue → TwoLevelQueue
grow q = record q {
  cur_index = q.cur_size - 1;
  block_size = 2 * q.cur_size * fixed_size_queue;
  cur_size = 2 * q.cur_size;
}

-- `IndrArray[curIndex]->push(ga)`
unfoldable pub push_current : TwoLevelQueue → ℕ → TwoLevelQueue
push_current q ga = record q {
  indr_array = update q.indr_array q.cur_index (push (q.indr_array q.cur_index) ga);
}

unfoldable pub insert : TwoLevelQueue → (ℕ → ℕ) → ℕ → TwoLevelQueue
insert q allocated ga =
    if q.cur_index == q.block_size - 1
    then (if is_full (q.indr_array q.cur_index)
        then push_current (add_block (grow q) allocated) ga
        else push_current q ga)
    else if is_full (q.indr_array q.cur_index)
    then push_current (add_block q allocated) ga
    else push_current q ga

-- `IndrArray[curIndex]->pop()`
unfoldable pub pop_current : TwoLevelQueue → ℕ × TwoLevelQueue
pop_current q =
    let popped = pop (q.indr_array q.cur_index) in
    (popped.0, record q { indr_array = update q.indr_array q.cur_index popped.1 })

unfoldable pub get_block : TwoLevelQueue → ℕ × TwoLevelQueue
get_block q =
    if q.cur_index == 0
    then pop_current q
    else if (q.indr_array q.cur_index).cur1 == 0
    then pop_current (record q { cur_index = q.cur_index - 1 })
    else pop_current q

unfoldable pub empty : TwoLevelQueue → Bool
empty q = if (q.cur_index == 0) && ((q.indr_array q.cur_index).cur1 == 0) then true else false
