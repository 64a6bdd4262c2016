-- ===== src/Tests/Pools.antt =====
-- The memory pool.
use avbgraph.MemoryPool.Global.{GlobalAllocator}
use avbgraph.MemoryPool.Index.Capacity.{block_of, first, insert_each, insert_each-first}
use avbgraph.MemoryPool.Index.{AllocatorBlock, HashTableMemoryIndex, default_size, new_index}
use avbgraph.MemoryPool.Thread.Faults.{free_block_always_faults}
use avbgraph.MemoryPool.Thread.{Memory, init_thread, allocate_block, allocate_each, free_block}
use avbgraph.MemoryPool.Queue.Run.{
  Op, keep, hand_out, run, run_stack, run-run_stack, new_queue-Shaped,
}
use avbgraph.MemoryPool.Queue.Stack.{contents, Shaped}
use avbgraph.MemoryPool.Queue.{FixedSizeBlock, TwoLevelQueue, new_queue, init_block}
use avbgraph.MemoryPool.Vector.Apart.{serve-Pairwise}
use avbgraph.MemoryPool.Vector.Serves.{Pairwise, region_size, initial, serve}
use avbgraph.MemoryPool.Vector.{FixedSizeVector}
use avbgraph.Prelude.{
  ℕ, zero, suc, inl, inr, ◌⊎◌, ◌>>=◌, true, ◌^◌, ◌≤◌, ◌<◌, ◌+◌, ◌*◌, ◌≡◌, refl, List, [], ◌∷◌, none,
  some, arith, length,
}

abbrev no_block : FixedSizeBlock
no_block = record { cur1 = 0; block_arr = λ i. 0 }

abbrev fresh : TwoLevelQueue
fresh = new_queue (λ i. no_block) (λ i. 0)

abbrev some_ops : List Op
some_ops = keep (λ i. 0) 5 ∷ keep (λ i. 0) 7 ∷ hand_out ∷ hand_out ∷ hand_out ∷ []

run-run_stack_example : run some_ops fresh ≡ run_stack some_ops (contents fresh)
unfolding new_queue init_block
run-run_stack_example =
    run-run_stack some_ops fresh (new_queue-Shaped (λ i. no_block) (λ i. 0)) (omega arith)

run_stack_test : run_stack some_ops [] ≡ some 7 ∷ some 5 ∷ none ∷ []
run_stack_test = refl

-- All 16 blocks hold 1024 addresses.
abbrev full_block : FixedSizeBlock
full_block = record { cur1 = 1024; block_arr = λ i. i }

abbrev full_queue : TwoLevelQueue
full_queue = record { indr_array = λ i. full_block; cur_index = 15; cur_size = 1; block_size = 16 }

full_queue-Shaped : Shaped full_queue
full_queue-Shaped = record {
  before_full = λ i h. refl;
  current_fits = omega arith;
  index_fits = omega arith;
  size_lem = refl;
}

abbrev no_global : GlobalAllocator
no_global = record { mem = 0; offset = 0; total_space = 0 }

abbrev no_vector : FixedSizeVector
no_vector = record { cur1 = 0; block_arr = λ i. no_global }

bounded : (j : ℕ) → j ≤ 3 → j * 1073741824 + region_size j < 2 ^ 64
bounded zero h = omega arith
bounded (suc j) h = omega (arith, h)

spaced : (i j : ℕ) → i < j → i * 1073741824 + region_size i ≤ j * 1073741824
spaced zero j h = omega (arith, h)
spaced (suc i) j h = omega (arith, h)

-- The first region has no room for the second request.
serve-Pairwise_example : Pairwise (
    serve
      (λ k. k * 1073741824)
      (λ i. no_global)
      0
      (initial (λ k. k * 1073741824) (λ i. no_vector) (λ i. no_global))
      (4194000 ∷ 2048 ∷ 2048 ∷ [])
      [])
serve-Pairwise_example =
    serve-Pairwise (λ k. k * 1073741824) (λ i. no_vector) (λ i. no_global)
      (4194000 ∷ 2048 ∷ 2048 ∷ []) (λ j h. bounded j h, λ i j h top. inl (spaced i j h))
      (omega arith, (omega arith, (omega arith, tt)))

-- A size that is named twice keeps its first blocks.
abbrev blocks_of : ℕ → AllocatorBlock
blocks_of at = record {
  mem_block = record { indr_array = λ i. no_vector; cur_index = at; cur_size = 1; block_size = 1 };
  free_list = none;
}

abbrev some_sizes : List (ℕ × AllocatorBlock)
some_sizes = (8, blocks_of 1) ∷ (915, blocks_of 2) ∷ (8, blocks_of 3) ∷ []

insert_each-first_example :
    ((length some_sizes ≤ default_size)
      × ((r : HashTableMemoryIndex) × ((new_index (λ k. true)
              >>= insert_each (λ k. true) some_sizes)
            ≡ some r)
          × ((j : ℕ) → block_of j r ≡ first j some_sizes)))
    ⊎ ((default_size < length some_sizes)
        × ((new_index (λ k. true) >>= insert_each (λ k. true) some_sizes) ≡ none))
insert_each-first_example = insert_each-first (λ k. true) some_sizes

abbrev some_memory : Memory
some_memory = record {
  mapped = λ size. 4096 + size;
  al = λ i. no_global;
  indirect = λ i. no_vector;
  blocks = λ i. no_block;
  slots = λ i. 0;
  junk = λ k. true;
}

free_block_always_faults_example :
    (t : HashTableMemoryIndex) × ((init_thread some_memory
        >>= allocate_each some_memory (2048 ∷ 20000000 ∷ 2048 ∷ []))
      ≡ some t)
    × (free_block some_memory 3 0 6144 2048 t ≡ none)
    × ((◌≡◌ {A = ℕ} 2048 2048) ⊎ (allocate_block some_memory 2048 t ≡ none))
free_block_always_faults_example =
    free_block_always_faults some_memory (2048 ∷ 20000000 ∷ 2048 ∷ []) 2 0 6144 2048
      (inl refl, (inr (omega arith), (inl refl, tt))) (omega arith)
