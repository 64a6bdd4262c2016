-- ===== src/MemoryPool/Global.antt =====
-- HALMemoryPool/BlockAllocator.{hpp,cpp}, class GlobalAllocator: a mapped region that is handed out
-- from its start to its end. The address of the region is what mmap returned.
use avbgraph.Prelude.{ℕ, ◌+◌, ◌*◌, ◌%◌, ◌^◌, Bool, true, false, ltb, if◌then◌else◌}
use avbgraph.MemoryPool.{sixteen_mb}

pub record GlobalAllocator : Type 0 where
  pub mem : ℕ
  pub offset : ℕ
  pub total_space : ℕ

-- The size of the region that init maps.
unfoldable pub space_for : ℕ → Bool → ℕ
space_for size true = size * 1048576
space_for size false = if ltb sixteen_mb size then size else size * 1048576

unfoldable pub init : ℕ → Bool → ℕ → GlobalAllocator
init size is_init mapped = record { mem = mapped; offset = 0; total_space = space_for size is_init }

unfoldable pub allocate : GlobalAllocator → ℕ → ℕ × GlobalAllocator
allocate g size = ((g.mem + g.offset) % 2 ^ 64, record g { offset = (g.offset + size) % 2 ^ 64 })

unfoldable pub is_free_space : GlobalAllocator → ℕ → Bool
is_free_space g block_size =
    if ltb g.total_space ((g.offset + block_size) % 2 ^ 64) then false else true
