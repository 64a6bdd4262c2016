-- ===== src/MemoryPool.antt =====
-- HALMemoryPool/MemoryPoolLib.{h,cpp}: the constants of the memory pool and the sizes its tables
-- grow through. An address is a number.
pub mod Queue
pub mod Global
pub mod Vector
pub mod Index
pub mod Thread
use avbgraph.Prelude.{ℕ, ◌*◌, List, [], ◌∷◌, Option, none, some, ltb, ◌==◌, if◌then◌else◌}

abbrev pub memory_vector_size : ℕ
memory_vector_size = 16

abbrev pub memory_queue_size : ℕ
memory_queue_size = 1024

abbrev pub fixed_size_queue : ℕ
fixed_size_queue = 16

abbrev pub fixed_size : ℕ
fixed_size = 1

abbrev pub sixteen_mb : ℕ
sixteen_mb = 16777216

abbrev pub prime_table : List ℕ
prime_table = 4 ∷ 16 ∷ 128 ∷ 512 ∷ 1024 ∷ 8192 ∷ 16384 ∷ 131072 ∷ 524288 ∷ []

-- The loop of getCurSizeTable: the entry behind the one that is the size, `none` for -1.
abbrev pub size_behind : ℕ → List ℕ → Option ℕ
size_behind cur_size [] = none
size_behind cur_size (p ∷ []) = none
size_behind cur_size (p ∷ q ∷ table) =
    if cur_size == p then some q else size_behind cur_size (q ∷ table)

unfoldable pub get_cur_size_table : ℕ → Option ℕ
get_cur_size_table cur_size =
    if ltb cur_size 524288 then size_behind cur_size prime_table else some (cur_size * 2)
