-- ===== src/MemoryPool/Vector/Apart.antt =====
-- The blocks that a thread's regions hand out do not overlap.
use avbgraph.Prelude.{ℕ, suc, ◌+◌, ◌≤◌, ap, true, if◌then◌else◌, List, [], ◌∷◌, length, arith}
use avbgraph.MemoryPool.Global.{GlobalAllocator, init, space_for, is_free_space}
use avbgraph.MemoryPool.Vector.{FixedSizeVector, TwoLevelVector, new_vector, current, get_block}
use avbgraph.MemoryPool.Vector.Bounds.{insert_global-Current, new_vector-InRange}
use avbgraph.MemoryPool.Vector.Serves.{Pairwise, initial, serve, Serves, Mapped, get_block-Serves}

-- The requests are of at most 16 MB.
abbrev pub AllSmall : List ℕ → Type 0
AllSmall [] = Unit
AllSmall (r ∷ rs) = (r ≤ 16777216) × AllSmall rs

serve_from :
    (mmap : ℕ → ℕ) (al : ℕ → GlobalAllocator) (n k : ℕ) (v : TwoLevelVector) (requests : List ℕ)
    (served : List (ℕ × ℕ))
    → Mapped mmap n
    → k + length requests ≤ n
    → AllSmall requests
    → Serves mmap n k v served
    → Pairwise (serve mmap al k v requests served)
unfolding serve
serve_from mmap al n k v [] served mapped bound h s = s.pairwise
serve_from mmap al n k v (r ∷ rs) served mapped bound (h, hs) s =
    serve_from mmap al n (if is_free_space (current v) r then k else suc k)
      (get_block v al (mmap (suc k)) r).1 rs (((get_block v al (mmap (suc k)) r).0, r) ∷ served)
      mapped (ground (arith, bound)) hs (get_block-Serves al r mapped (omega (arith, bound)) h s)

initial-Serves :
    (mmap : ℕ → ℕ) (n : ℕ) (indirect : ℕ → FixedSizeVector) (al : ℕ → GlobalAllocator)
    → Serves mmap n 0 (initial mmap indirect al) []
unfolding initial init space_for
initial-Serves mmap n indirect al =
    let first = init 4 true (mmap 0) in
    let (at_end, range, some_region) =
      insert_global-Current (new_vector indirect al) al first (new_vector-InRange indirect al) in
    record {
      in_range = range;
      nonempty = some_region;
      mem_lem = ap (λ (g : GlobalAllocator). g.mem) at_end;
      total_lem = ap (λ (g : GlobalAllocator). g.total_space) at_end;
      offset_fits = omega (arith, ap (λ (g : GlobalAllocator). g.offset) at_end);
      apart_here = tt;
      apart_later = λ j h top. tt;
      pairwise = tt;
    }

-- The blocks of at most 16 MB that a thread's vector hands out, from its initial region of 4 MB and
-- the regions of 512 MB that it maps when one is used up, never overlap, whatever their number and
-- sizes: if mmap, in as many calls as there are requests and one more, returns addresses of 64 bits
-- and regions that do not overlap.
pub serve-Pairwise :
    (mmap : ℕ → ℕ) (indirect : ℕ → FixedSizeVector) (al : ℕ → GlobalAllocator) (requests : List ℕ)
    → Mapped mmap (length requests)
    → AllSmall requests
    → Pairwise (serve mmap al 0 (initial mmap indirect al) requests [])
serve-Pairwise mmap indirect al requests mapped small =
    serve_from mmap al (length requests) 0 (initial mmap indirect al) requests [] mapped
      (omega arith) small (initial-Serves mmap (length requests) indirect al)
