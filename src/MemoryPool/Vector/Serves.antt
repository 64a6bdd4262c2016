-- ===== src/MemoryPool/Vector/Serves.antt =====
-- What a request changes in a thread's vector: its blocks stay apart from what was handed out.
use avbgraph.Prelude.{
  ℕ, zero, suc, ◌+◌, ◌-◌, ◌%◌, ◌^◌, ◌≤◌, ◌<◌, ◌≡◌, refl, ap, ◌∙◌, ◌⊎◌, ◌↔◌, inl, inr, true, false,
  Bool-cases, if◌then◌else◌, List, [], ◌∷◌, arith,
}
use avbgraph.MemoryPool.Global.{GlobalAllocator, init, space_for, allocate, is_free_space}
use avbgraph.MemoryPool.Vector.{
  FixedSizeVector, TwoLevelVector, new_vector, insert_global, current, allocate_current, region_for,
  get_block,
}
use avbgraph.MemoryPool.Vector.Bounds.{
  InRange, Nonempty, insert_global-Current, allocate_current-Current,
}

-- A block is its address and its size.
abbrev pub Apart : ℕ × ℕ → ℕ × ℕ → Type 0
Apart b c = (b.0 + b.1 ≤ c.0) ⊎ (c.0 + c.1 ≤ b.0)

abbrev pub AllApart : ℕ × ℕ → List (ℕ × ℕ) → Type 0
AllApart b [] = Unit
AllApart b (c ∷ cs) = Apart b c × AllApart b cs

abbrev pub Pairwise : List (ℕ × ℕ) → Type 0
Pairwise [] = Unit
Pairwise (b ∷ bs) = AllApart b bs × Pairwise bs

-- The region that the k-th call of mmap returned: 4 MB for the first, which init makes, and 512 MB
-- for each of the others, which getBlock makes.
abbrev pub region_size : ℕ → ℕ
region_size zero = 4194304
region_size (suc k) = 536870912

abbrev pub region : (ℕ → ℕ) → ℕ → ℕ × ℕ
region mmap k = (mmap k, region_size k)

-- The conditions on what mmap returns up to its n-th call: addresses of 64 bits, and regions that
-- do not overlap.
abbrev pub Mapped : (ℕ → ℕ) → ℕ → Type 0
Mapped mmap n =
    ((j : ℕ) → j ≤ n → mmap j + region_size j < 2 ^ 64)
    × ((i j : ℕ) → i < j → j ≤ n → Apart (region mmap i) (region mmap j))

-- The vector of a thread that init made.
unfoldable pub initial : (ℕ → ℕ) → (ℕ → FixedSizeVector) → (ℕ → GlobalAllocator) → TwoLevelVector
initial mmap indirect al = insert_global (new_vector indirect al) al (init 4 true (mmap 0))

-- The blocks that a sequence of requests is answered with, the last first, when the region
-- `k` is current; a request maps another if the current one has no room for it.
unfoldable pub serve :
    (ℕ → ℕ) → (ℕ → GlobalAllocator) → ℕ → TwoLevelVector → List ℕ → List (ℕ × ℕ) → List (ℕ × ℕ)
serve mmap al k v [] served = served
serve mmap al k v (r ∷ rs) served =
    let answer = get_block v al (mmap (suc k)) r in
    serve mmap al (if is_free_space (current v) r then k else suc k) answer.1 rs
      ((answer.0, r) ∷ served)

-- What is left of a region.
abbrev pub free_part : GlobalAllocator → ℕ × ℕ
free_part g = (g.mem + g.offset, g.total_space - g.offset)

-- The region that is current is the k-th.
pub record Serves (mmap : ℕ → ℕ) (n k : ℕ) (v : TwoLevelVector) (served : List (ℕ × ℕ))
    : Type 0 where
  pub in_range : InRange v
  pub nonempty : Nonempty v
  pub mem_lem : (current v).mem ≡ mmap k
  pub total_lem : (current v).total_space ≡ region_size k
  pub offset_fits : (current v).offset ≤ (current v).total_space
  pub apart_here : AllApart (free_part (current v)) served
  pub apart_later : (j : ℕ) → k < j → j ≤ n → AllApart (region mmap j) served
  pub pairwise : Pairwise served

-- A block inside another is apart from what that is apart from.
AllApart-inside :
    (b c : ℕ × ℕ) (served : List (ℕ × ℕ))
    → c.0 ≤ b.0
    → b.0 + b.1 ≤ c.0 + c.1
    → AllApart c served
    → AllApart b served
AllApart-inside b c [] lo hi h = h
AllApart-inside b c (d ∷ served) lo hi (here, rest) =
    (ground (arith, here, lo, hi), AllApart-inside b c served lo hi rest)

-- A served request: the block lies where the free part began, and the rest is free.
taken :
    (g : GlobalAllocator) (r : ℕ)
    → g.mem + g.total_space < 2 ^ 64
    → g.offset + r ≤ g.total_space
    → ((allocate g r).0 ≡ g.mem + g.offset)
      × ((allocate g r).1.offset ≡ g.offset + r)
      × ((allocate g r).1.mem ≡ g.mem)
      × ((allocate g r).1.total_space ≡ g.total_space)
unfolding allocate
taken g r small fits = (omega (arith, small), omega (arith, small), refl, refl)

pub new_region :
    (mapped : ℕ)
    → ((init 512 false mapped).offset ≡ 0)
      × ((init 512 false mapped).mem ≡ mapped)
      × ((init 512 false mapped).total_space ≡ 536870912)
unfolding init space_for
new_region mapped = (refl, refl, refl)

-- One request that the current region serves.
allocate-Serves :
    {mmap : ℕ → ℕ} {n k : ℕ} {v : TwoLevelVector} {served : List (ℕ × ℕ)} (r : ℕ)
    → Mapped mmap n
    → k ≤ n
    → Serves mmap n k v served
    → (current v).offset + r ≤ (current v).total_space
    → Serves mmap n k (allocate_current v r).1 (((allocate_current v r).0, r) ∷ served)
allocate-Serves {mmap} {n} {k} {v} {served} r (small, apart) bound s fits =
    let (address, (at_end, range, some_region)) =
      allocate_current-Current v r s.in_range s.nonempty in
    let (place, moved, mem_same, total_same) =
      taken (current v) r (omega (arith, small k bound, s.mem_lem, s.total_lem)) fits in
    let at : (allocate_current v r).0 ≡ (current v).mem + (current v).offset = address ∙ place in
    let off : (current (allocate_current v r).1).offset ≡ (current v).offset + r =
      ap (λ (g : GlobalAllocator). g.offset) at_end ∙ moved in
    let mem : (current (allocate_current v r).1).mem ≡ (current v).mem =
      ap (λ (g : GlobalAllocator). g.mem) at_end ∙ mem_same in
    let total : (current (allocate_current v r).1).total_space ≡ (current v).total_space =
      ap (λ (g : GlobalAllocator). g.total_space) at_end ∙ total_same in
    record {
      in_range = range;
      nonempty = some_region;
      mem_lem = mem ∙ s.mem_lem;
      total_lem = total ∙ s.total_lem;
      offset_fits = omega (arith, off, total, fits);
      apart_here = (
        inr (omega (arith, off, mem, at)),
        AllApart-inside (free_part (current (allocate_current v r).1)) (free_part (current v))
            served (omega (arith, off, mem)) (omega (arith, off, mem, total, fits)) s.apart_here,
      );
      apart_later = λ j h top. (
        ground (arith, apart k j h top, at, fits, s.mem_lem, s.total_lem),
        s.apart_later j h top,
      );
      pairwise = (
        AllApart-inside ((allocate_current v r).0, r) (free_part (current v)) served
            (omega (arith, at)) (omega (arith, at, fits)) s.apart_here,
        s.pairwise,
      );
    }

-- The next region, before anything of it is handed out.
insert-Serves :
    {mmap : ℕ → ℕ} {n k : ℕ} {v : TwoLevelVector} {served : List (ℕ × ℕ)} (al : ℕ → GlobalAllocator)
    → suc k ≤ n
    → Serves mmap n k v served
    → Serves mmap n (suc k) (insert_global v al (init 512 false (mmap (suc k)))) served
      × ((current (insert_global v al (init 512 false (mmap (suc k))))).offset ≡ 0)
insert-Serves {mmap} {n} {k} {v} {served} al bound s =
    let (at_end, range, some_region) =
      insert_global-Current v al (init 512 false (mmap (suc k))) s.in_range in
    let fresh = new_region (mmap (suc k)) in
    let off : (current (insert_global v al (init 512 false (mmap (suc k))))).offset ≡ 0 =
      ap (λ (g : GlobalAllocator). g.offset) at_end ∙ fresh.0 in
    let mem : (current (insert_global v al (init 512 false (mmap (suc k))))).mem ≡ mmap (suc k) =
      ap (λ (g : GlobalAllocator). g.mem) at_end ∙ fresh.1 in
    let total : (current (insert_global v al (init 512 false (mmap (suc k))))).total_space
        ≡ 536870912 =
      ap (λ (g : GlobalAllocator). g.total_space) at_end ∙ fresh.2 in
    (
      record {
        in_range = range;
        nonempty = some_region;
        mem_lem = mem;
        total_lem = total;
        offset_fits = omega (arith, off);
        apart_here =
            AllApart-inside
              (free_part (current (insert_global v al (init 512 false (mmap (suc k))))))
              (region mmap (suc k)) served (omega (arith, off, mem))
              (omega (arith, off, mem, total)) (s.apart_later (suc k) (omega arith) bound);
        apart_later = λ j h top. s.apart_later j (omega (arith, h)) top;
        pairwise = s.pairwise;
      },
      off,
    )

region_for_small : (r mapped : ℕ) → r ≤ 16777216 → region_for r mapped ≡ init 512 false mapped
unfolding region_for
region_for_small r mapped h = ground arith

region_size_bound : (k : ℕ) → region_size k ≤ 536870912
region_size_bound zero = omega arith
region_size_bound (suc k) = omega arith

-- The test whether the current region has room for a request.
is_free_space_iff :
    (g : GlobalAllocator) (r : ℕ)
    → g.offset + r < 2 ^ 64
    → (is_free_space g r ≡ true) ↔ (g.offset + r ≤ g.total_space)
unfolding is_free_space
is_free_space_iff g r h =
    let e : (g.offset + r) % 2 ^ 64 ≡ g.offset + r = omega (arith, h) in rw e (ground arith)

get_block_free :
    (v : TwoLevelVector) (al : ℕ → GlobalAllocator) (mapped r : ℕ)
    → is_free_space (current v) r ≡ true
    → get_block v al mapped r ≡ allocate_current v r
unfolding get_block
get_block_free v al mapped r e = rw e refl

get_block_mapped :
    (v : TwoLevelVector) (al : ℕ → GlobalAllocator) (mapped r : ℕ)
    → r ≤ 16777216
    → is_free_space (current v) r ≡ false
    → get_block v al mapped r ≡ allocate_current (insert_global v al (init 512 false mapped)) r
unfolding get_block
get_block_mapped v al mapped r h e = rw (e, region_for_small r mapped h) refl

no_wrap :
    {mmap : ℕ → ℕ} {n k r : ℕ} {v : TwoLevelVector} {served : List (ℕ × ℕ)}
    → Serves mmap n k v served
    → r ≤ 16777216
    → (current v).offset + r < 2 ^ 64
no_wrap {k = k} s h = omega (arith, s.offset_fits, s.total_lem, region_size_bound k, h)

pub get_block-Serves :
    {mmap : ℕ → ℕ} {n k : ℕ} {v : TwoLevelVector} {served : List (ℕ × ℕ)} (al : ℕ → GlobalAllocator)
    (r : ℕ)
    → Mapped mmap n
    → suc k ≤ n
    → r ≤ 16777216
    → Serves mmap n k v served
    → Serves mmap n
        (if is_free_space (current v) r then k else suc k)
        (get_block v al (mmap (suc k)) r).1
        (((get_block v al (mmap (suc k)) r).0, r) ∷ served)
get_block-Serves {mmap} {n} {k} {v} {served} al r mapped bound h s =
    elim (Bool-cases (is_free_space (current v) r)) [
      | inl e ↦
          rw (e, get_block_free v al (mmap (suc k)) r e)
            (allocate-Serves r mapped (omega (arith, bound)) s
              ((is_free_space_iff (current v) r (no_wrap s h)).0 e))
      | inr e ↦
          let (next, off) = insert-Serves al bound s in
          rw (e, get_block_mapped v al (mmap (suc k)) r h e)
            (allocate-Serves r mapped bound next (omega (arith, off, next.total_lem, h)))
    ]
