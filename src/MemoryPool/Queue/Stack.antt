-- ===== src/MemoryPool/Queue/Stack.antt =====
-- A TwoLevelQueue is a stack, until its array of blocks grows.
use avbgraph.Prelude.{
  update_here, ℕ, zero, suc, ◌+◌, ◌*◌, ◌≤◌, ◌<◌, ◌≡◌, refl, ap, List, [], ◌∷◌, ◌++◌, false, ◌==◌,
  arith, length, length-append, update,
}
use avbgraph.MemoryPool.Queue.{
  FixedSizeBlock, TwoLevelQueue, push, init_block, add_block, push_current,
}

-- What a block holds below an index, the last first.
abbrev pub listed : (ℕ → ℕ) → ℕ → List ℕ
listed arr zero = []
listed arr (suc n) = arr n ∷ listed arr n

-- What the blocks below an index hold, the last first.
abbrev pub below : (ℕ → FixedSizeBlock) → ℕ → List ℕ
below blocks zero = []
below blocks (suc n) = listed (blocks n).block_arr (blocks n).cur1 ++ below blocks n

-- The addresses that get_block will return, in their order.
abbrev pub contents : TwoLevelQueue → List ℕ
contents q = below q.indr_array (suc q.cur_index)

-- The blocks before the current one are full, and the indices stay inside the arrays.
pub record Shaped (q : TwoLevelQueue) : Type 0 where
  pub before_full : (i : ℕ) → i < q.cur_index → (q.indr_array i).cur1 ≡ 1024
  pub current_fits : (q.indr_array q.cur_index).cur1 ≤ 1024
  pub index_fits : q.cur_index < q.block_size
  pub size_lem : q.block_size ≡ q.cur_size * 16

listed-update : (arr : ℕ → ℕ) (i n v : ℕ) → n ≤ i → listed (update arr i v) n ≡ listed arr n
listed-update arr i zero v h = refl
listed-update arr i (suc n) v h = ground (arith, listed-update arr i n v)

pub below-update :
    (blocks : ℕ → FixedSizeBlock) (i n : ℕ) (b : FixedSizeBlock)
    → n ≤ i
    → below (update blocks i b) n ≡ below blocks n
below-update blocks i zero b h = refl
below-update blocks i (suc n) b h =
    let other : (i == n) ≡ false = ground arith in
    rw (other, below-update blocks i n b (omega arith)) refl

listed-push :
    (b : FixedSizeBlock) (v : ℕ)
    → listed (push b v).block_arr (push b v).cur1 ≡ v ∷ listed b.block_arr b.cur1
unfolding push
listed-push b v =
    rw (update_here b.block_arr b.cur1 v, listed-update b.block_arr b.cur1 b.cur1 v (omega arith))
      refl

pub contents-push_current :
    (q : TwoLevelQueue) (v : ℕ) → contents (push_current q v) ≡ v ∷ contents q
unfolding push_current
contents-push_current q v =
    rw
      (
        update_here q.indr_array q.cur_index (push (q.indr_array q.cur_index) v),
        below-update q.indr_array q.cur_index q.cur_index (push (q.indr_array q.cur_index) v)
            (omega arith),
        listed-push (q.indr_array q.cur_index) v,
      )
      refl

pub contents-add_block : (q : TwoLevelQueue) (al : ℕ → ℕ) → contents (add_block q al) ≡ contents q
unfolding add_block init_block
contents-add_block q al =
    rw
      (
        update_here q.indr_array (suc q.cur_index) (init_block al),
        below-update q.indr_array (suc q.cur_index) (suc q.cur_index) (init_block al) (omega arith),
      )
      refl

pub push_current-Shaped :
    {q : TwoLevelQueue} (v : ℕ)
    → Shaped q
    → (q.indr_array q.cur_index).cur1 < 1024
    → Shaped (push_current q v)
unfolding push_current push
push_current-Shaped {q} v sh room = record {
  before_full = λ i h. ground (arith, sh.before_full i h);
  current_fits =
      rw (update_here q.indr_array q.cur_index (push (q.indr_array q.cur_index) v)) (omega arith);
  index_fits = sh.index_fits;
  size_lem = sh.size_lem;
}

pub add_block-Shaped :
    {q : TwoLevelQueue} (al : ℕ → ℕ)
    → Shaped q
    → (q.indr_array q.cur_index).cur1 ≡ 1024
    → suc q.cur_index < q.block_size
    → Shaped (add_block q al)
unfolding add_block init_block
add_block-Shaped {q} al sh full room = record {
  before_full = λ i h. ground (arith, sh.before_full i, full);
  current_fits = rw (update_here q.indr_array (suc q.cur_index) (init_block al)) (omega arith);
  index_fits = room;
  size_lem = sh.size_lem;
}

-- What the queue can hold in its array of blocks.
abbrev pub capacity : TwoLevelQueue → ℕ
capacity q = 1024 * q.block_size

length-listed : (arr : ℕ → ℕ) (n : ℕ) → length (listed arr n) ≡ n
length-listed arr zero = refl
length-listed arr (suc n) = ap suc (length-listed arr n)

pub length-below :
    (blocks : ℕ → FixedSizeBlock) (n : ℕ)
    → ((i : ℕ) → i < n → (blocks i).cur1 ≡ 1024)
    → length (below blocks n) ≡ 1024 * n
length-below blocks zero full = refl
length-below blocks (suc n) full = omega (
  arith,
  length-append (listed (blocks n).block_arr (blocks n).cur1) (below blocks n),
  length-listed (blocks n).block_arr (blocks n).cur1,
  full n (omega arith),
  length-below blocks n (λ i h. full i (omega arith)),
)

pub length-contents :
    {q : TwoLevelQueue}
    → Shaped q
    → length (contents q) ≡ (q.indr_array q.cur_index).cur1 + 1024 * q.cur_index
length-contents {q} sh = omega (
  arith,
  length-append (listed (q.indr_array q.cur_index).block_arr (q.indr_array q.cur_index).cur1)
      (below q.indr_array q.cur_index),
  length-listed (q.indr_array q.cur_index).block_arr (q.indr_array q.cur_index).cur1,
  length-below q.indr_array q.cur_index sh.before_full,
)

pub add_block_current :
    (q : TwoLevelQueue) (al : ℕ → ℕ)
    → ((add_block q al).indr_array (add_block q al).cur_index).cur1 ≡ 0
unfolding add_block init_block
add_block_current q al = rw (update_here q.indr_array (suc q.cur_index) (init_block al)) refl
