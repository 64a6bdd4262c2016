-- ===== src/MemoryPool/Queue/Take.antt =====
-- TwoLevelQueue::get_block and empty.
use avbgraph.Prelude.{
  update_here, ℕ, suc, ◌-◌, ◌≤◌, ◌≡◌, ◌≢◌, refl, ap, subst, sym, ◌∙◌, ◌↔◌, inl, inr, List, [], ◌∷◌,
  true, false, Bool-cases, ◌==◌, arith, length, update,
}
use avbgraph.MemoryPool.Queue.{FixedSizeBlock, TwoLevelQueue, pop, pop_current, get_block, empty}
use avbgraph.MemoryPool.Queue.Stack.{listed, below, contents, Shaped, below-update, length-contents}

update-Shaped :
    {q : TwoLevelQueue} (b : FixedSizeBlock)
    → Shaped q
    → b.cur1 ≤ 1024
    → Shaped (record q { indr_array = update q.indr_array q.cur_index b })
update-Shaped {q} b sh h = record {
  before_full = λ i l. ground (arith, sh.before_full i l);
  current_fits = rw (update_here q.indr_array q.cur_index b) h;
  index_fits = sh.index_fits;
  size_lem = sh.size_lem;
}

listed-pop :
    (b : FixedSizeBlock)
    → b.cur1 ≢ 0
    → listed b.block_arr b.cur1 ≡ (pop b).0 ∷ listed (pop b).1.block_arr (pop b).1.cur1
unfolding pop
listed-pop b h =
    let e : suc (b.cur1 - 1) ≡ b.cur1 = ground arith in ap (λ (n : ℕ). listed b.block_arr n) (sym e)

pop_fits : (b : FixedSizeBlock) → b.cur1 ≤ 1024 → (pop b).1.cur1 ≤ 1024
unfolding pop
pop_fits b h = omega arith

-- The answer `r` of a queue is the first of its addresses, and the others stay.
abbrev pub Popped : TwoLevelQueue → ℕ × TwoLevelQueue → Type 0
Popped q r = (contents q ≡ r.0 ∷ contents r.1) × Shaped r.1 × (r.1.block_size ≡ q.block_size)

pop_current-Popped :
    (q : TwoLevelQueue) → Shaped q → (q.indr_array q.cur_index).cur1 ≢ 0 → Popped q (pop_current q)
unfolding pop_current
pop_current-Popped q sh h =
    let b = pop (q.indr_array q.cur_index) in
    (
      rw
          (
            update_here q.indr_array q.cur_index b.1,
            below-update q.indr_array q.cur_index q.cur_index b.1 (omega arith),
            listed-pop (q.indr_array q.cur_index) h,
          )
          refl,
      update-Shaped b.1 sh (pop_fits (q.indr_array q.cur_index) sh.current_fits),
      refl,
    )

-- The queue with the block before the current one made current.
unfoldable pub lowered : TwoLevelQueue → TwoLevelQueue
lowered q = record q { cur_index = q.cur_index - 1 }

lowered-Shaped : (q : TwoLevelQueue) → Shaped q → q.cur_index ≢ 0 → Shaped (lowered q)
unfolding lowered
lowered-Shaped q sh h = record {
  before_full = λ i l. sh.before_full i (omega arith);
  current_fits = omega (arith, sh.before_full (q.cur_index - 1) (ground arith));
  index_fits = omega (arith, sh.index_fits);
  size_lem = sh.size_lem;
}

contents-lowered :
    (q : TwoLevelQueue)
    → q.cur_index ≢ 0
    → (q.indr_array q.cur_index).cur1 ≡ 0
    → contents q ≡ contents (lowered q)
unfolding lowered
contents-lowered q h none_left =
    let e : suc (q.cur_index - 1) ≡ q.cur_index = ground arith in
    rw none_left (ap (λ (n : ℕ). below q.indr_array n) (sym e))

get_block-lowered :
    (q : TwoLevelQueue)
    → (q.cur_index == 0) ≡ false
    → ((q.indr_array q.cur_index).cur1 == 0) ≡ true
    → get_block q ≡ pop_current (lowered q)
unfolding get_block lowered
get_block-lowered q first gone = rw (first, gone) refl

get_block_current :
    (q : TwoLevelQueue)
    → ((q.indr_array q.cur_index).cur1 == 0) ≡ false
    → get_block q ≡ pop_current q
unfolding get_block
get_block_current q there = elim (Bool-cases (q.cur_index == 0)) [
  | inl e ↦ rw e refl
  | inr e ↦ rw (e, there) refl
]

empty_iff :
    (q : TwoLevelQueue)
    → (empty q ≡ true) ↔ ((q.cur_index ≡ 0) × ((q.indr_array q.cur_index).cur1 ≡ 0))
unfolding empty
empty_iff q = ground arith

not_empty :
    (q : TwoLevelQueue)
    → empty q ≡ false
    → ((q.indr_array q.cur_index).cur1 == 0) ≡ true
    → (q.cur_index == 0) ≡ false
unfolding empty
not_empty q e gone = ground arith

lowered_block :
    (q : TwoLevelQueue)
    → Shaped q
    → q.cur_index ≢ 0
    → ((lowered q).indr_array (lowered q).cur_index).cur1 ≢ 0
unfolding lowered
lowered_block q sh h e = omega (arith, sh.before_full (q.cur_index - 1) (ground arith))

lowered-block_size : (q : TwoLevelQueue) → (lowered q).block_size ≡ q.block_size
unfolding lowered
lowered-block_size q = refl

-- If the queue is not empty, get_block answers with the address on top and leaves the others, in
-- the shape and with the capacity that the queue had.
pub get_block-Popped : (q : TwoLevelQueue) → Shaped q → empty q ≡ false → Popped q (get_block q)
get_block-Popped q sh some_left = elim (Bool-cases ((q.indr_array q.cur_index).cur1 == 0)) [
  | inl gone ↦
      let later = not_empty q some_left gone in
      let h : q.cur_index ≢ 0 = ground arith in
      let (top, shaped, size) =
        pop_current-Popped (lowered q) (lowered-Shaped q sh h) (lowered_block q sh h) in
      subst (λ (r : ℕ × TwoLevelQueue). Popped q r) (sym (get_block-lowered q later gone))
        (contents-lowered q h (ground arith) ∙ top, shaped, size ∙ lowered-block_size q)
  | inr there ↦
      subst (λ (r : ℕ × TwoLevelQueue). Popped q r) (sym (get_block_current q there))
        (pop_current-Popped q sh (ground arith))
]

length-nil : (xs : List ℕ) → length xs ≡ 0 → xs ≡ []
length-nil [] e = refl
length-nil (x ∷ xs) e = absurd (omega (arith, e))

-- The queue says that it is empty exactly when it holds no address.
pub empty-contents : (q : TwoLevelQueue) → Shaped q → (empty q ≡ true) ↔ (contents q ≡ [])
empty-contents q sh = (
  λ e.
      length-nil (contents q)
        (omega (arith, length-contents sh, ((empty_iff q).0 e).0, ((empty_iff q).0 e).1)),
  λ e. (empty_iff q).1 (
    omega (arith, length-contents sh, ap length e),
    omega (arith, length-contents sh, ap length e),
  ),
)
