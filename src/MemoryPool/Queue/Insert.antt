-- ===== src/MemoryPool/Queue/Insert.antt =====
-- TwoLevelQueue::insert, with room in the array of blocks and without.
use avbgraph.Prelude.{
  ℕ, suc, ◌+◌, ◌-◌, ◌*◌, ◌<◌, ◌≡◌, ◌≢◌, refl, ap, subst, sym, ◌∙◌, inl, inr, List, ◌∷◌, true, false,
  Bool-cases, ◌==◌, arith, length,
}
use avbgraph.MemoryPool.Queue.{TwoLevelQueue, is_full, add_block, grow, push_current, insert}
use avbgraph.MemoryPool.Queue.Stack.{
  below, contents, Shaped, contents-push_current, contents-add_block, push_current-Shaped,
  add_block-Shaped, add_block_current, capacity, length-below, length-contents,
}

insert_added :
    (q : TwoLevelQueue) (al : ℕ → ℕ) (v : ℕ)
    → (q.cur_index == q.block_size - 1) ≡ false
    → (q.indr_array q.cur_index).cur1 ≡ 1024
    → insert q al v ≡ push_current (add_block q al) v
unfolding insert is_full
insert_added q al v last full = rw (last, full) refl

insert_current :
    (q : TwoLevelQueue) (al : ℕ → ℕ) (v : ℕ)
    → ((q.indr_array q.cur_index).cur1 == 1024) ≡ false
    → insert q al v ≡ push_current q v
unfolding insert is_full
insert_current q al v e = elim (Bool-cases (q.cur_index == q.block_size - 1)) [
  | inl last ↦ rw (last, e) refl
  | inr last ↦ rw (last, e) refl
]

-- The queue `r` is the queue with an address more on top, and an array of blocks as large.
abbrev pub Pushed : TwoLevelQueue → ℕ → TwoLevelQueue → Type 0
Pushed q v r = (contents r ≡ v ∷ contents q) × Shaped r × (r.block_size ≡ q.block_size)

push_current-block_size : (q : TwoLevelQueue) (v : ℕ) → (push_current q v).block_size ≡ q.block_size
unfolding push_current
push_current-block_size q v = refl

add_block-block_size : (q : TwoLevelQueue) (al : ℕ → ℕ) → (add_block q al).block_size ≡ q.block_size
unfolding add_block
add_block-block_size q al = refl

-- In a queue that holds less than its array of blocks has room for, an address that is inserted
-- comes on top of the others; the blocks below the current one stay full, and the array its size.
pub insert-contents :
    {q : TwoLevelQueue} (al : ℕ → ℕ) (v : ℕ)
    → Shaped q
    → length (contents q) < capacity q
    → Pushed q v (insert q al v)
insert-contents {q} al v sh room = elim (Bool-cases ((q.indr_array q.cur_index).cur1 == 1024)) [
  | inl full ↦
      let e : (q.indr_array q.cur_index).cur1 ≡ 1024 = ground arith in
      let last : (q.cur_index == q.block_size - 1) ≡ false =
        ground (arith, length-contents sh, e) in
      let roomy : suc q.cur_index < q.block_size = ground (arith, sh.index_fits) in
      let added = add_block-Shaped al sh e roomy in
      subst (λ (r : TwoLevelQueue). Pushed q v r) (sym (insert_added q al v last e))
        (
          contents-push_current (add_block q al) v
              ∙ ap (λ (l : List ℕ). v ∷ l) (contents-add_block q al),
          push_current-Shaped v added (omega (arith, add_block_current q al)),
          push_current-block_size (add_block q al) v ∙ add_block-block_size q al,
        )
  | inr e ↦
      let less : (q.indr_array q.cur_index).cur1 < 1024 = ground (arith, sh.current_fits) in
      subst (λ (r : TwoLevelQueue). Pushed q v r) (sym (insert_current q al v e))
        (contents-push_current q v, push_current-Shaped v sh less, push_current-block_size q v)
]

insert_grown :
    (q : TwoLevelQueue) (al : ℕ → ℕ) (v : ℕ)
    → (q.cur_index == q.block_size - 1) ≡ true
    → (q.indr_array q.cur_index).cur1 ≡ 1024
    → insert q al v ≡ push_current (add_block (grow q) al) v
unfolding insert is_full
insert_grown q al v last full = rw (last, full) refl

contents-grow :
    (q : TwoLevelQueue) → q.cur_size ≢ 0 → contents (grow q) ≡ below q.indr_array q.cur_size
unfolding grow
contents-grow q h =
    let e : suc (q.cur_size - 1) ≡ q.cur_size = ground arith in
    ap (λ (n : ℕ). below q.indr_array n) e

-- Inserting into a queue whose array is full, with 16 * 1024 addresses for each of curSize, leaves
-- the new address on those of the first curSize blocks only: the others are lost.
insert_loses :
    {q : TwoLevelQueue} (al : ℕ → ℕ) (v : ℕ)
    → Shaped q
    → length (contents q) ≡ capacity q
    → (contents (insert q al v) ≡ v ∷ below q.indr_array q.cur_size)
      × (length (contents (insert q al v)) ≡ 1 + 1024 * q.cur_size)
      × (length (contents q) ≡ 16 * 1024 * q.cur_size)
insert_loses {q} al v sh full =
    let last : (q.indr_array q.cur_index).cur1 ≡ 1024 =
      omega (arith, length-contents sh, sh.current_fits, sh.index_fits) in
    let end : suc q.cur_index ≡ q.block_size =
      omega (arith, length-contents sh, sh.current_fits, sh.index_fits) in
    let stays : contents (insert q al v) ≡ v ∷ below q.indr_array q.cur_size =
      ap contents (insert_grown q al v (ground arith) last)
      ∙ contents-push_current (add_block (grow q) al) v
      ∙ ap (λ (l : List ℕ). v ∷ l)
          (contents-add_block (grow q) al ∙ contents-grow q (λ e. omega (arith, e, sh.size_lem))) in
    let few : length (below q.indr_array q.cur_size) ≡ 1024 * q.cur_size =
      length-below q.indr_array q.cur_size (λ i h. sh.before_full i (omega (arith, sh.size_lem))) in
    (stays, ap length stays ∙ omega (arith, few), omega (arith, full, sh.size_lem))
