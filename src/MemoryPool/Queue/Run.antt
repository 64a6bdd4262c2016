-- ===== src/MemoryPool/Queue/Run.antt =====
-- A TwoLevelQueue refines a stack: what a sequence of frees and allocations answers.
use avbgraph.Prelude.{
  ℕ, suc, ◌+◌, ◌≤◌, ◌≡◌, refl, ap, subst, sym, ◌∙◌, inl, inr, List, [], ◌∷◌, Option, none, some,
  Bool-cases, if◌then◌else◌, arith, length, true, false,
}
use avbgraph.MemoryPool.Queue.{
  FixedSizeBlock, init_block, TwoLevelQueue, insert, get_block, empty, new_queue,
}
use avbgraph.MemoryPool.Queue.Stack.{contents, Shaped, capacity}
use avbgraph.MemoryPool.Queue.Insert.{insert-contents}
use avbgraph.MemoryPool.Queue.Take.{get_block-Popped, empty-contents}

-- What the allocator asks of its queue: to keep an address that was freed, on an array that
-- Allocate returned if a block has to be added, or to hand one out.
pub data Op : Type 0 where
  keep : (ℕ → ℕ) → ℕ → Op
  hand_out : Op

-- Allocate asks the queue whether it is empty before it takes an address.
abbrev pub take_block : TwoLevelQueue → Option ℕ × TwoLevelQueue
take_block q = if empty q then (none, q) else (some (get_block q).0, (get_block q).1)

abbrev pub run : List Op → TwoLevelQueue → List (Option ℕ)
run [] q = []
run (keep al v ∷ ops) q = run ops (insert q al v)
run (hand_out ∷ ops) q = (take_block q).0 ∷ run ops (take_block q).1

-- The stack.
abbrev pub take_top : List ℕ → Option ℕ × List ℕ
take_top [] = (none, [])
take_top (x ∷ xs) = (some x, xs)

abbrev pub run_stack : List Op → List ℕ → List (Option ℕ)
run_stack [] s = []
run_stack (keep al v ∷ ops) s = run_stack ops (v ∷ s)
run_stack (hand_out ∷ ops) s = (take_top s).0 ∷ run_stack ops (take_top s).1

-- How many addresses the operations keep.
abbrev pub kept : List Op → ℕ
kept [] = 0
kept (keep al v ∷ ops) = suc (kept ops)
kept (hand_out ∷ ops) = kept ops

-- The answer `r` of a queue with as many blocks is that of the stack `s`, and what is left too.
abbrev Answered : ℕ → List ℕ → Option ℕ × TwoLevelQueue → Type 0
Answered size s r =
    (r.0 ≡ (take_top s).0) × (contents r.1 ≡ (take_top s).1) × Shaped r.1 × (r.1.block_size ≡ size)

take_empty : (q : TwoLevelQueue) → empty q ≡ true → take_block q ≡ (none, q)
take_empty q e = rw e refl

take_some :
    (q : TwoLevelQueue) → empty q ≡ false → take_block q ≡ (some (get_block q).0, (get_block q).1)
take_some q e = rw e refl

take_block-Answered :
    (q : TwoLevelQueue) → Shaped q → Answered q.block_size (contents q) (take_block q)
take_block-Answered q sh = elim (Bool-cases (empty q)) [
  | inl e ↦
      let nil = (empty-contents q sh).0 e in
      subst (λ (r : Option ℕ × TwoLevelQueue). Answered q.block_size (contents q) r)
        (sym (take_empty q e))
        (
          ap (λ (l : List ℕ). (take_top l).0) (sym nil),
          nil ∙ ap (λ (l : List ℕ). (take_top l).1) (sym nil),
          sh,
          refl,
        )
  | inr e ↦
      let (top, shaped, size) = get_block-Popped q sh e in
      subst (λ (r : Option ℕ × TwoLevelQueue). Answered q.block_size (contents q) r)
        (sym (take_some q e))
        (
          ap (λ (l : List ℕ). (take_top l).0) (sym top),
          ap (λ (l : List ℕ). (take_top l).1) (sym top),
          shaped,
          size,
        )
]

length-take_top : (s : List ℕ) → length (take_top s).1 ≤ length s
length-take_top [] = omega arith
length-take_top (x ∷ xs) = omega arith

-- Any sequence of frees and allocations gets from a queue the addresses that it gets from a stack
-- of what the queue holds, if that and what is kept fit into the array of blocks.
pub run-run_stack :
    (ops : List Op) (q : TwoLevelQueue)
    → Shaped q
    → length (contents q) + kept ops ≤ capacity q
    → run ops q ≡ run_stack ops (contents q)
run-run_stack [] q sh fits = refl
run-run_stack (keep al v ∷ ops) q sh fits =
    let (top, shaped, size) = insert-contents al v sh (omega (arith, fits)) in
    run-run_stack ops (insert q al v) shaped (omega (arith, fits, ap length top, size))
    ∙ ap (λ (s : List ℕ). run_stack ops s) top
run-run_stack (hand_out ∷ ops) q sh fits =
    let (answer, left, shaped, size) = take_block-Answered q sh in
    let rest =
      run-run_stack ops (take_block q).1 shaped
        (omega (arith, fits, ap length left, size, length-take_top (contents q))) in
    ap (λ (a : Option ℕ). a ∷ run ops (take_block q).1) answer
    ∙ ap (λ (l : List (Option ℕ)). (take_top (contents q)).0 ∷ l)
        (rest ∙ ap (λ (s : List ℕ). run_stack ops s) left)

pub new_queue-Shaped : (indirect : ℕ → FixedSizeBlock) (al : ℕ → ℕ) → Shaped (new_queue indirect al)
unfolding new_queue init_block
new_queue-Shaped indirect al = record {
  before_full = λ i h. absurd (omega (arith, h));
  current_fits = omega arith;
  index_fits = omega arith;
  size_lem = refl;
}

new_queue-contents :
    (indirect : ℕ → FixedSizeBlock) (al : ℕ → ℕ)
    → (contents (new_queue indirect al) ≡ []) × (capacity (new_queue indirect al) ≡ 16384)
unfolding new_queue init_block
new_queue-contents indirect al = (refl, refl)
