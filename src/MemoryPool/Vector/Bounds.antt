-- ===== src/MemoryPool/Vector/Bounds.antt =====
-- The indices of a TwoLevelVector stay inside its arrays, and a region that is inserted becomes the
-- current one.
use avbgraph.Prelude.{
  update_here, ℕ, suc, ◌-◌, ◌≤◌, ◌<◌, ◌≡◌, refl, ap, subst, sym, ◌∙◌, inl, inr, true, false,
  Bool-cases, ◌==◌, arith, update,
}
use avbgraph.MemoryPool.Global.{GlobalAllocator, allocate}
use avbgraph.MemoryPool.Vector.{
  FixedSizeVector, TwoLevelVector, init_vector, set_block_arr, vector_is_full, new_vector,
  add_vector, grow_vector, set_current, insert_global, current, allocate_current,
}

-- The current block has a region and the indices are inside the arrays.
abbrev pub InRange : TwoLevelVector → Type 0
InRange v =
    ((v.indr_array v.cur_index).cur1 ≤ 16)
    × (v.cur_index < v.block_size)
    × (v.block_size ≡ v.cur_size)

abbrev pub Nonempty : TwoLevelVector → Type 0
Nonempty v = 0 < (v.indr_array v.cur_index).cur1

abbrev last_region : FixedSizeVector → GlobalAllocator
last_region b = b.block_arr (b.cur1 - 1)

-- The vector `r` is in range, its current region is `ga`.
abbrev pub Current : GlobalAllocator → TwoLevelVector → Type 0
Current ga r = (current r ≡ ga) × InRange r × Nonempty r

set_current-Current :
    (v : TwoLevelVector) (ga : GlobalAllocator)
    → InRange v
    → (v.indr_array v.cur_index).cur1 < 16
    → Current ga (set_current v ga)
unfolding set_current set_block_arr current
set_current-Current v ga (fits, range, size) room =
    let here = update_here v.indr_array v.cur_index (set_block_arr (v.indr_array v.cur_index) ga) in
    let b = v.indr_array v.cur_index in
    let e : suc b.cur1 - 1 ≡ b.cur1 = omega arith in
    (
      ap last_region here
          ∙ ap (λ (i : ℕ). update b.block_arr b.cur1 ga i) e
          ∙ update_here b.block_arr b.cur1 ga,
      (rw here (omega arith), range, size),
      rw here (omega arith),
    )

add_vector-InRange :
    (v : TwoLevelVector) (al : ℕ → GlobalAllocator)
    → suc v.cur_index < v.block_size
    → v.block_size ≡ v.cur_size
    → InRange (add_vector v al)
      × (((add_vector v al).indr_array (add_vector v al).cur_index).cur1 < 16)
unfolding add_vector init_vector
add_vector-InRange v al room size =
    let here = update_here v.indr_array (suc v.cur_index) (init_vector al) in
    ((rw here (omega arith), room, size), rw here (omega arith))

grown_room :
    (v : TwoLevelVector)
    → InRange v
    → v.cur_index ≡ v.block_size - 1
    → (suc (grow_vector v).cur_index < (grow_vector v).block_size)
      × ((grow_vector v).block_size ≡ (grow_vector v).cur_size)
unfolding grow_vector
grown_room v (fits, range, size) last = (omega arith, omega arith)

insert_grown :
    (v : TwoLevelVector) (al : ℕ → GlobalAllocator) (ga : GlobalAllocator)
    → (v.cur_index == v.block_size - 1) ≡ true
    → ((v.indr_array v.cur_index).cur1 == 16) ≡ true
    → insert_global v al ga ≡ set_current (add_vector (grow_vector v) al) ga
unfolding insert_global vector_is_full
insert_grown v al ga last full = rw (last, full) refl

insert_added :
    (v : TwoLevelVector) (al : ℕ → GlobalAllocator) (ga : GlobalAllocator)
    → (v.cur_index == v.block_size - 1) ≡ false
    → ((v.indr_array v.cur_index).cur1 == 16) ≡ true
    → insert_global v al ga ≡ set_current (add_vector v al) ga
unfolding insert_global vector_is_full
insert_added v al ga last full = rw (last, full) refl

insert_current :
    (v : TwoLevelVector) (al : ℕ → GlobalAllocator) (ga : GlobalAllocator)
    → ((v.indr_array v.cur_index).cur1 == 16) ≡ false
    → insert_global v al ga ≡ set_current v ga
unfolding insert_global vector_is_full
insert_current v al ga e = elim (Bool-cases (v.cur_index == v.block_size - 1)) [
  | inl last ↦ rw (last, e) refl
  | inr last ↦ rw (last, e) refl
]

pub insert_global-Current :
    (v : TwoLevelVector) (al : ℕ → GlobalAllocator) (ga : GlobalAllocator)
    → InRange v
    → Current ga (insert_global v al ga)
insert_global-Current v al ga (fits, range, size) =
    elim (Bool-cases ((v.indr_array v.cur_index).cur1 == 16)) [
      | inl full ↦ elim (Bool-cases (v.cur_index == v.block_size - 1)) [
        | inl last ↦
            let (room, same) = grown_room v (fits, range, size) (ground arith) in
            let (added, less) = add_vector-InRange (grow_vector v) al room same in
            subst (λ (r : TwoLevelVector). Current ga r) (sym (insert_grown v al ga last full))
              (set_current-Current (add_vector (grow_vector v) al) ga added less)
        | inr last ↦
            let (added, less) = add_vector-InRange v al (ground arith) size in
            subst (λ (r : TwoLevelVector). Current ga r) (sym (insert_added v al ga last full))
              (set_current-Current (add_vector v al) ga added less)
      ]
      | inr e ↦
          subst (λ (r : TwoLevelVector). Current ga r) (sym (insert_current v al ga e))
            (set_current-Current v ga (fits, range, size) (ground arith))
    ]

-- A request that is served from the current region moves that region's offset and nothing else.
pub allocate_current-Current :
    (v : TwoLevelVector) (requested : ℕ)
    → InRange v
    → Nonempty v
    → ((allocate_current v requested).0 ≡ (allocate (current v) requested).0)
      × Current (allocate (current v) requested).1 (allocate_current v requested).1
unfolding allocate_current current
allocate_current-Current v requested (fits, range, size) some_region =
    let b = v.indr_array v.cur_index in
    let ga = (allocate (last_region b) requested).1 in
    let b2 : FixedSizeVector = record b { block_arr = update b.block_arr (b.cur1 - 1) ga } in
    let here : update v.indr_array v.cur_index b2 v.cur_index ≡ b2 =
      update_here v.indr_array v.cur_index b2 in
    let same : (update v.indr_array v.cur_index b2 v.cur_index).cur1 ≡ b.cur1 =
      ap (λ (c : FixedSizeVector). c.cur1) here in
    (
      refl,
      (
        ap last_region here ∙ update_here b.block_arr (b.cur1 - 1) ga,
        (omega (arith, same), range, size),
        omega (arith, same),
      ),
    )

pub new_vector-InRange :
    (indirect : ℕ → FixedSizeVector) (al : ℕ → GlobalAllocator) → InRange (new_vector indirect al)
unfolding new_vector init_vector
new_vector-InRange indirect al = (omega arith, omega arith, refl)
