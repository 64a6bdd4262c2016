-- ===== src/EdgeBlock/VertexEdges/Writes/Guards.antt =====
-- Both handlers: a write either meets the guard and changes no edge, or replaces one version.
use avbgraph.EdgeBlock.VertexEdges.Search.{Place}
use avbgraph.EdgeBlock.VertexEdges.Writes.Places.{Inside, write_item-Inside}
use avbgraph.EdgeBlock.VertexEdges.Writes.Outcomes.{Pending}
use avbgraph.EdgeBlock.VertexEdges.Writes.{
  ring_slot, item_at, write_item, register, get_intra_c, conflicts, replaced,
}
use avbgraph.EdgeBlock.VertexEdges.{VertexEdges, Writer, Item}
use avbgraph.Prelude.{
  ℕ, ◌^◌, ◌<◌, ◌≡◌, refl, sym, ap, subst, ◌∙◌, ◌⊎◌, ◌≢◌, true, false, ◌==◌, length, arith,
  Bool-cases, inl, inr, ==_iff, ==_refl,
}
use avbgraph.Types.{is_delete, strip}
use avbgraph.Version.Item.{has_tmp_vb}
use avbgraph.Version.Temporary.Room.{CanGrow}
use avbgraph.Version.Temporary.{TmpVersionBlock}

-- The pending version of an edge stands in the temporary block that carries its epoch, and two
-- epochs with pending versions have different slots.
abbrev pub PendingAt : VertexEdges → Item → ℕ × ℕ × ℕ → ℕ → Type 0
PendingAt s item (last_epoch, last_index, old_intra) epoch =
    has_tmp_vb item.0 ≡ true
    → last_epoch ≢ 0
    → (last_index < length (s.tmp_vb (ring_slot last_epoch)).tmp_entry)
      × ((s.tmp_vb (ring_slot last_epoch)).timestamp ≡ last_epoch)
      × (ring_slot last_epoch ≡ ring_slot epoch → last_epoch ≡ epoch)

register-entries :
    (s : VertexEdges) (epoch : ℕ) (txn : Writer) (k : ℕ)
    → ((s.tmp_vb k).timestamp ≡ epoch) ⊎ (ring_slot epoch ≢ k)
    → (register s epoch txn).0.tmp_vb k ≡ s.tmp_vb k
unfolding register
register-entries s epoch txn k here =
    let slot = ring_slot epoch in
    elim (Bool-cases ((s.tmp_vb slot).timestamp == epoch)) [
      | inl known ↦ rw known refl
      | inr fresh ↦ elim (Bool-cases (slot == k)) [
        | inl same ↦
            let one = (==_iff slot k).0 same in
            elim here [
              | inl now ↦
                  let back : (s.tmp_vb slot).timestamp ≡ epoch =
                    ap (λ (u : ℕ). (s.tmp_vb u).timestamp) one ∙ now in
                  absurd (ground arith)
              | inr off ↦ absurd (off one)
            ]
        | inr other ↦ rw (fresh, other) refl
      ]
    ]

pub register-Pending :
    (s : VertexEdges) (epoch : ℕ) (txn : Writer) (item : Item) (old : ℕ × ℕ × ℕ)
    → PendingAt s item old epoch
    → Pending (register s epoch txn).0 item old
register-Pending s epoch txn item (le, li, oi) p is_tmp late =
    let (h, stamp, ring) = p is_tmp late in
    let here : ((s.tmp_vb (ring_slot le)).timestamp ≡ epoch) ⊎ (ring_slot epoch ≢ ring_slot le) =
      elim (Bool-cases (ring_slot epoch == ring_slot le)) [
        | inl same ↦ inl (stamp ∙ ring (sym ((==_iff (ring_slot epoch) (ring_slot le)).0 same)))
        | inr other ↦ inr (λ e. absurd (ground arith))
      ] in
    subst (λ (vb : TmpVersionBlock). li < length vb.tmp_entry)
      (sym (register-entries s epoch txn (ring_slot le) here)) h

-- The temporary block of the epoch can still take a version.
pub register-CanGrow :
    (s : VertexEdges) (epoch : ℕ) (txn : Writer)
    → CanGrow (s.tmp_vb (ring_slot epoch))
    → CanGrow ((register s epoch txn).0.tmp_vb (ring_slot epoch))
unfolding register
register-CanGrow s epoch txn can =
    let slot = ring_slot epoch in
    elim (Bool-cases ((s.tmp_vb slot).timestamp == epoch)) [
      | inl known ↦ rw known can
      | inr fresh ↦ rw (fresh, ==_refl slot) (record { room = omega arith; small = can.small })
    ]

pub register-conflicts :
    (s : VertexEdges) (epoch : ℕ) (txn : Writer) (e : ℕ)
    → conflicts (register s epoch txn).1 e epoch ≡ conflicts txn e epoch
unfolding register conflicts
register-conflicts s epoch txn e = ground arith

pub register-intra :
    (s : VertexEdges) (epoch : ℕ) (txn : Writer)
    → (get_intra_c (register s epoch txn).1).0 ≡ (get_intra_c txn).0
unfolding register get_intra_c
register-intra s epoch txn = ground arith

pub register-merge_times :
    (s : VertexEdges) (epoch : ℕ) (txn : Writer)
    → (register s epoch txn).0.merge_times ≡ s.merge_times
unfolding register
register-merge_times s epoch txn = ground arith

pub register-index :
    (s : VertexEdges) (epoch : ℕ) (txn : Writer)
    → ((register s epoch txn).0.destinations ≡ s.destinations)
      × ((register s epoch txn).0.tmp_ev ≡ s.tmp_ev)
unfolding register
register-index s epoch txn = elim (Bool-cases ((s.tmp_vb (ring_slot epoch)).timestamp == epoch)) [
  | inl known ↦ rw known (refl, refl)
  | inr fresh ↦ rw fresh (refl, refl)
]

-- A conflict is with a version, so that the edge is not deleted.
pub conflict-not_deleted :
    (txn : Writer) (item : Item) (epoch : ℕ)
    → conflicts txn (replaced item (is_delete item.0.e)).0 epoch ≡ true
    → is_delete item.0.e ≡ false
unfolding conflicts replaced
conflict-not_deleted txn item epoch h = ground arith

pub strip-live : (e : ℕ) → e < 2 ^ 64 → is_delete e ≡ false → strip e ≡ e
unfolding strip is_delete
strip-live e small live = ground arith

-- The state of an insertion before its guard.
abbrev pub cleared : VertexEdges → Place → VertexEdges
cleared s place =
    let item = item_at s place in
    write_item s place (record (item.0) { e = strip item.0.e }, item.1)

pub cleared-Inside : (s : VertexEdges) (p : Place) → Inside s p → Inside (cleared s p) p
cleared-Inside s p h = write_item-Inside s p p _ h
