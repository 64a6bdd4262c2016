-- ===== src/EdgeBlock/VertexEdges/Writes/Insertion.antt =====
-- insert_edge_block behind the lookup: every outcome of an insertion at a known edge.
use avbgraph.EdgeBlock.VertexEdges.Search.{Place, in_start, in_tmp}
use avbgraph.EdgeBlock.VertexEdges.Writes.Guards.{
  PendingAt, register-Pending, register-CanGrow, register-conflicts, register-intra, register-index,
  conflict-not_deleted, strip-live, cleared, cleared-Inside,
}
use avbgraph.EdgeBlock.VertexEdges.Writes.Places.{
  Inside, same_place, item_at-write_item, register-items, register-Inside,
}
use avbgraph.EdgeBlock.VertexEdges.Writes.Outcomes.{
  Written, entry_of, replace-Written, write_item-tmp_vb, write_item-index, write_item-used,
}
use avbgraph.EdgeBlock.VertexEdges.Writes.{
  ring_slot, item_at, register, get_intra_c, conflicts, replaced, insert_at,
}
use avbgraph.EdgeBlock.VertexEdges.{VertexEdges, Writer, Item}
use avbgraph.Prelude.{
  ℕ, ◌^◌, ◌<◌, ◌≡◌, refl, sym, ap, subst, ◌∙◌, ◌⊎◌, true, false, some, length, Bool-cases, inl, inr,
  ==_iff,
}
use avbgraph.Types.{is_delete, strip}
use avbgraph.Version.Temporary.Room.{CanGrow}
use avbgraph.Version.Temporary.{TmpVersionBlock}
use avbgraph.EdgeBlock.VertexEdges.Writes.Replacement.{
  written_item, insert_at-rejects, insert_at-replaces, Written-rebase, entry_of-register,
}

same_place-path : (p q : Place) → same_place p q ≡ true → p ≡ q
same_place-path (in_start i) (in_start j) h = ap in_start ((==_iff i j).0 h)
same_place-path (in_start i) (in_tmp j) h = absurd (cc)
same_place-path (in_tmp i) (in_start j) h = absurd (cc)
same_place-path (in_tmp i) (in_tmp j) h = ap in_tmp ((==_iff i j).0 h)

cleared-merge_times : (s : VertexEdges) (p : Place) → (cleared s p).merge_times ≡ s.merge_times
cleared-merge_times s (in_start i) = refl
cleared-merge_times s (in_tmp i) = refl

cleared-index :
    (s : VertexEdges) (p : Place) (epoch : ℕ) (txn : Writer)
    → ((register (cleared s p) epoch txn).0.destinations ≡ s.destinations)
      × ((register (cleared s p) epoch txn).0.tmp_ev ≡ s.tmp_ev)
cleared-index s p epoch txn =
    let (a, b) = register-index (cleared s p) epoch txn in
    (a ∙ write_item-index s p _, b ∙ write_item-used s p _)

cleared-others :
    (s : VertexEdges) (p q : Place)
    → Inside s p
    → same_place p q ≡ false
    → item_at (cleared s p) q ≡ item_at s q
cleared-others s p q h off = rw off at (
    item_at-write_item s p q
      (record ((item_at s p).0) { e = strip (item_at s p).0.e }, (item_at s p).1) h)

-- Clearing the flag of an edge that is not deleted changes nothing.
cleared-live :
    (s : VertexEdges) (p q : Place)
    → Inside s p
    → strip (item_at s p).0.e ≡ (item_at s p).0.e
    → item_at (cleared s p) q ≡ item_at s q
cleared-live s p q h live = elim (Bool-cases (same_place p q)) [
  | inl same ↦
      let item = item_at s p in
      (rw same at (item_at-write_item s p q (record (item.0) { e = strip item.0.e }, item.1) h))
      ∙ ap (λ (e : ℕ). (record (item.0) { e = e }, item.1)) live
      ∙ ap (item_at s) (same_place-path p q same)
  | inr other ↦ cleared-others s p q h other
]

cleared-PendingAt :
    (s : VertexEdges) (p : Place) (item : Item) (old : ℕ × ℕ × ℕ) (epoch : ℕ)
    → PendingAt s item old epoch
    → PendingAt (cleared s p) item old epoch
cleared-PendingAt s p item old epoch h =
    subst (λ (f : ℕ → TmpVersionBlock). PendingAt (record s { tmp_vb = f }) item old epoch)
      (sym (write_item-tmp_vb s p _)) h

-- An insertion at a place of the arrays, where the destination is a 64-bit word and the pending
-- version of the edge is kept in the temporary block of its epoch, which can grow, always ends in
-- one of two ways. If a later version stands in the way, it is refused: no edge changes, and all
-- that has happened is the registration of the temporary block of the epoch, which clears a block
-- of another epoch. If not, the edge is pending and not deleted, with the time of the transaction
-- and the index of the version that it replaces, no other edge changes, and under that index the
-- temporary block of the epoch holds the replaced version: epoch 0 for a deleted edge, and else its
-- epoch, its predecessor and its time.
pub insert_at-outcome :
    (s : VertexEdges) (place : Place) (edge property epoch : ℕ) (txn : Writer)
    → Inside s place
    → CanGrow (s.tmp_vb (ring_slot epoch))
    → (item_at s place).0.e < 2 ^ 64
    → PendingAt s
        (item_at s place)
        (replaced (item_at s place) (is_delete (item_at s place).0.e))
        epoch
    → (r : VertexEdges) × (t : Writer) × (((conflicts txn
              (replaced (item_at s place) (is_delete (item_at s place).0.e)).0
              epoch
            ≡ true)
          × (insert_at s place edge property epoch txn ≡ some (false, r, t))
          × ((r, t) ≡ register (cleared s place) epoch txn)
          × ((q : Place) → item_at r q ≡ item_at s q))
        ⊎ ((conflicts txn (replaced (item_at s place) (is_delete (item_at s place).0.e)).0 epoch
              ≡ false)
            × (insert_at s place edge property epoch txn ≡ some (true, r, t))
            × (idx : ℕ) × Written s r place
                (written_item
                  (item_at s place)
                  (strip (item_at s place).0.e)
                  epoch
                  (get_intra_c txn).0
                  idx)
                epoch
                idx
                (entry_of s place edge property
                  (replaced (item_at s place) (is_delete (item_at s place).0.e))
                  (get_intra_c txn).0)))
insert_at-outcome s place edge property epoch txn inside can small pending =
    let item = item_at s place in
    let old = replaced item (is_delete item.0.e) in
    let c = cleared s place in
    let s' = (register c epoch txn).0 in
    let txn' = (register c epoch txn).1 in
    let idx = length (s'.tmp_vb (ring_slot epoch)).tmp_entry in
    let same = register-conflicts c epoch txn old.0 in
    elim (Bool-cases (conflicts txn old.0 epoch)) [
      | inl late ↦
          let live = strip-live item.0.e small (conflict-not_deleted txn item epoch late) in
          (
            s',
            txn',
            inl (
              late,
              insert_at-rejects s place edge property epoch txn inside (same ∙ late),
              refl,
              λ q. register-items c epoch txn q ∙ cleared-live s place q inside live,
            ),
          )
      | inr free ↦
          let (r, t, run, w) =
            replace-Written s' place item edge (strip item.0.e) property old epoch
              (λ (i : ℕ). record (item.1) { block = i; index = 0 }) txn'
              (register-Inside c epoch txn place (cleared-Inside s place inside))
              (register-CanGrow c epoch txn (
                subst (λ (f : ℕ → TmpVersionBlock). CanGrow (f (ring_slot epoch)))
                  (sym (write_item-tmp_vb s place _)) can))
              (register-Pending c epoch txn item old
                (cleared-PendingAt s place item old epoch pending)) in
          (
            r,
            t,
            inr (
              free,
              insert_at-replaces s place edge property epoch txn inside (same ∙ free) ∙ run,
              idx,
              Written-rebase s s' r place _ _ epoch idx _ _
                  (λ q off. register-items c epoch txn q ∙ cleared-others s place q inside off)
                  (cleared-index s place epoch txn)
                  (ap (λ (i : ℕ). written_item item (strip item.0.e) epoch i idx)
                    (register-intra c epoch txn))
                  (entry_of-register c epoch txn place edge property old
                    ∙ ap
                        (λ (m : ℕ).
                          entry_of (record s { merge_times = m }) place edge property old
                            (get_intra_c txn).0)
                        (cleared-merge_times s place))
                  w,
            ),
          )
    ]
