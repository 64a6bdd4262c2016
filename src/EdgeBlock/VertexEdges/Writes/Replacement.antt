-- ===== src/EdgeBlock/VertexEdges/Writes/Replacement.antt =====
-- Both handlers behind the lookup: every outcome of a write to an edge.
use avbgraph.EdgeBlock.VertexEdges.Search.{Place}
use avbgraph.EdgeBlock.VertexEdges.Writes.Guards.{
  PendingAt, register-Pending, register-CanGrow, register-conflicts, register-intra,
  register-merge_times, register-index, cleared,
}
use avbgraph.EdgeBlock.VertexEdges.Writes.Places.{
  Inside, in_arrays-Inside, same_place, register-items, register-Inside,
}
use avbgraph.EdgeBlock.VertexEdges.Writes.Outcomes.{Written, entry_of, replace-Written}
use avbgraph.EdgeBlock.VertexEdges.Writes.{
  ring_slot, item_at, register, get_intra_c, conflicts, replaced, replace, insert_at, delete_at,
}
use avbgraph.EdgeBlock.VertexEdges.{VertexEdges, Writer, Item}
use avbgraph.Prelude.{
  ℕ, ◌+◌, ◌%◌, ◌≡◌, refl, ap, ◌∙◌, ◌⊎◌, true, false, some, length, Bool-cases, inl, inr,
}
use avbgraph.Types.{is_delete, strip, mark_deleted, tmpvb_mask}
use avbgraph.Version.Temporary.Room.{CanGrow}
use avbgraph.Version.Temporary.{VersionEntry}

-- The halves of an edge behind a write of the epoch.
abbrev pub written_item : Item → ℕ → ℕ → ℕ → ℕ → Item
written_item item now epoch intra pred = (
  record { e = now; block = epoch % tmpvb_mask + tmpvb_mask; index = intra },
  record (item.1) { block = pred; index = 0 },
)

delete_at-rejects :
    (s : VertexEdges) (place : Place) (edge property epoch : ℕ) (txn : Writer)
    → Inside s place
    → conflicts (register s epoch txn).1 (replaced (item_at s place) false).0 epoch ≡ true
    → delete_at s place edge property epoch txn
      ≡ some (false, (register s epoch txn).0, (register s epoch txn).1)
unfolding delete_at
delete_at-rejects s place edge property epoch txn inside h =
    rw (in_arrays-Inside s place inside, h) refl

delete_at-replaces :
    (s : VertexEdges) (place : Place) (edge property epoch : ℕ) (txn : Writer)
    → Inside s place
    → conflicts (register s epoch txn).1 (replaced (item_at s place) false).0 epoch ≡ false
    → delete_at s place edge property epoch txn
      ≡ replace
          (register s epoch txn).0
          place
          (item_at s place)
          (mark_deleted edge)
          (mark_deleted (item_at s place).0.e)
          property
          (replaced (item_at s place) false)
          epoch
          (λ tvb_idx. record ((item_at s place).1) { block = 0; index = 0 })
          (register s epoch txn).1
unfolding delete_at
delete_at-replaces s place edge property epoch txn inside h =
    rw (in_arrays-Inside s place inside, h) refl

pub insert_at-rejects :
    (s : VertexEdges) (place : Place) (edge property epoch : ℕ) (txn : Writer)
    → Inside s place
    → (let item = item_at s place in
        let r = register (cleared s place) epoch txn in
        conflicts r.1 (replaced item (is_delete item.0.e)).0 epoch ≡ true
        → insert_at s place edge property epoch txn ≡ some (false, r.0, r.1))
unfolding insert_at
insert_at-rejects s place edge property epoch txn inside h =
    rw (in_arrays-Inside s place inside, h) refl

pub insert_at-replaces :
    (s : VertexEdges) (place : Place) (edge property epoch : ℕ) (txn : Writer)
    → Inside s place
    → (let item = item_at s place in
        let r = register (cleared s place) epoch txn in
        conflicts r.1 (replaced item (is_delete item.0.e)).0 epoch ≡ false
        → insert_at s place edge property epoch txn
          ≡ replace r.0 place item edge
              (strip item.0.e)
              property
              (replaced item (is_delete item.0.e))
              epoch
              (λ tvb_idx. record (item.1) { block = tvb_idx; index = 0 })
              r.1)
unfolding insert_at
insert_at-replaces s place edge property epoch txn inside h =
    rw (in_arrays-Inside s place inside, h) refl

-- The same write, seen from an earlier state with the same other edges.
pub Written-rebase :
    (s s' r : VertexEdges) (place : Place) (x x' : Item) (epoch idx : ℕ)
    (entry entry' : VersionEntry)
    → ((q : Place) → same_place place q ≡ false → item_at s' q ≡ item_at s q)
    → (s'.destinations ≡ s.destinations) × (s'.tmp_ev ≡ s.tmp_ev)
    → x ≡ x'
    → entry ≡ entry'
    → Written s' r place x epoch idx entry
    → Written s r place x' epoch idx entry'
Written-rebase s s' r place x x' epoch idx entry entry' same (ei, eu) ex ee w = record {
  stored = w.stored ∙ ex;
  others = λ q off. w.others q off ∙ same q off;
  recorded = w.recorded ∙ ap some ee;
  index = w.index ∙ ei;
  used = w.used ∙ eu;
}

pub entry_of-register :
    (s : VertexEdges) (epoch : ℕ) (txn : Writer) (place : Place) (recorded property : ℕ)
    (old : ℕ × ℕ × ℕ)
    → entry_of
        (register s epoch txn).0
        place
        recorded
        property
        old
        (get_intra_c (register s epoch txn).1).0
      ≡ entry_of s place recorded property old (get_intra_c txn).0
entry_of-register s epoch txn place recorded property old =
    ap
      (λ (m : ℕ).
        entry_of (record s { merge_times = m }) place recorded property old
          (get_intra_c (register s epoch txn).1).0)
      (register-merge_times s epoch txn)
    ∙ ap (entry_of s place recorded property old) (register-intra s epoch txn)

-- A deletion at a place of the arrays, where the pending version of the edge is kept in the
-- temporary block of its epoch, which can grow, always ends in one of two ways. If a later version
-- stands in the way, it is refused: no edge changes, and all that has happened is the registration
-- of the temporary block of the epoch, which clears a block of another epoch. If not, the edge is
-- marked as deleted and pending with the time of the transaction, no other edge changes, and the
-- temporary block of the epoch holds the deleted version with its epoch, its predecessor and its
-- time.
pub delete_at-outcome :
    (s : VertexEdges) (place : Place) (edge property epoch : ℕ) (txn : Writer)
    → Inside s place
    → CanGrow (s.tmp_vb (ring_slot epoch))
    → PendingAt s (item_at s place) (replaced (item_at s place) false) epoch
    → (r : VertexEdges) × (t : Writer) × (((conflicts txn (replaced (item_at s place) false).0 epoch
            ≡ true)
          × (delete_at s place edge property epoch txn ≡ some (false, r, t))
          × ((r, t) ≡ register s epoch txn)
          × ((q : Place) → item_at r q ≡ item_at s q))
        ⊎ ((conflicts txn (replaced (item_at s place) false).0 epoch ≡ false)
            × (delete_at s place edge property epoch txn ≡ some (true, r, t))
            × (idx : ℕ) × Written s r place
                (written_item
                  (item_at s place)
                  (mark_deleted (item_at s place).0.e)
                  epoch
                  (get_intra_c txn).0
                  0)
                epoch
                idx
                (entry_of s place
                  (mark_deleted edge)
                  property
                  (replaced (item_at s place) false)
                  (get_intra_c txn).0)))
delete_at-outcome s place edge property epoch txn inside can pending =
    let item = item_at s place in
    let old = replaced item false in
    let s' = (register s epoch txn).0 in
    let txn' = (register s epoch txn).1 in
    let same = register-conflicts s epoch txn old.0 in
    elim (Bool-cases (conflicts txn old.0 epoch)) [
      | inl late ↦ (
        s',
        txn',
        inl (
          late,
          delete_at-rejects s place edge property epoch txn inside (same ∙ late),
          refl,
          register-items s epoch txn,
        ),
      )
      | inr free ↦
          let (r, t, run, w) =
            replace-Written s' place item (mark_deleted edge) (mark_deleted item.0.e) property old
              epoch (λ idx. record (item.1) { block = 0; index = 0 }) txn'
              (register-Inside s epoch txn place inside) (register-CanGrow s epoch txn can)
              (register-Pending s epoch txn item old pending) in
          (
            r,
            t,
            inr (
              free,
              delete_at-replaces s place edge property epoch txn inside (same ∙ free) ∙ run,
              length (s'.tmp_vb (ring_slot epoch)).tmp_entry,
              Written-rebase s s' r place _ _ epoch _ _ _ (λ q off. register-items s epoch txn q)
                  (register-index s epoch txn)
                  (ap (λ (i : ℕ). written_item item (mark_deleted item.0.e) epoch i 0)
                    (register-intra s epoch txn))
                  (entry_of-register s epoch txn place (mark_deleted edge) property old) w,
            ),
          )
    ]
