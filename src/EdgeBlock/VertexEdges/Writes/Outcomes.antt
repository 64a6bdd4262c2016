-- ===== src/EdgeBlock/VertexEdges/Writes/Outcomes.antt =====
-- What a write leaves behind.
use avbgraph.EdgeBlock.VertexEdges.Writes.Places.{
  Inside, same_place, item_at-write_item, change_next_index-elsewhere,
}
use avbgraph.EdgeBlock.VertexEdges.Search.{Place, in_start, in_tmp}
use avbgraph.EdgeBlock.VertexEdges.Writes.{
  ring_slot, offset_of, item_at, write_item, get_intra_c, link_next, replace,
}
use avbgraph.EdgeBlock.VertexEdges.{VertexEdges, Writer, Item, blank}
use avbgraph.Prelude.{
  update, ℕ, ◌+◌, ◌*◌, ◌%◌, ◌^◌, ◌<◌, ◌≡◌, refl, sym, ap, subst, ◌∙◌, ◌≢◌, Bool, true, false, not,
  ◌&&◌, List, [], ◌∷◌, some, ◌==◌, length, get_or, get_elem?, arith, Bool-cases, inl, inr, ==_iff,
  ==_refl, length-append,
}
use avbgraph.Types.{tmpvb_mask}
use avbgraph.Version.Item.{EdgeWithIndex, has_tmp_vb}
use avbgraph.Version.Temporary.Room.{get_elem?-append, CanGrow, appended, insert_version-appends}
use avbgraph.Version.Temporary.{VersionEntry, TmpVersionBlock}

-- What a link to the next version leaves alone.
record Linked (w l : VertexEdges) (slot idx : ℕ) : Type 0 where
  starts : l.start ≡ w.start
  buffer : l.tmp_item ≡ w.tmp_item
  entries : get_elem? (l.tmp_vb slot).tmp_entry idx ≡ get_elem? (w.tmp_vb slot).tmp_entry idx
  index : l.destinations ≡ w.destinations
  used : l.tmp_ev ≡ w.tmp_ev

link_next-Linked :
    (w : VertexEdges) (is_tmp : Bool) (last_epoch last_index epoch slot idx : ℕ)
    → (is_tmp ≡ true
        → last_epoch ≢ 0
        → (last_index < length (w.tmp_vb (ring_slot last_epoch)).tmp_entry)
          × (ring_slot last_epoch ≡ slot → last_index ≢ idx))
    → (l : VertexEdges) × (link_next w is_tmp last_epoch last_index epoch idx ≡ some l)
      × Linked w l slot idx
unfolding link_next
link_next-Linked w is_tmp last_epoch last_index epoch slot idx pending =
    elim (Bool-cases (is_tmp && not (last_epoch == 0))) [
      | inl link ↦
          let (h, off) = pending (ground arith) (ground arith) in
          let k = ring_slot last_epoch in
          let (vb, run, kept) =
            change_next_index-elsewhere (w.tmp_vb k) last_index idx epoch idx h in
          (
            record w { tmp_vb = update w.tmp_vb k vb },
            rw (link, run),
            record {
              starts = refl;
              buffer = refl;
              entries = elim (Bool-cases (k == slot)) [
                | inl same ↦
                    let one = (==_iff k slot).0 same in
                    rw same
                      (kept (off one) ∙ ap (λ (u : ℕ). get_elem? (w.tmp_vb u).tmp_entry idx) one)
                | inr other ↦ rw other refl
              ];
              index = refl;
              used = refl;
            },
          )
      | inr alone ↦ (
        w,
        rw alone,
        record { starts = refl; buffer = refl; entries = refl; index = refl; used = refl },
      )
    ]

-- The version that a write records.
abbrev pub entry_of : VertexEdges → Place → ℕ → ℕ → ℕ × ℕ × ℕ → ℕ → VersionEntry
entry_of s place recorded property (last_epoch, last_index, old_intra) intra = record {
  offset = offset_of place;
  merge_times = s.merge_times;
  last_epoch = last_epoch;
  old_intra_c = old_intra;
  new_intra_c = intra;
  edge = recorded;
  weight = property;
  link = record { block = last_epoch; index = last_index; link = last_epoch * 2 ^ 32 + last_index };
}

-- What a write leaves: the new halves at the place, the other edges as they were, and the replaced
-- version under the index in the temporary block of the epoch.
pub record Written (s r : VertexEdges) (place : Place) (x : Item) (epoch idx : ℕ)
    (entry : VersionEntry) : Type 0 where
  pub stored : item_at r place ≡ x
  pub others : (q : Place) → same_place place q ≡ false → item_at r q ≡ item_at s q
  pub recorded : get_elem? (r.tmp_vb (ring_slot epoch)).tmp_entry idx ≡ some entry
  pub index : r.destinations ≡ s.destinations
  pub used : r.tmp_ev ≡ s.tmp_ev

same_place_refl : (p : Place) → same_place p p ≡ true
same_place_refl (in_start i) = ground arith
same_place_refl (in_tmp i) = ground arith

pub item_at-arrays :
    (w l : VertexEdges) (q : Place)
    → l.start ≡ w.start
    → l.tmp_item ≡ w.tmp_item
    → item_at l q ≡ item_at w q
item_at-arrays w l (in_start i) a b = ap (λ (xs : List Item). get_or xs i blank) a
item_at-arrays w l (in_tmp i) a b = ap (λ (xs : List Item). get_or xs i blank) b

Inside-arrays :
    (w l : VertexEdges) (q : Place)
    → l.start ≡ w.start
    → l.tmp_item ≡ w.tmp_item
    → Inside w q
    → Inside l q
Inside-arrays w l (in_start i) a b h = subst (λ (xs : List Item). i < length xs) (sym a) h
Inside-arrays w l (in_tmp i) a b h = subst (λ (xs : List Item). i < length xs) (sym b) h

pub write_item-tmp_vb :
    (s : VertexEdges) (p : Place) (x : Item) → (write_item s p x).tmp_vb ≡ s.tmp_vb
write_item-tmp_vb s (in_start i) x = refl
write_item-tmp_vb s (in_tmp i) x = refl

pub write_item-index :
    (s : VertexEdges) (p : Place) (x : Item) → (write_item s p x).destinations ≡ s.destinations
write_item-index s (in_start i) x = refl
write_item-index s (in_tmp i) x = refl

pub write_item-used :
    (s : VertexEdges) (p : Place) (x : Item) → (write_item s p x).tmp_ev ≡ s.tmp_ev
write_item-used s (in_start i) x = refl
write_item-used s (in_tmp i) x = refl

-- The pending version of an edge stands in the temporary block of its epoch.
abbrev pub Pending : VertexEdges → Item → ℕ × ℕ × ℕ → Type 0
Pending s item (last_epoch, last_index, old_intra) =
    has_tmp_vb item.0 ≡ true
    → last_epoch ≢ 0
    → last_index < length (s.tmp_vb (ring_slot last_epoch)).tmp_entry

pub replace-Written :
    (s : VertexEdges) (place : Place) (item : Item) (recorded now property : ℕ) (old : ℕ × ℕ × ℕ)
    (epoch : ℕ) (finish : ℕ → EdgeWithIndex) (txn : Writer)
    → Inside s place
    → CanGrow (s.tmp_vb (ring_slot epoch))
    → Pending s item old
    → let idx = length (s.tmp_vb (ring_slot epoch)).tmp_entry in
      let intra = (get_intra_c txn).0 in
      (r : VertexEdges) × (t : Writer) × (replace s place item recorded now property old epoch
          finish txn
        ≡ some (true, r, t))
      × Written s r place
          (record { e = now; block = epoch % tmpvb_mask + tmpvb_mask; index = intra }, finish idx)
          epoch
          idx
          (entry_of s place recorded property old intra)
unfolding replace
replace-Written s place item recorded now property (le, li, oi) epoch finish txn inside can
      pending =
    let slot = ring_slot epoch in
    let idx = length (s.tmp_vb slot).tmp_entry in
    let intra = (get_intra_c txn).0 in
    let entry = entry_of s place recorded property (le, li, oi) intra in
    let (put, wide) = insert_version-appends (s.tmp_vb slot) entry can in
    let w : VertexEdges = record s {
      tmp_vb = update s.tmp_vb slot (appended (s.tmp_vb slot) entry);
    } in
    let (l, run, k) = link_next-Linked w (has_tmp_vb item.0) le li epoch slot idx (λ is_tmp late.
      elim (Bool-cases (slot == ring_slot le)) [
        | inl same ↦
            let one = (==_iff slot (ring_slot le)).0 same in
            let h =
              subst (λ (u : ℕ). li < length (s.tmp_vb u).tmp_entry) (sym one)
                (pending is_tmp late) in
            let more = length-append (s.tmp_vb slot).tmp_entry (entry ∷ []) in
            (rw same (omega (arith, h, more)), λ e. omega (arith, h))
        | inr other ↦
            (rw other (pending is_tmp late), λ (e : ring_slot le ≡ slot). absurd (ground arith))
      ]) in
    let x : Item =
      (record { e = now; block = epoch % tmpvb_mask + tmpvb_mask; index = intra }, finish idx) in
    let held = Inside-arrays s l place k.starts k.buffer inside in
    (
      write_item l place x,
      record ((get_intra_c txn).1) { edge_blocks = (get_intra_c txn).1.edge_blocks + 1 },
      rw (put, run),
      record {
        stored = rw (same_place_refl place) at (item_at-write_item l place place x held);
        others = λ q off.
            (rw off at (item_at-write_item l place q x held))
            ∙ item_at-arrays s l q k.starts k.buffer;
        recorded =
            ap (λ (f : ℕ → TmpVersionBlock). get_elem? (f slot).tmp_entry idx)
              (write_item-tmp_vb l place x)
            ∙ k.entries
            ∙ rw (==_refl slot) (get_elem?-append (s.tmp_vb slot).tmp_entry entry);
        index = write_item-index l place x ∙ k.index;
        used = write_item-used l place x ∙ k.used;
      },
    )
