-- ===== src/EdgeBlock/VertexEdges/Transform.antt =====
-- data-structure/EdgeBlock/VertexEdges.cpp, Transform in the build with FINEGRAIN: the publication
-- of the versions that an epoch replaced at a vertex. `sort` is std::sort of the entries by the
-- epoch and the intra-epoch time of the replaced versions; ChangeLastIndex changes no field that
-- the loops read, so that the entries are taken once. `none` is an access that the code must not
-- make.
pub mod Entries
pub mod Records
pub mod Published
pub mod Chained
use avbgraph.EdgeBlock.VertexEdges.Search.{Place, in_start, in_tmp, get_edge_index2, place_start}
use avbgraph.EdgeBlock.VertexEdges.Writes.{in_arrays, item_at, write_item, ring_slot}
use avbgraph.EdgeBlock.VertexEdges.{VertexEdges, Item, key_at}
use avbgraph.Prelude.Int.{ℤ, pos, ◌+ℤ◌, ◌-ℤ◌}
use avbgraph.Prelude.{
  ◌>>=◌, ℕ, ◌+◌, ◌-◌, ◌/◌, ◌%◌, Bool, true, false, not, ◌&&◌, List, [], ◌∷◌, ◌++◌, Option, none,
  some, ltb, ◌==◌, if◌then◌else◌, length, get_elem?, set, update,
}
use avbgraph.Types.{is_delete, strip, tmpvb_mask}
use avbgraph.Version.Item.{EdgeWithIndex, set_edge_fg, set_prop_fg}
use avbgraph.Version.Manager.{VersionBlock, Manager, push_vb}
use avbgraph.Version.Temporary.{VersionEntry, TmpVersionBlock, has_next_vb, clear}

-- The slot that an offset names.
unfoldable pub offset_place : ℕ → Place
offset_place xid = if xid / tmpvb_mask % 2 == 1 then in_tmp (xid % tmpvb_mask) else in_start xid

-- Where the edge of an entry stands now.
unfoldable pub entry_place : VertexEdges → VersionEntry → Option Place
unfolding in_arrays
entry_place s ent =
    (if ent.merge_times == s.merge_times
      then some (offset_place ent.offset)
      else place_start (get_edge_index2 (key_at s) (length s.start) (strip ent.edge)))
    >>= in_arrays s

-- ChangeLastIndex with a null pointer; the exclusive-or turns the flag of the word over.
unfoldable pub unlinked : VersionEntry → VersionEntry
unlinked entry =
    let block = entry.link.block in
    let flag = block / tmpvb_mask % 2 in
    record entry {
      link = record (entry.link) {
        block = if flag == 1 then block - tmpvb_mask else block + tmpvb_mask;
        link = 0;
      };
    }

unfoldable pub change_last_index : TmpVersionBlock → ℕ → Option TmpVersionBlock
change_last_index vb index = get_elem? vb.tmp_entry index >>= λ (entry : VersionEntry).
    some (record vb { tmp_entry = set vb.tmp_entry index (unlinked entry) })

-- The first loop on an entry that is not a deletion: no later version of the edge is waiting, or
-- one is, which keeps the time of the edge.
unfoldable pub write_new : VertexEdges → ℕ → VersionEntry → Place → VertexEdges
write_new s epoch ent place =
    let item = item_at s place in
    write_item s place (
      record (item.0) { block = epoch; index = ent.new_intra_c },
      record { e = ent.weight; block = 0; index = 0 },
    )

unfoldable pub write_next : VertexEdges → VersionEntry → Place → TmpVersionBlock → VertexEdges
write_next s ent place vb =
    let item = item_at s place in
    write_item (record s { tmp_vb = update s.tmp_vb (ring_slot ent.link.block) vb }) place
      (item.0, record (item.1) { e = ent.weight })

unfoldable pub settle_new : VertexEdges → ℕ → VersionEntry → Option VertexEdges
settle_new s epoch ent = entry_place s ent >>= λ (place : Place).
    (if has_next_vb ent.link
      then (change_last_index (s.tmp_vb (ring_slot ent.link.block)) ent.link.index
          >>= λ (vb : TmpVersionBlock). some (write_next s ent place vb))
      else some (write_new s epoch ent place))

-- The record of the version that an entry replaced, and the edge with the place `j` of the record.
unfoldable pub write_old : VertexEdges → ℕ → ℕ → ℕ → VersionEntry → Place → Item × VertexEdges
write_old s epoch j weight ent place =
    let item = item_at s place in
    (
      (
        set_edge_fg (strip ent.edge) ent.last_epoch ent.old_intra_c,
        set_prop_fg item.1.e ent.link.index ent.new_intra_c,
      ),
      write_item s place
          (record (item.0) { block = epoch; index = ent.new_intra_c }, set_prop_fg weight j 0),
    )

unfoldable pub settle_old : VertexEdges → ℕ → ℕ → ℕ → VersionEntry → Option (Item × VertexEdges)
settle_old s epoch j weight ent =
    entry_place s ent >>= λ (place : Place). some (write_old s epoch j weight ent place)

-- The first loop: the state, the number of the edges, and the deletions, which it swaps to the
-- front. A swap moves an entry that the loop has dealt with, so that the rest keeps its order.
unfoldable pub first_loop :
    VertexEdges → ℕ → ℤ → List VersionEntry → Option (VertexEdges × ℤ × List VersionEntry)
first_loop s epoch edge_num [] = some (s, edge_num, [])
first_loop s epoch edge_num (ent ∷ entries) =
    if is_delete ent.edge
    then (first_loop s epoch edge_num entries >>= λ (r : VertexEdges × ℤ × List VersionEntry).
        some (r.0, r.1, ent ∷ r.2))
    else (settle_new s epoch ent >>= λ (s' : VertexEdges).
        first_loop s' epoch (edge_num +ℤ pos 1) entries)

-- The second loop, from the record `j` on.
unfoldable pub second_loop :
    VertexEdges → ℕ → ℕ → ℤ → List VersionEntry → Option (VertexEdges × ℤ × List Item)
second_loop s epoch j edge_num [] = some (s, edge_num, [])
second_loop s epoch j edge_num (ent ∷ entries) =
    let edge_num' = if is_delete ent.edge then edge_num -ℤ pos 1 else edge_num +ℤ pos 1 in
    settle_old s epoch j (if is_delete ent.edge then 0 else ent.weight) ent
    >>= λ (x : Item × VertexEdges).
        (second_loop x.1 epoch (j + 1) edge_num' entries >>= λ (r : VertexEdges × ℤ × List Item).
        some (r.0, r.1, x.0 ∷ r.2))

-- The third loop, over the deletions that the first loop left.
unfoldable pub third_loop :
    VertexEdges → ℕ → ℕ → ℤ → List VersionEntry → Option (VertexEdges × ℤ × List Item)
third_loop s epoch j edge_num [] = some (s, edge_num, [])
third_loop s epoch j edge_num (ent ∷ entries) =
    settle_old s epoch j 0 ent >>= λ (x : Item × VertexEdges).
    (third_loop x.1 epoch (j + 1) (edge_num -ℤ pos 1) entries
      >>= λ (r : VertexEdges × ℤ × List Item). some (r.0, r.1, x.0 ∷ r.2))

-- `!tmp_entry_[indices[i]].last_epoch`: the sorted entries before and behind the end of the loop.
abbrev pub fresh_entries : List VersionEntry → List VersionEntry
fresh_entries [] = []
fresh_entries (ent ∷ entries) = if ent.last_epoch == 0 then ent ∷ fresh_entries entries else []

abbrev pub old_entries : List VersionEntry → List VersionEntry
old_entries [] = []
old_entries (ent ∷ entries) = if ent.last_epoch == 0 then old_entries entries else ent ∷ entries

-- The end: the block is pushed, and the temporary version block given back.
unfoldable pub finish : VertexEdges → ℕ → VersionBlock → VertexEdges
finish s slot vb =
    let pushed = push_vb s.edge_num s.manager vb in
    record s {
      edge_num = pushed.0;
      manager = pushed.1;
      tmp_vb = update s.tmp_vb slot (clear (s.tmp_vb slot));
      active_tvb_mask = update s.active_tvb_mask (ring_slot vb.timestamp) false;
    }

abbrev pub start_of : List Item → Option (List Item)
start_of [] = none
start_of (x ∷ items) = some (x ∷ items)

module _ (sort : List VersionEntry → List VersionEntry) where
  -- The vertex, and the block as it was pushed, whose records are the answer's number; the
  -- temporary version block stands at the slot.
  unfoldable pub transform : VertexEdges → ℕ → VersionBlock → Option (VertexEdges × VersionBlock)
  transform s slot vb =
      let sorted = sort (s.tmp_vb slot).tmp_entry in
      if length (s.tmp_vb slot).tmp_entry == 0
      then some (s, vb)
      else (first_loop s vb.timestamp vb.edge_num (fresh_entries sorted)
          >>= λ (f : VertexEdges × ℤ × List VersionEntry).
              (second_loop f.0 vb.timestamp 0 f.1 (old_entries sorted)
                >>= λ (o : VertexEdges × ℤ × List Item).
                    (third_loop o.0 vb.timestamp (length (old_entries sorted)) o.1 f.2
                      >>= λ (t : VertexEdges × ℤ × List Item).
                          (let full = record vb { edge_num = t.1; start = start_of (o.2 ++ t.2) } in
                            some (finish t.0 slot full, full)))))
