-- ===== src/EdgeBlock/VertexEdges/Scan.antt =====
-- data-structure/EdgeBlock/VertexEdges.h, iterate_edges and GraphAlgorithms::for_each_edge in the
-- build with FINEGRAIN: a reader's scan over the edges of a vertex. A scan answers with the edges
-- that it hands to its callback, in their order.
pub mod Properties
pub mod Condition
pub mod Order
pub mod Exact
pub mod Misses
use avbgraph.EdgeBlock.VertexEdges.{VertexEdges, Item}
use avbgraph.Prelude.{
  ℕ, zero, suc, ◌+◌, Bool, not, ◌&&◌, List, [], ◌∷◌, ◌++◌, Option, none, some, leb, ◌==◌,
  if◌then◌else◌, length, take, rev_onto,
}
use avbgraph.Types.{Composite, is_delete, lt, le}
use avbgraph.Version.Item.{
  EdgeWithIndex, is_visible_at, is_visible_at_composite, is_visible_within, set_edge_fg,
}
use avbgraph.Version.Iterator.{begin, visit_loop}
use avbgraph.Version.Manager.{VersionBlock, Manager}
use avbgraph.Version.Temporary.{VersionEntry, TmpVersionBlock}

-- edge_visible_at
unfoldable pub edge_visible_at : EdgeWithIndex → Composite → Bool
edge_visible_at x read_ts = is_visible_at_composite x read_ts

-- `!is_delete(i->e) && edge_visible_at(*i, read_ts)`
unfoldable pub live : Composite → Item → Bool
unfolding edge_visible_at
live read_ts x = not (is_delete x.0.e) && edge_visible_at x.0 read_ts

-- The loops over the buffer and over the block.
unfoldable pub scan_items : Composite → List Item → List EdgeWithIndex
scan_items read_ts [] = []
scan_items read_ts (x ∷ xs) =
    let rest = scan_items read_ts xs in if live read_ts x then x.0 ∷ rest else rest

-- When the version of an entry came to be, and when it was replaced.
abbrev pub entry_created : VersionEntry → Composite
entry_created ent = record { e = ent.last_epoch; i = ent.old_intra_c }

abbrev pub entry_invalid : TmpVersionBlock → VersionEntry → Composite
entry_invalid tvb ent = record { e = tvb.timestamp; i = ent.new_intra_c }

-- The loop over the entries of a temporary version block, the last first.
unfoldable pub scan_entries : Composite → TmpVersionBlock → List VersionEntry → List EdgeWithIndex
scan_entries read_ts tvb [] = []
scan_entries read_ts tvb (ent ∷ entries) =
    let rest = scan_entries read_ts tvb entries in
    if is_delete ent.edge
    then rest
    else if not (le read_ts (entry_invalid tvb ent))
    then []
    else if lt (entry_created ent) read_ts
    then set_edge_fg ent.edge ent.last_epoch ent.old_intra_c ∷ rest
    else rest

-- `while (mask)`, from the lowest bit: `n` bits are left, the lowest of which is `idx`.
unfoldable pub scan_slots : Composite → VertexEdges → ℕ → ℕ → List EdgeWithIndex
scan_slots read_ts s zero idx = []
scan_slots read_ts s (suc n) idx =
    let rest = scan_slots read_ts s n (suc idx) in
    if s.active_tvb_mask idx
    then scan_entries read_ts (s.tmp_vb idx) (rev_onto (s.tmp_vb idx).tmp_entry []) ++ rest
    else rest

unfoldable pub iterate_edges : Composite → VertexEdges → List EdgeWithIndex
iterate_edges read_ts s =
    scan_items read_ts (take s.tmp_ev s.tmp_item)
    ++ (scan_items read_ts s.start ++ scan_slots read_ts s 16 0)

-- The blocks that the iterator visits, if iterate_edges says that one is needed.
unfoldable pub iterated : Composite → Manager → List VersionBlock
iterated read_ts m =
    if leb read_ts.e m.end_epoch
    then visit_loop (length m.chain) read_ts.e (begin read_ts.e m.chain)
    else []

abbrev pub items_of : Option (List Item) → List Item
items_of none = []
items_of (some items) = items

abbrev pub records : VersionBlock → List Item
records vb = items_of vb.start

-- The loop over a block of the reader's own epoch: up to the first record that is not visible.
unfoldable pub scan_own : Composite → List Item → List EdgeWithIndex
scan_own read_ts [] = []
scan_own read_ts (x ∷ xs) =
    let rest = scan_own read_ts xs in
    if is_visible_within x.0 read_ts (record { e = read_ts.e; i = x.1.index })
    then x.0 ∷ rest
    else []

-- The loop over another block: up to the first record created after the reader's epoch.
unfoldable pub scan_later : Composite → List Item → List EdgeWithIndex
scan_later read_ts [] = []
scan_later read_ts (x ∷ xs) =
    let rest = scan_later read_ts xs in if is_visible_at x.0 read_ts.e then x.0 ∷ rest else []

unfoldable pub scan_block : Composite → VersionBlock → List EdgeWithIndex
scan_block read_ts vb =
    if vb.timestamp == read_ts.e
    then scan_own read_ts (records vb)
    else scan_later read_ts (records vb)

-- `while (!it->is_end_)`
unfoldable pub scan_blocks : Composite → List VersionBlock → List EdgeWithIndex
scan_blocks read_ts [] = []
scan_blocks read_ts (vb ∷ vbs) = scan_block read_ts vb ++ scan_blocks read_ts vbs

-- GraphAlgorithms::for_each_edge
unfoldable pub for_each_edge : Composite → VertexEdges → List EdgeWithIndex
for_each_edge read_ts s =
    iterate_edges read_ts s ++ scan_blocks read_ts (iterated read_ts s.manager)
