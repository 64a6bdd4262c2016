-- ===== src/EdgeBlock/VertexEdges/Scan/Properties.antt =====
-- iterate_edges_with_property and for_each_edge_with_property: the scan that hands on the property
-- halves too.
use avbgraph.EdgeBlock.VertexEdges.Scan.{
  live, scan_items, scan_entries, scan_slots, iterate_edges, iterated, records, scan_own,
  scan_later, scan_block, scan_blocks, for_each_edge, entry_created, entry_invalid,
}
use avbgraph.EdgeBlock.VertexEdges.{VertexEdges, Item}
use avbgraph.Prelude.{
  ℕ, zero, suc, ◌≡◌, refl, ap, ◌∙◌, not, List, [], ◌∷◌, ◌++◌, map, ◌==◌, if◌then◌else◌, take,
  append_cong, rev_onto, arith, Bool-cases, inl, inr,
}
use avbgraph.Types.{Composite, is_delete, lt, le}
use avbgraph.Version.Item.{
  EdgeWithIndex, is_visible_at, is_visible_within, set_edge_fg, set_prop_fg,
}
use avbgraph.Version.Manager.{VersionBlock}
use avbgraph.Version.Temporary.{VersionEntry, TmpVersionBlock}

unfoldable pub items_with_property : Composite → List Item → List Item
items_with_property read_ts [] = []
items_with_property read_ts (x ∷ xs) =
    let rest = items_with_property read_ts xs in if live read_ts x then x ∷ rest else rest

unfoldable pub entries_with_property : Composite → TmpVersionBlock → List VersionEntry → List Item
entries_with_property read_ts tvb [] = []
entries_with_property read_ts tvb (ent ∷ entries) =
    let rest = entries_with_property read_ts tvb entries in
    if is_delete ent.edge
    then rest
    else if not (le read_ts (entry_invalid tvb ent))
    then []
    else if lt (entry_created ent) read_ts
    then (
      set_edge_fg ent.edge ent.last_epoch ent.old_intra_c,
      set_prop_fg ent.weight 0 ent.new_intra_c,
    )
      ∷ rest
    else rest

unfoldable pub slots_with_property : Composite → VertexEdges → ℕ → ℕ → List Item
slots_with_property read_ts s zero idx = []
slots_with_property read_ts s (suc n) idx =
    let rest = slots_with_property read_ts s n (suc idx) in
    if s.active_tvb_mask idx
    then entries_with_property read_ts (s.tmp_vb idx) (rev_onto (s.tmp_vb idx).tmp_entry []) ++ rest
    else rest

unfoldable pub iterate_edges_with_property : Composite → VertexEdges → List Item
iterate_edges_with_property read_ts s =
    items_with_property read_ts (take s.tmp_ev s.tmp_item)
    ++ (items_with_property read_ts s.start ++ slots_with_property read_ts s 16 0)

unfoldable pub own_with_property : Composite → List Item → List Item
own_with_property read_ts [] = []
own_with_property read_ts (x ∷ xs) =
    let rest = own_with_property read_ts xs in
    if is_visible_within x.0 read_ts (record { e = read_ts.e; i = x.1.index }) then x ∷ rest else []

unfoldable pub later_with_property : Composite → List Item → List Item
later_with_property read_ts [] = []
later_with_property read_ts (x ∷ xs) =
    let rest = later_with_property read_ts xs in
    if is_visible_at x.0 read_ts.e then x ∷ rest else []

unfoldable pub block_with_property : Composite → VersionBlock → List Item
block_with_property read_ts vb =
    if vb.timestamp == read_ts.e
    then own_with_property read_ts (records vb)
    else later_with_property read_ts (records vb)

unfoldable pub blocks_with_property : Composite → List VersionBlock → List Item
blocks_with_property read_ts [] = []
blocks_with_property read_ts (vb ∷ vbs) =
    block_with_property read_ts vb ++ blocks_with_property read_ts vbs

-- GraphAlgorithms::for_each_edge_with_property
unfoldable pub for_each_edge_with_property : Composite → VertexEdges → List Item
for_each_edge_with_property read_ts s =
    iterate_edges_with_property read_ts s
    ++ blocks_with_property read_ts (iterated read_ts s.manager)

abbrev pub edges : List Item → List EdgeWithIndex
edges xs = map (λ (x : Item). x.0) xs

edges-append : (xs ys : List Item) → edges (xs ++ ys) ≡ edges xs ++ edges ys
edges-append [] ys = refl
edges-append (x ∷ xs) ys = ap (λ (l : List EdgeWithIndex). x.0 ∷ l) (edges-append xs ys)

edges-items : (q : Composite) (xs : List Item) → edges (items_with_property q xs) ≡ scan_items q xs
unfolding items_with_property scan_items
edges-items q [] = refl
edges-items q (x ∷ xs) = ground (arith, edges-items q xs)

edges-entries :
    (q : Composite) (tvb : TmpVersionBlock) (entries : List VersionEntry)
    → edges (entries_with_property q tvb entries) ≡ scan_entries q tvb entries
unfolding entries_with_property scan_entries
edges-entries q tvb [] = refl
edges-entries q tvb (ent ∷ entries) = ground (arith, edges-entries q tvb entries)

edges-slots :
    (q : Composite) (s : VertexEdges) (n idx : ℕ)
    → edges (slots_with_property q s n idx) ≡ scan_slots q s n idx
unfolding slots_with_property scan_slots
edges-slots q s zero idx = refl
edges-slots q s (suc n) idx = elim (Bool-cases (s.active_tvb_mask idx)) [
  | inl e ↦
      let tvb = s.tmp_vb idx in
      rw e (
        edges-append (entries_with_property q tvb (rev_onto tvb.tmp_entry []))
          (slots_with_property q s n (suc idx))
        ∙ append_cong (edges-entries q tvb (rev_onto tvb.tmp_entry []))
            (edges-slots q s n (suc idx)))
  | inr e ↦ rw e (edges-slots q s n (suc idx))
]

edges-iterate_edges :
    (q : Composite) (s : VertexEdges) → edges (iterate_edges_with_property q s) ≡ iterate_edges q s
unfolding iterate_edges_with_property iterate_edges
edges-iterate_edges q s =
    edges-append (items_with_property q (take s.tmp_ev s.tmp_item)) _
    ∙ append_cong (edges-items q (take s.tmp_ev s.tmp_item)) (
        edges-append (items_with_property q s.start) (slots_with_property q s 16 0)
        ∙ append_cong (edges-items q s.start) (edges-slots q s 16 0))

edges-own : (q : Composite) (xs : List Item) → edges (own_with_property q xs) ≡ scan_own q xs
unfolding own_with_property scan_own
edges-own q [] = refl
edges-own q (x ∷ xs) = ground (arith, edges-own q xs)

edges-later : (q : Composite) (xs : List Item) → edges (later_with_property q xs) ≡ scan_later q xs
unfolding later_with_property scan_later
edges-later q [] = refl
edges-later q (x ∷ xs) = ground (arith, edges-later q xs)

edges-block :
    (q : Composite) (vb : VersionBlock) → edges (block_with_property q vb) ≡ scan_block q vb
unfolding block_with_property scan_block
edges-block q vb = elim (Bool-cases (vb.timestamp == q.e)) [
  | inl e ↦ rw e (edges-own q (records vb))
  | inr e ↦ rw e (edges-later q (records vb))
]

edges-blocks :
    (q : Composite) (vbs : List VersionBlock)
    → edges (blocks_with_property q vbs) ≡ scan_blocks q vbs
unfolding blocks_with_property scan_blocks
edges-blocks q [] = refl
edges-blocks q (vb ∷ vbs) =
    edges-append (block_with_property q vb) (blocks_with_property q vbs)
    ∙ append_cong (edges-block q vb) (edges-blocks q vbs)

-- The scan with properties hands on the same edges as the scan without, in the same order, for
-- every state of the vertex and every reader.
pub edges-for_each_edge :
    (q : Composite) (s : VertexEdges) → edges (for_each_edge_with_property q s) ≡ for_each_edge q s
unfolding for_each_edge_with_property for_each_edge
edges-for_each_edge q s =
    edges-append (iterate_edges_with_property q s) (blocks_with_property q (iterated q s.manager))
    ∙ append_cong (edges-iterate_edges q s) (edges-blocks q (iterated q s.manager))
