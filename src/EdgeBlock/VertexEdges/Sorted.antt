-- ===== src/EdgeBlock/VertexEdges/Sorted.antt =====
-- data-structure/EdgeBlock/VertexEdges.h, for_each_edge_sorted: the scan that merges the buffer
-- into the block on the way. `sort` is std::sort by the destination; a Pair is its edge half.
pub mod Merged
use avbgraph.EdgeBlock.VertexEdges.{VertexEdges, Item}
use avbgraph.Prelude.{
  ℕ, zero, suc, ◌+◌, ◌-◌, ◌^◌, Bool, not, ◌&&◌, ◌||◌, List, [], ◌∷◌, ltb, ◌==◌, if◌then◌else◌,
  length, map, take,
}
use avbgraph.Types.{is_delete}
use avbgraph.Version.Item.{EdgeWithIndex, is_visible_at}

-- The loop that fills tmp_buf.
unfoldable pub visible_tmp : ℕ → List Item → List EdgeWithIndex
visible_tmp epoch [] = []
visible_tmp epoch (x ∷ xs) =
    let rest = visible_tmp epoch xs in
    if not (is_delete x.0.e) && is_visible_at x.0 epoch then x.0 ∷ rest else rest

-- The destination that `last` starts with, `~(dst_t)0`.
abbrev pub no_last : ℕ
no_last = 2 ^ 64 - 1

-- `if (e != last) { cb(…); last = e; }` and the rest of the loop.
abbrev pub report : EdgeWithIndex → ℕ → List EdgeWithIndex → List EdgeWithIndex
report x last rest = if x.e == last then rest else x ∷ rest

-- The two-pointer merge of the block from `si` on and the buffer from `ti` on. After a report,
-- `last` is the reported destination in both branches.
unfoldable pub merge_sorted : ℕ → List EdgeWithIndex → List EdgeWithIndex → ℕ → List EdgeWithIndex
merge_sorted epoch [] [] last = []
merge_sorted epoch [] (t ∷ ts) last = report t last (merge_sorted epoch [] ts t.e)
merge_sorted epoch (x ∷ xs) [] last = report x last (merge_sorted epoch xs [] x.e)
merge_sorted epoch (x ∷ xs) (t ∷ ts) last =
    let skip = merge_sorted epoch xs (t ∷ ts) last in
    let from_start = merge_sorted epoch xs (t ∷ ts) x.e in
    let from_tmp = merge_sorted epoch (x ∷ xs) ts t.e in
    if is_delete x.e || not (is_visible_at x epoch)
    then skip
    else if ltb x.e t.e
    then report x last from_start
    else report t last from_tmp

module _ (sort : List EdgeWithIndex → List EdgeWithIndex) where
  unfoldable pub for_each_edge_sorted : ℕ → VertexEdges → List EdgeWithIndex
  for_each_edge_sorted epoch s =
      merge_sorted epoch (map (λ (x : Item). x.0) s.start)
        (sort (visible_tmp epoch (take s.tmp_ev s.tmp_item))) no_last
