-- ===== src/Tests/Merges.antt =====
-- The merge of a block with a dead edge and of a full buffer.
use avbgraph.EdgeBlock.HashTable2.Insert.{IsValid}
use avbgraph.EdgeBlock.VertexEdges.Merge.Compaction.{alive, merge_tmpev_with_eb-Ascending}
use avbgraph.EdgeBlock.VertexEdges.Merge.Order.{Ascending, Apart, has}
use avbgraph.EdgeBlock.VertexEdges.Merge.{merge_tmpev_with_eb}
use avbgraph.EdgeBlock.VertexEdges.{VertexEdges, Item}
use avbgraph.Prelude.Int.{pos}
use avbgraph.Prelude.{
  ℕ, zero, suc, ◌+◌, ◌*◌, ◌%◌, ◌^◌, ◌≤◌, ◌<◌, ◌≡◌, refl, true, false, ◌||◌, List, [], ◌∷◌, some,
  arith, length,
}
use avbgraph.Tests.Tables.{pair, pair-IsValid}
use avbgraph.Types.{strip}
use avbgraph.Version.Manager.{new}
use avbgraph.Version.Temporary.{empty}

abbrev pub edge : ℕ → ℕ → Item
edge e block = (record { e = e; block = block; index = 0 }, record { e = 0; block = 0; index = 0 })

-- The edges to 1 and 9, of which that to 9 was deleted in epoch 2, and a buffer in order.
abbrev pub merging : VertexEdges
merging = record {
  start = edge 1 3 ∷ edge (2 ^ 63 + 9) 2 ∷ [];
  behind = 0;
  capacity = 2;
  tmp_item = edge 5 4 ∷ edge 20 4 ∷ [];
  tmp_ev = 64;
  merge_times = 0;
  num = 4;
  edge_num = pos 2;
  destinations = pair;
  manager = new;
  tmp_vb = λ k. empty;
  active_tvb_mask = λ k. false;
}

-- `n` edges to the destinations `e`, `e + 2`, ...
abbrev edges_from : ℕ → ℕ → List Item
edges_from zero e = []
edges_from (suc n) e = edge e 4 ∷ edges_from n (e + 2)

-- The same block with a full buffer.
abbrev full : VertexEdges
full = record merging { tmp_item = edges_from 64 10; num = 66 }

edges_from-Ascending : (n b e : ℕ) → b ≤ e → e + 2 * n < 2 ^ 63 → Ascending b (edges_from n e)
unfolding strip
edges_from-Ascending zero b e h word = tt
edges_from-Ascending (suc n) b e h word =
    (omega arith, edges_from-Ascending n (e % 2 ^ 63 + 1) (e + 2) (omega arith) (omega arith))

has-edges_from : (n e k : ℕ) → e + 2 * n < 2 ^ 63 → has (edges_from n e) k ≡ true → e ≤ k
unfolding has strip
has-edges_from zero e k word h = absurd (cc)
has-edges_from (suc n) e k word h = ground (arith, has-edges_from n (e + 2) k (omega arith), h)

block_Ascending : Ascending 0 full.start
unfolding strip
block_Ascending = (omega arith, (omega arith, tt))

full_Apart : Apart full.tmp_item full.start
unfolding has strip
full_Apart k h = let late : 10 ≤ k = has-edges_from 64 10 k (omega arith) h in ground (arith, late)

merge_tmpev_with_eb-Ascending_example :
    (r : VertexEdges) × (merge_tmpev_with_eb (λ xs. xs) 3 0 full ≡ some r)
    × Ascending 0 r.start
    × ((k : ℕ) → has r.start k ≡ (has (alive 3 full.start) k || has full.tmp_item k))
    × IsValid r.destinations
    × (r.tmp_ev ≡ 0)
    × (r.num ≡ length r.start)
    × (66 ≤ r.capacity)
    × (length r.start ≤ r.capacity)
merge_tmpev_with_eb-Ascending_example =
    merge_tmpev_with_eb-Ascending (λ xs. xs) 3 0 full pair-IsValid block_Ascending
      (edges_from-Ascending 64 0 10 (omega arith) (omega arith)) (λ k. refl) refl full_Apart refl
      refl (omega arith)
