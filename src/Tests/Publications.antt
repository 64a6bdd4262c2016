-- ===== src/Tests/Publications.antt =====
-- The publication of epoch 5 at a vertex: the edge to 3, created in epoch 2, was replaced, and the
-- edge to 7, of epoch 0, was deleted.
use avbgraph.EdgeBlock.VertexEdges.Scan.Order.{SortedRecords}
use avbgraph.EdgeBlock.VertexEdges.Scan.{items_of}
use avbgraph.EdgeBlock.VertexEdges.Scan.Exact.{AllSorted}
use avbgraph.EdgeBlock.VertexEdges.Transform.Chained.{transform-AllSorted}
use avbgraph.EdgeBlock.VertexEdges.Transform.Entries.{old_half}
use avbgraph.EdgeBlock.VertexEdges.Transform.Published.{transform-SortedRecords}
use avbgraph.EdgeBlock.VertexEdges.Transform.Records.{deletions, edge_halves}
use avbgraph.EdgeBlock.VertexEdges.Transform.{offset_place, fresh_entries, old_entries, transform}
use avbgraph.EdgeBlock.VertexEdges.{VertexEdges}
use avbgraph.Prelude.Int.{pos}
use avbgraph.Prelude.{
  ℕ, ◌+◌, ◌^◌, ◌≡◌, ◌↔◌, ◌⊎◌, refl, false, List, [], ◌∷◌, ◌++◌, map, none, some, arith, ◌==◌,
  if◌then◌else◌,
}
use avbgraph.Tests.Merges.{edge, merging}
use avbgraph.Version.Manager.Chain.{IsLinked}
use avbgraph.Version.Manager.{VersionBlock, new, push_vb}
use avbgraph.Version.Temporary.{VersionEntry, TmpVersionBlock, empty, has_next_vb}

abbrev entry : ℕ → ℕ → ℕ → ℕ → VersionEntry
entry d offset last_epoch intra = record {
  offset = offset;
  merge_times = 0;
  last_epoch = last_epoch;
  old_intra_c = 0;
  new_intra_c = intra;
  edge = d;
  weight = 1;
  link = record { block = last_epoch; index = 0; link = 0 };
}

abbrev of_epoch : TmpVersionBlock
of_epoch = record {
  tmp_num = 8;
  timestamp = 5;
  tmp_entry = entry (2 ^ 63 + 7) 1 0 2 ∷ entry 3 0 2 1 ∷ [];
}

abbrev publishing : VertexEdges
publishing = record merging {
  start = edge 3 5 ∷ edge (2 ^ 63 + 7) 5 ∷ [];
  tmp_ev = 0;
  tmp_vb = λ k. if k == 5 then of_epoch else empty;
  active_tvb_mask = λ k. k == 5;
}

abbrev fresh_block : VersionBlock
fresh_block = record { edge_num = pos 0; timestamp = 5; last_epoch = 0; start = none }

abbrev in_order : List VersionEntry → List VersionEntry
in_order entries = entries

transform-SortedRecords_example :
    (r : VertexEdges × VersionBlock) × (transform in_order publishing 5 fresh_block ≡ some r)
    × (edge_halves (items_of r.1.start)
        ≡ map old_half
            (old_entries of_epoch.tmp_entry ++ deletions (fresh_entries of_epoch.tmp_entry)))
    × (SortedRecords 0 (items_of r.1.start) ↔ (
        (old_entries of_epoch.tmp_entry ≡ [])
        ⊎ (deletions (fresh_entries of_epoch.tmp_entry) ≡ [])))
    × ((r.0.tmp_vb 5).tmp_entry ≡ [])
    × (r.0.active_tvb_mask 5 ≡ false)
    × (r.1.timestamp ≡ 5)
    × (r.0.manager ≡ (push_vb publishing.edge_num publishing.manager r.1).1)
unfolding has_next_vb offset_place
transform-SortedRecords_example =
    transform-SortedRecords in_order publishing 5 fresh_block (omega arith)
      ((refl, omega arith, λ z h. absurd (cc)), ((refl, omega arith, λ z h. absurd (cc)), tt))
      (omega arith, omega arith, (omega arith, omega arith, tt))

transform-AllSorted_example :
    (r : VertexEdges × VersionBlock) × (transform in_order publishing 5 fresh_block ≡ some r)
    × IsLinked r.0.manager.end_epoch r.0.manager.chain
    × (AllSorted r.0.manager.chain ↔ (
        (old_entries of_epoch.tmp_entry ≡ [])
        ⊎ (deletions (fresh_entries of_epoch.tmp_entry) ≡ [])))
unfolding has_next_vb offset_place new
transform-AllSorted_example =
    transform-AllSorted in_order publishing 5 fresh_block (omega arith)
      ((refl, omega arith, λ z h. absurd (cc)), ((refl, omega arith, λ z h. absurd (cc)), tt))
      (omega arith, omega arith, (omega arith, omega arith, tt)) (omega arith) refl tt
