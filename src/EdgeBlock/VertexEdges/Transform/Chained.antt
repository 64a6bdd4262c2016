-- ===== src/EdgeBlock/VertexEdges/Transform/Chained.antt =====
-- The version chain of a vertex after a publication.
use avbgraph.EdgeBlock.VertexEdges.Scan.Exact.{AllSorted}
use avbgraph.EdgeBlock.VertexEdges.Scan.Order.{SortedRecords}
use avbgraph.EdgeBlock.VertexEdges.Scan.{items_of}
use avbgraph.EdgeBlock.VertexEdges.Transform.Entries.{AllReachable}
use avbgraph.EdgeBlock.VertexEdges.Transform.Published.{SortedEntries, transform-SortedRecords}
use avbgraph.EdgeBlock.VertexEdges.Transform.Records.{deletions}
use avbgraph.EdgeBlock.VertexEdges.Transform.{fresh_entries, old_entries, transform}
use avbgraph.EdgeBlock.VertexEdges.{VertexEdges}
use avbgraph.Prelude.Int.{ℤ}
use avbgraph.Prelude.{ℕ, ◌<◌, ◌≡◌, ◌≢◌, ◌↔◌, ◌⊎◌, sym, subst, List, [], some, length, arith}
use avbgraph.Version.Manager.Chain.{IsLinked, push_vb-IsLinked}
use avbgraph.Version.Manager.{VersionBlock, Manager, push_vb}
use avbgraph.Version.Temporary.{VersionEntry}

push_vb-AllSorted :
    (n : ℤ) (m : Manager) (vb : VersionBlock)
    → AllSorted m.chain
    → AllSorted (push_vb n m vb).1.chain ↔ SortedRecords 0 (items_of vb.start)
unfolding push_vb
push_vb-AllSorted n m vb sorted = (λ (s, rest). s, λ s. (s, sorted))

module _ (sort : List VersionEntry → List VersionEntry) where
  -- Given a vertex whose version chain is linked and sorted block by block, the publication of a
  -- nonempty temporary version block, whose sorted entries are reachable, for an epoch after the
  -- newest of the chain ends with a linked chain. Every block of it is sorted, as the scans need,
  -- exactly if no entry replaced a version of another epoch than 0, or none deleted one of epoch 0.
  pub transform-AllSorted :
      (s : VertexEdges) (slot : ℕ) (vb : VersionBlock)
      → length (s.tmp_vb slot).tmp_entry ≢ 0
      → AllReachable s (sort (s.tmp_vb slot).tmp_entry)
      → SortedEntries 0 (sort (s.tmp_vb slot).tmp_entry)
      → s.manager.end_epoch < vb.timestamp
      → IsLinked s.manager.end_epoch s.manager.chain
      → AllSorted s.manager.chain
      → (r : VertexEdges × VersionBlock) × (transform sort s slot vb ≡ some r)
        × IsLinked r.0.manager.end_epoch r.0.manager.chain
        × (AllSorted r.0.manager.chain ↔ (
            (old_entries (sort (s.tmp_vb slot).tmp_entry) ≡ [])
            ⊎ (deletions (fresh_entries (sort (s.tmp_vb slot).tmp_entry)) ≡ [])))
  transform-AllSorted s slot vb some_entry reach in_order later linked sorted =
      let (r, run, halves, (to, back), cleared, inactive, same, pushed) =
        transform-SortedRecords sort s slot vb some_entry reach in_order in
      let (to', back') = push_vb-AllSorted s.edge_num s.manager r.1 sorted in
      (
        r,
        run,
        subst (λ (m : Manager). IsLinked m.end_epoch m.chain) (sym pushed)
            (push_vb-IsLinked s.edge_num s.manager r.1 (omega (arith, later, same)) linked),
        (
          λ a. to (to' (subst (λ (m : Manager). AllSorted m.chain) pushed a)),
          λ c. subst (λ (m : Manager). AllSorted m.chain) (sym pushed) (back' (back c)),
        ),
      )
