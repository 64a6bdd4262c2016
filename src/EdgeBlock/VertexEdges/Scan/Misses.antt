-- ===== src/EdgeBlock/VertexEdges/Scan/Misses.antt =====
-- A reader inside an epoch that has been published since, as get_read_txn makes them with
-- set_read_ts(Composite(re + 1, …)): what the loops over the version blocks miss and repeat.
use avbgraph.EdgeBlock.VertexEdges.Scan.Exact.{AllSorted, all_reports, iterated-reports}
use avbgraph.EdgeBlock.VertexEdges.Scan.Order.{SortedRecords}
use avbgraph.EdgeBlock.VertexEdges.Scan.{iterate_edges, records, scan_own, for_each_edge}
use avbgraph.EdgeBlock.VertexEdges.{VertexEdges, Item}
use avbgraph.Prelude.{
  ◌≤◌, ◌<◌, ◌≡◌, ◌^◌, ◌%◌, refl, ap, ◌∙◌, true, false, List, [], ◌∷◌, ◌++◌, map, select, some, leb,
  ltb, ◌==◌, arith, append_nil,
}
use avbgraph.Types.{Composite, lt}
use avbgraph.Version.Item.{
  EdgeWithIndex, is_visible_within, is_visible_at_composite, created, get_coarse_c,
}
use avbgraph.Version.Manager.Chain.{IsLinked}
use avbgraph.Version.Manager.{VersionBlock}

-- The records of a block of the reader's epoch that the reader sees.
abbrev pub own_visible : Composite → List Item → List EdgeWithIndex
own_visible q xs =
    map (λ (x : Item). x.0)
      (select (λ (x : Item). is_visible_within x.0 q (record { e = q.e; i = x.1.index })) xs)

scan_own_first :
    (q : Composite) (x y : Item)
    → is_visible_within x.0 q (record { e = q.e; i = x.1.index }) ≡ false
    → is_visible_within y.0 q (record { e = q.e; i = y.1.index }) ≡ true
    → (scan_own q (x ∷ y ∷ []) ≡ []) × (own_visible q (x ∷ y ∷ []) ≡ y.0 ∷ [])
unfolding scan_own
scan_own_first q x y gone there = (rw gone refl, rw (gone, there) refl)

-- Two edges `x` and `y` of a vertex whose one version block is of the reader's epoch: `x` was
-- replaced before the reader and `y` after it, and `x` is the older, so that its record comes
-- first. The reader sees the record of `y`, but the scan reports nothing of the block.
pub for_each_edge_misses :
    (q : Composite) (s : VertexEdges) (vb : VersionBlock) (x y : Item)
    → s.manager.chain ≡ vb ∷ []
    → s.manager.end_epoch ≡ vb.timestamp
    → vb.timestamp ≡ q.e
    → vb.last_epoch ≡ 0
    → 0 < q.e
    → vb.start ≡ some (x ∷ y ∷ [])
    → SortedRecords 0 (x ∷ y ∷ [])
    → is_visible_within x.0 q (record { e = q.e; i = x.1.index }) ≡ false
    → is_visible_within y.0 q (record { e = q.e; i = y.1.index }) ≡ true
    → (for_each_edge q s ≡ iterate_edges q s) × (own_visible q (records vb) ≡ y.0 ∷ [])
unfolding for_each_edge
for_each_edge_misses q s vb x y chain end own last up start sorted gone there =
    let (nothing, one) = scan_own_first q x y gone there in
    let linked : IsLinked s.manager.end_epoch s.manager.chain =
      rw (chain, end, own, last) (refl, up, refl) in
    let all_sorted : AllSorted s.manager.chain = rw (chain, start) (sorted, tt) in
    let same : (vb.timestamp == q.e) ≡ true = ground arith in
    let now : ltb q.e vb.timestamp ≡ false = ground arith in
    let none_of : all_reports q s.manager.chain ≡ [] =
      rw (chain, now, same, start) (rw nothing refl) in
    (
      ap (λ (l : List EdgeWithIndex). iterate_edges q s ++ l)
            (iterated-reports q s.manager linked all_sorted ∙ none_of)
          ∙ append_nil (iterate_edges q s),
      rw start one,
    )

scan_own_one :
    (q : Composite) (y : Item)
    → is_visible_within y.0 q (record { e = q.e; i = y.1.index }) ≡ true
    → scan_own q (y ∷ []) ≡ y.0 ∷ []
unfolding scan_own
scan_own_one q y there = rw there refl

created_late :
    (q : Composite) (x : EdgeWithIndex)
    → x.block ≡ q.e
    → q.i ≤ x.index
    → q.e < 2 ^ 31
    → is_visible_at_composite x q ≡ false
unfolding is_visible_at_composite created get_coarse_c lt
created_late q x epoch later small =
    let same : x.block % 2 ^ 31 ≡ q.e = omega (arith, epoch, small) in
    rw same (ground (arith, later))

-- A version `x` that was created in the reader's epoch, not before the reader, and replaced in the
-- next epoch that wrote to the vertex; `y` is the version before it, which the reader sees. The
-- reader must not see `x`, but the scan hands on both, `x` first.
pub for_each_edge_leaks :
    (q : Composite) (s : VertexEdges) (later own : VersionBlock) (x y : Item)
    → s.manager.chain ≡ later ∷ own ∷ []
    → s.manager.end_epoch ≡ later.timestamp
    → q.e < later.timestamp
    → later.last_epoch ≡ own.timestamp
    → own.timestamp ≡ q.e
    → own.last_epoch ≡ 0
    → 0 < q.e
    → q.e < 2 ^ 31
    → later.start ≡ some (x ∷ [])
    → own.start ≡ some (y ∷ [])
    → SortedRecords 0 (y ∷ [])
    → x.0.block ≡ q.e
    → q.i ≤ x.0.index
    → is_visible_within y.0 q (record { e = q.e; i = y.1.index }) ≡ true
    → (is_visible_at_composite x.0 q ≡ false)
      × (for_each_edge q s ≡ iterate_edges q s ++ (x.0 ∷ y.0 ∷ []))
unfolding for_each_edge
for_each_edge_leaks q s later own x y chain end after next now last up small xs ys sorted epoch late
      there =
    let linked : IsLinked s.manager.end_epoch s.manager.chain =
      rw (chain, end, next, now, last) (refl, after, (refl, up, refl)) in
    let one : SortedRecords 0 (x ∷ []) = (omega arith, omega (arith, epoch, small), tt) in
    let all_sorted : AllSorted s.manager.chain = rw (chain, xs, ys) (one, (sorted, tt)) in
    let past : ltb q.e later.timestamp ≡ true = ground (arith, after) in
    let here : ltb q.e own.timestamp ≡ false = ground (arith, now) in
    let same : (own.timestamp == q.e) ≡ true = ground (arith, now) in
    let old : leb x.0.block q.e ≡ true = ground (arith, epoch) in
    let both : all_reports q s.manager.chain ≡ x.0 ∷ y.0 ∷ [] =
      rw (chain, past, here, same, xs, ys) (rw (old, scan_own_one q y there) refl) in
    (
      created_late q x.0 epoch late small,
      ap (λ (l : List EdgeWithIndex). iterate_edges q s ++ l)
          (iterated-reports q s.manager linked all_sorted ∙ both),
    )
