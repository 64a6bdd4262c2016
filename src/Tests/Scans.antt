-- ===== src/Tests/Scans.antt =====
-- Scans of a vertex with the edges to 3 and 7.
use avbgraph.EdgeBlock.VertexEdges.Scan.Condition.{
  for_each_edge_condition, until, for_each_edge_condition-until,
}
use avbgraph.EdgeBlock.VertexEdges.Scan.Exact.{
  AllRising, live_edges, valid_slots, all_reports, for_each_edge_lem,
}
use avbgraph.EdgeBlock.VertexEdges.Scan.Misses.{
  own_visible, for_each_edge_misses, for_each_edge_leaks,
}
use avbgraph.EdgeBlock.VertexEdges.Scan.{
  scan_slots, scan_entries, iterate_edges, for_each_edge, records,
}
use avbgraph.EdgeBlock.VertexEdges.Sorted.Merged.{Rises, reaches, for_each_edge_sorted-reaches}
use avbgraph.EdgeBlock.VertexEdges.Sorted.{visible_tmp, for_each_edge_sorted}
use avbgraph.EdgeBlock.VertexEdges.{VertexEdges, Item}
use avbgraph.Prelude.Int.{pos}
use avbgraph.Prelude.{
  if◌then◌else◌, Bool-cases, inl, inr, ◌+◌, ◌^◌, ℕ, ◌≡◌, refl, Bool, false, ◌||◌, ◌==◌, List, [],
  ◌∷◌, ◌++◌, map, take, some, arith,
}
use avbgraph.Tests.Merges.{merging}
use avbgraph.Types.{Composite, lt, le, is_delete}
use avbgraph.Version.Item.{
  EdgeWithIndex, set_edge_fg, is_visible_at, get_link_block, is_visible_at_composite,
  is_visible_within, created, get_coarse_c,
}
use avbgraph.Version.Manager.{VersionBlock, Manager}
use avbgraph.Version.Temporary.{VersionEntry, TmpVersionBlock, empty}

-- A record of a version: its destination, when it was created, and when it was replaced.
abbrev record_of : ℕ → ℕ → ℕ → ℕ → Item
record_of d epoch intra inv =
    (record { e = d; block = epoch; index = intra }, record { e = 0; block = 0; index = inv })

abbrev chain_of : ℕ → List VersionBlock → Manager
chain_of end blocks = record { end_epoch = end; chain = blocks; vb_index = [] }

-- In epoch 5 the edge to 3 was replaced at time 3 and the edge to 7 at time 9.
abbrev own_block : VersionBlock
own_block = record {
  edge_num = pos 2;
  timestamp = 5;
  last_epoch = 0;
  start = some (record_of 3 1 0 3 ∷ record_of 7 2 0 9 ∷ []);
}

abbrev vertex : VertexEdges
vertex = record merging {
  start = record_of 3 5 3 0 ∷ record_of 7 5 9 0 ∷ [];
  tmp_ev = 0;
  manager = chain_of 5 (own_block ∷ []);
}

abbrev reader : Composite
reader = record { e = 5; i = 5 }

for_each_edge_misses_example :
    (for_each_edge reader vertex ≡ iterate_edges reader vertex)
    × (own_visible reader (records own_block) ≡ record { e = 7; block = 2; index = 0 } ∷ [])
unfolding is_visible_within created get_coarse_c lt le
for_each_edge_misses_example =
    for_each_edge_misses reader vertex own_block (record_of 3 1 0 3) (record_of 7 2 0 9) refl refl
      refl refl (omega arith) refl (omega arith, omega arith, (omega arith, omega arith, tt)) refl
      refl

-- In epoch 5 the edge to 3 was replaced at time 9, and in epoch 6 again.
abbrev early_block : VersionBlock
early_block = record {
  edge_num = pos 1;
  timestamp = 5;
  last_epoch = 0;
  start = some (record_of 3 1 0 9 ∷ []);
}

abbrev later_block : VersionBlock
later_block = record {
  edge_num = pos 1;
  timestamp = 6;
  last_epoch = 5;
  start = some (record_of 3 5 9 1 ∷ []);
}

abbrev rewritten : VertexEdges
rewritten = record merging {
  start = record_of 3 6 1 0 ∷ [];
  tmp_ev = 0;
  manager = chain_of 6 (later_block ∷ early_block ∷ []);
}

for_each_edge_leaks_example :
    (is_visible_at_composite (record { e = 3; block = 5; index = 9 }) reader ≡ false)
    × (for_each_edge reader rewritten
        ≡ iterate_edges reader rewritten
          ++ (record { e = 3; block = 5; index = 9 } ∷ record { e = 3; block = 1; index = 0 } ∷ []))
unfolding is_visible_within created get_coarse_c lt le
for_each_edge_leaks_example =
    for_each_edge_leaks reader rewritten later_block early_block (record_of 3 5 9 1)
      (record_of 3 1 0 9) refl refl (omega arith) refl refl refl (omega arith) (omega arith) refl
      refl (omega arith, omega arith, tt) refl (omega arith) refl

-- In the running epoch 7 the edge to 3 was replaced at time 2, and the edge to 9 deleted at time 4.
abbrev replaced_at : ℕ → ℕ → VersionEntry
replaced_at e intra = record {
  offset = 0;
  merge_times = 0;
  last_epoch = 4;
  old_intra_c = 1;
  new_intra_c = intra;
  edge = e;
  weight = 1;
  link = record { block = 0; index = 0; link = 0 };
}

abbrev running : TmpVersionBlock
running = record {
  tmp_num = 8;
  timestamp = 7;
  tmp_entry = replaced_at 3 2 ∷ replaced_at (2 ^ 63 + 9) 4 ∷ [];
}

abbrev rewriting : VertexEdges
rewriting = record rewritten {
  tmp_vb = λ k. if k == 7 then running else empty;
  active_tvb_mask = λ k. k == 7;
}

rewriting-AllRising : AllRising rewriting
unfolding empty
rewriting-AllRising idx = elim (Bool-cases (idx == 7)) [
  | inl here ↦ rw here (omega arith, (omega arith, tt))
  | inr other ↦ rw other tt
]

-- The scan hands on the version of the first entry.
running_version : scan_slots reader rewriting 16 0 ≡ record { e = 3; block = 4; index = 1 } ∷ []
unfolding scan_slots scan_entries set_edge_fg empty lt le is_delete
running_version = refl

for_each_edge_lem_example :
    for_each_edge reader rewriting
    ≡ (live_edges reader (take 0 rewriting.tmp_item)
        ++ (live_edges reader rewriting.start ++ valid_slots reader rewriting 16 0))
      ++ all_reports reader rewriting.manager.chain
for_each_edge_lem_example =
    for_each_edge_lem reader rewriting rewriting-AllRising
      (refl, omega arith, (refl, omega arith, refl))
      ((omega arith, omega arith, tt), ((omega arith, omega arith, tt), tt))

abbrev to_seven : EdgeWithIndex → Bool
to_seven x = x.e == 7

for_each_edge_condition-until_example :
    for_each_edge_condition to_seven reader vertex ≡ until to_seven (for_each_edge reader vertex)
for_each_edge_condition-until_example = for_each_edge_condition-until to_seven reader vertex

-- A block with the edges to 3 and 7, and a buffer with the edges to 5 and 7 of which the block has
-- the second too.
abbrev buffered : VertexEdges
buffered = record merging {
  start = record_of 3 1 0 0 ∷ record_of 7 2 0 0 ∷ [];
  tmp_item = record_of 5 4 0 0 ∷ record_of 7 4 0 0 ∷ [];
  tmp_ev = 2;
}

abbrev keep_order : List EdgeWithIndex → List EdgeWithIndex
keep_order xs = xs

for_each_edge_sorted-reaches_example :
    Rises 0 (for_each_edge_sorted keep_order 5 buffered)
    × ((k : ℕ)
        → reaches (for_each_edge_sorted keep_order 5 buffered) k ≡ (
            reaches (map (λ (x : Item). x.0) buffered.start) k
            || reaches (visible_tmp 5 (take 2 buffered.tmp_item)) k))
unfolding visible_tmp is_visible_at get_link_block is_delete
for_each_edge_sorted-reaches_example =
    for_each_edge_sorted-reaches keep_order 5 buffered (refl, refl, (refl, refl, tt))
      (omega arith, omega arith, (omega arith, omega arith, tt))
      (omega arith, omega arith, (omega arith, omega arith, tt)) (λ k. refl)

-- Of the edges to 3, created in epoch 6, and to 7, a reader of epoch 5 is told both.
abbrev unbuffered : VertexEdges
unbuffered = record merging { start = record_of 3 6 0 0 ∷ record_of 7 2 0 0 ∷ []; tmp_ev = 0 }
