-- ===== src/Tests/Writes.antt =====
-- The search, the insertion and the deletion at a vertex with one edge.
use avbgraph.EdgeBlock.HashTable2.Clusters.{Clustered}
use avbgraph.EdgeBlock.HashTable2.Insert.{IsValid}
use avbgraph.EdgeBlock.HashTable2.Probe.{contains, count_full}
use avbgraph.EdgeBlock.HashTable2.{HashTable2, empty_slot, hash, get_dest}
use avbgraph.EdgeBlock.VertexEdges.Search.Finds.{
  Rising, get_edge_index-finds, get_edge_index-overruns,
}
use avbgraph.EdgeBlock.VertexEdges.Search.{Place, in_start, in_tmp, scan_tmp, get_edge_index}
use avbgraph.EdgeBlock.VertexEdges.Writes.Guards.{PendingAt, cleared}
use avbgraph.EdgeBlock.VertexEdges.Writes.Insertion.{insert_at-outcome}
use avbgraph.EdgeBlock.VertexEdges.Writes.NewEdge.{insert_edge_block-new}
use avbgraph.EdgeBlock.VertexEdges.Writes.Places.{same_place}
use avbgraph.EdgeBlock.VertexEdges.Writes.Outcomes.{Written, entry_of}
use avbgraph.EdgeBlock.VertexEdges.Writes.Replacement.{written_item, delete_at-outcome}
use avbgraph.EdgeBlock.VertexEdges.Writes.{
  register, item_at, get_intra_c, conflicts, replaced, insert_at, delete_at, insert_edge_block,
}
use avbgraph.EdgeBlock.VertexEdges.{VertexEdges, Writer, Item, blank}
use avbgraph.Prelude.Int.{pos}
use avbgraph.Prelude.{
  ℕ, zero, suc, ◌+◌, ◌*◌, ◌%◌, ◌≤◌, ◌<◌, ◌≡◌, refl, ◌≢◌, ◌⊎◌, true, false, [], ◌∷◌, some, arith,
  ◌==◌, ◌||◌, length, replicate, get_elem?,
}
use avbgraph.Types.{is_delete, strip, mark_deleted, tmpvb_mask}
use avbgraph.Version.Item.{has_tmp_vb}
use avbgraph.Version.Manager.{new}
use avbgraph.Version.Temporary.Room.{Roomy, CanGrow, insert_version-Roomy}
use avbgraph.Version.Temporary.{VersionEntry, TmpVersionBlock, empty, insert_version}

-- Destinations 10, 20 and 30, and the word 40 behind them.
abbrev tens : ℕ → ℕ
tens i = 10 * i + 10

tens-Rising : (n : ℕ) → n < 9 → Rising tens n
unfolding strip
tens-Rising n small i j h k = omega arith

get_edge_index-finds_example :
    ((p : ℕ) → p < 3 → get_edge_index tens 3 (50 ∷ []) (strip (tens p)) ≡ some (in_start p))
    × ((e : ℕ)
        → ((m : ℕ) → m ≤ 3 → strip (tens m) ≢ e)
        → get_edge_index tens 3 (50 ∷ []) e ≡ scan_tmp (50 ∷ []) e 0)
get_edge_index-finds_example =
    get_edge_index-finds tens 3 (50 ∷ []) (omega arith) (tens-Rising 3 (omega arith))

-- The edge to 40 stands in the buffer, and the search answers with the slot behind the block.
get_edge_index-overruns_example :
    get_edge_index tens 3 (40 ∷ []) (strip (tens 3)) ≡ some (in_start 3)
get_edge_index-overruns_example =
    get_edge_index-overruns tens 3 (40 ∷ []) (omega arith) (omega arith)
      (tens-Rising 4 (omega arith))

abbrev version : VersionEntry
version = record {
  offset = 0;
  merge_times = 0;
  last_epoch = 3;
  old_intra_c = 1;
  new_intra_c = 2;
  edge = 7;
  weight = 1;
  link = record { block = 3; index = 0; link = 0 };
}

abbrev full_block : TmpVersionBlock
full_block = record { tmp_num = 8; timestamp = 4; tmp_entry = replicate 8 version }

full_block-CanGrow : CanGrow full_block
full_block-CanGrow = record { room = omega arith; small = omega arith }

insert_version-Roomy_example :
    (idx : ℕ) × (r : TmpVersionBlock) × (insert_version full_block version ≡ some (idx, r))
    × (idx < r.tmp_num)
    × (get_elem? r.tmp_entry idx ≡ some version)
    × Roomy r
    × ((i : ℕ)
        → i < length full_block.tmp_entry
        → get_elem? r.tmp_entry i ≡ get_elem? full_block.tmp_entry i)
insert_version-Roomy_example = insert_version-Roomy full_block version full_block-CanGrow

abbrev pub seven : HashTable2
seven = record { hashtable = empty_slot ∷ 7 ∷ []; entry_counter = 1; hash_block_size = 2 }

seven-Clustered : Clustered 2 seven.hashtable
unfolding hash
seven-Clustered zero h used = absurd (used refl)
seven-Clustered (suc zero) h used = λ m hm d. absurd (omega arith)
seven-Clustered (suc (suc p)) h used = absurd (omega arith)

pub seven-IsValid : IsValid seven
unfolding count_full
seven-IsValid = record {
  width = refl;
  bits = 1;
  power = refl;
  large = omega arith;
  counted = omega arith;
  load = omega arith;
  reach = seven-Clustered;
}

-- The edge to 7 was written in epoch 3.
abbrev edge_7 : Item
edge_7 = (record { e = 7; block = 3; index = 1 }, record { e = 1; block = 0; index = 0 })

abbrev pub vertex : VertexEdges
vertex = record {
  start = edge_7 ∷ [];
  behind = 0;
  capacity = 1;
  tmp_item = replicate 64 blank;
  tmp_ev = 0;
  merge_times = 0;
  num = 1;
  edge_num = pos 1;
  destinations = seven;
  manager = new;
  tmp_vb = λ k. empty;
  active_tvb_mask = λ k. false;
}

abbrev pub writer : Writer
writer = record {
  write_only = true;
  read_epoch = 3;
  intra_c = 0;
  intra_counter = 5;
  vb_vector = [];
  edge_blocks = 0;
}

pub empty-CanGrow : CanGrow empty
unfolding empty
empty-CanGrow = record { room = omega arith; small = omega arith }

nothing_pending : (old : ℕ × ℕ × ℕ) → PendingAt vertex edge_7 old 4
unfolding has_tmp_vb
nothing_pending (e, i, t) is_tmp late = absurd (cc)

insert_edge_block-new_example :
    (r : VertexEdges) × (t : Writer) × (insert_edge_block (λ xs. xs) 0 0 vertex 9 2 4 writer
      ≡ some (true, r, t))
    × (r.tmp_ev ≡ 0 + 1)
    × ((item_at r (in_tmp 0)).0
        ≡ record { e = 9; block = 4 % tmpvb_mask + tmpvb_mask; index = (get_intra_c writer).0 })
    × ((q : Place) → same_place (in_tmp 0) q ≡ false → item_at r q ≡ item_at vertex q)
    × IsValid r.destinations
    × ((q : ℕ)
        → q ≢ empty_slot
        → get_dest r.destinations q ≡ some (q == 9 || contains seven.hashtable q))
unfolding contains
insert_edge_block-new_example =
    insert_edge_block-new (λ xs. xs) 0 0 vertex 9 2 4 writer seven-IsValid (omega arith)
      (omega arith) refl (omega arith) refl empty-CanGrow

delete_at-outcome_example :
    (r : VertexEdges) × (t : Writer) × (((conflicts writer (replaced edge_7 false).0 4 ≡ true)
        × (delete_at vertex (in_start 0) 7 0 4 writer ≡ some (false, r, t))
        × ((r, t) ≡ register vertex 4 writer)
        × ((q : Place) → item_at r q ≡ item_at vertex q))
      ⊎ ((conflicts writer (replaced edge_7 false).0 4 ≡ false)
          × (delete_at vertex (in_start 0) 7 0 4 writer ≡ some (true, r, t))
          × (idx : ℕ) × Written vertex r
              (in_start 0)
              (written_item edge_7 (mark_deleted 7) 4 (get_intra_c writer).0 0)
              4
              idx
              (entry_of vertex
                (in_start 0)
                (mark_deleted 7)
                0
                (replaced edge_7 false)
                (get_intra_c writer).0)))
delete_at-outcome_example =
    delete_at-outcome vertex (in_start 0) 7 0 4 writer (omega arith) empty-CanGrow
      (nothing_pending (replaced edge_7 false))

insert_at-outcome_example :
    (r : VertexEdges) × (t : Writer) × (((conflicts writer (replaced edge_7 (is_delete 7)).0 4
          ≡ true)
        × (insert_at vertex (in_start 0) 7 5 4 writer ≡ some (false, r, t))
        × ((r, t) ≡ register (cleared vertex (in_start 0)) 4 writer)
        × ((q : Place) → item_at r q ≡ item_at vertex q))
      ⊎ ((conflicts writer (replaced edge_7 (is_delete 7)).0 4 ≡ false)
          × (insert_at vertex (in_start 0) 7 5 4 writer ≡ some (true, r, t))
          × (idx : ℕ) × Written vertex r
              (in_start 0)
              (written_item edge_7 (strip 7) 4 (get_intra_c writer).0 idx)
              4
              idx
              (entry_of vertex
                (in_start 0)
                7
                5
                (replaced edge_7 (is_delete 7))
                (get_intra_c writer).0)))
insert_at-outcome_example =
    insert_at-outcome vertex (in_start 0) 7 5 4 writer (omega arith) empty-CanGrow (omega arith)
      (nothing_pending (replaced edge_7 (is_delete 7)))
