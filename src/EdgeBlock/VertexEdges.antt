-- ===== src/EdgeBlock/VertexEdges.antt =====
-- data-structure/EdgeBlock/VertexEdges.{h,cpp}, class VertexEdges, in the build with FINEGRAIN, and
-- the parts of Transaction/Transaction.{h,cpp} that a write uses: the insertion and the deletion of
-- an edge. The two halves of an edge, `start[i]` and `start[i + capacity]` or `tmp_item[i]` and
-- `tmp_item[i + TMPNUM]`, are a pair. Locks are left out: a handler runs under the write lock of
-- its vertex. `none` is a loop that ran out of fuel, or an access that the code must not make.
pub mod Search
pub mod Merge
pub mod Writes
pub mod Scan
pub mod Sorted
pub mod Transform
pub mod Build
use avbgraph.EdgeBlock.HashTable2.{HashTable2}
use avbgraph.Prelude.Int.{ℤ}
use avbgraph.Prelude.{
  ◌>>=◌, ℕ, ◌+◌, ◌%◌, ◌^◌, ◌≡◌, Bool, List, Option, none, some, map, take, length, get_or, set,
  if◌then◌else◌,
}
use avbgraph.Types.{strip}
use avbgraph.Version.Item.{EdgeWithIndex}
use avbgraph.Version.Manager.{Manager}
use avbgraph.Version.Temporary.{TmpVersionBlock}

-- TMPNUM
abbrev pub tmp_num : ℕ
tmp_num = 64

-- An edge half with its property half.
abbrev pub Item : Type 0
Item = EdgeWithIndex × EdgeWithIndex

-- `start` holds the slots up to `edges_and_versions`; `behind` is the word in the slot after them.
-- `tmp_item` is the whole buffer, of which the first `tmp_ev` slots are in use.
pub record VertexEdges : Type 0 where
  pub start : List Item
  pub behind : ℕ
  pub capacity : ℕ
  pub tmp_item : List Item
  pub tmp_ev : ℕ
  pub merge_times : ℕ
  pub num : ℕ
  pub edge_num : ℤ
  pub destinations : HashTable2
  pub manager : Manager
  pub tmp_vb : ℕ → TmpVersionBlock
  pub active_tvb_mask : ℕ → Bool

-- A write transaction with the data of its epoch: the counter of intra-epoch times, the registered
-- temporary version blocks by their slots, and the number of vertices that it keeps locked.
pub record Writer : Type 0 where
  pub write_only : Bool
  pub read_epoch : ℕ
  pub intra_c : ℕ
  pub intra_counter : ℕ
  pub vb_vector : List ℕ
  pub edge_blocks : ℕ

abbrev pub blank : Item
blank = (record { e = 0; block = 0; index = 0 }, record { e = 0; block = 0; index = 0 })

-- The word that a search reads at a slot of the block.
abbrev pub key_at : VertexEdges → ℕ → ℕ
key_at s i = (get_or s.start i (record { e = s.behind; block = 0; index = 0 }, blank.1)).0.e

-- The destinations in the buffer.
abbrev pub tmp_keys : VertexEdges → List ℕ
tmp_keys s = take s.tmp_ev (map (λ (x : Item). x.0.e) s.tmp_item)
