-- ===== src/EdgeBlock/GraphStore.antt =====
-- data-structure/EdgeBlock/GraphStore.{h,cpp}: the table of the vertices. The locks are left out:
-- an operation runs under the lock that the code takes for it. `none` is an access to a slot that
-- the table does not have or that holds no vertex, or a growth that cannot be served.
pub mod Vertices
use avbgraph.EdgeBlock.VertexEdges
use avbgraph.EdgeBlock.VertexEdges.Build.{new_vertex_edges, build}
use avbgraph.EdgeBlock.VertexEdges.Writes
use avbgraph.EdgeBlock.VertexEdges.{VertexEdges, Writer, Item}
use avbgraph.Prelude.Int.{ℤ}
use avbgraph.Prelude.{
  ◌>>=◌, ℕ, ◌+◌, ◌*◌, ◌%◌, ◌^◌, ◌≤◌, ◌<◌, ◌≡◌, max, Bool, List, [], Option, none, some, ltb, leb,
  if◌then◌else◌, get_elem?, length, set,
}
use avbgraph.Version.Manager.{get_degree}

-- VertexEntry: a vertex, or the null pointer.
abbrev pub VertexEntry : Type 0
VertexEntry = Option VertexEdges

-- What the store uses of tbb::concurrent_vector: the elements that a resize of an empty vector and
-- a growth make are empty entries, and a growth keeps the elements that it finds.
pub record ConcurrentVector : Type 0 where
  pub resize : ℕ → List VertexEntry
  pub grow_to_at_least : List VertexEntry → ℕ → List VertexEntry
  pub length-resize : (n : ℕ) → length (resize n) ≡ n
  pub length-grow : (xs : List VertexEntry) (n : ℕ) → n ≤ length (grow_to_at_least xs n)
  pub get_elem?-grow :
      (xs : List VertexEntry) (n i : ℕ)
      → i < length xs
      → get_elem? (grow_to_at_least xs n) i ≡ get_elem? xs i

-- `node_num` is an `int` as its word of 32 bits.
pub record GraphStore : Type 0 where
  pub blocks : List VertexEntry
  pub node_num : ℕ

-- `blocks[v].eb->`
unfoldable pub vertex_at : GraphStore → ℕ → Option VertexEdges
vertex_at g v = get_elem? g.blocks v >>= λ entry. entry

-- SetBlockByIndex with a vertex.
unfoldable pub set_block_by_index : GraphStore → ℕ → VertexEdges → Option GraphStore
set_block_by_index g v s =
    if ltb v (length g.blocks) then some (record g { blocks = set g.blocks v (some s) }) else none

-- SetBlockByIndex with the edges of a vertex.
unfoldable pub load_block_by_index : GraphStore → ℕ → List (ℕ × ℕ) → List Item → Option GraphStore
unfolding set_block_by_index
load_block_by_index g v edges fresh = build new_vertex_edges edges fresh >>= set_block_by_index g v

unfoldable pub check_degree : GraphStore → ℕ → Option ℕ
unfolding vertex_at
check_degree g v = vertex_at g v >>= λ s. some s.num

-- check_degree at an epoch.
unfoldable pub check_degree_at : GraphStore → ℕ → ℕ → Option ℕ
unfolding vertex_at
check_degree_at g v epoch = vertex_at g v >>= λ s. get_degree (s.edge_num, s.manager) epoch

-- A handler of the vertex `v`, with its answer.
unfoldable pub at_vertex :
    GraphStore
    → ℕ
    → (VertexEdges → Option (Bool × VertexEdges × Writer))
    → Option (Bool × GraphStore × Writer)
unfolding vertex_at
at_vertex g v handler = vertex_at g v >>= λ s. handler s >>= λ answer.
    some (answer.0, record g { blocks = set g.blocks v (some answer.1) }, answer.2)

-- The array `edge` of both handlers is `v`, the destination and the property.
module _ (sort : List Item → List Item) (oldest behind : ℕ) where
  unfoldable pub insert_edge_block :
      GraphStore → ℕ → ℕ → ℕ → ℕ → Writer → Option (Bool × GraphStore × Writer)
  unfolding at_vertex
  insert_edge_block g v edge property epoch txn =
      at_vertex g v (λ s. Writes.insert_edge_block sort oldest behind s edge property epoch txn)

  unfoldable pub delete_edge_block :
      GraphStore → ℕ → ℕ → ℕ → ℕ → Writer → Option (Bool × GraphStore × Writer)
  unfolding at_vertex
  delete_edge_block g v edge property epoch txn =
      at_vertex g v (λ s. Writes.delete_edge_block sort oldest behind s edge property epoch txn)

module _ (vector : ConcurrentVector) where
  open vector use {resize, grow_to_at_least}

  unfoldable pub new_store : ℕ → GraphStore
  new_store block_count = record { blocks = resize block_count; node_num = 0 }

  -- `if (blocks.size() <= v) blocks.grow_to_at_least(grown_size, VertexEntry())`
  unfoldable pub reserve_slot : List VertexEntry → ℕ → List VertexEntry
  reserve_slot blocks v =
      if leb (length blocks) v
      then grow_to_at_least blocks (max (v + 1) (length blocks * 2))
      else blocks

  -- A negative count is no index: as a `size_t` it asks for a table of almost 2^64 slots. `fresh`
  -- is the memory of the new vertex's buffer.
  unfoldable pub new_vertex : GraphStore → List Item → Option (ℕ × GraphStore)
  unfolding reserve_slot set_block_by_index
  new_vertex g fresh = build new_vertex_edges [] fresh >>= λ eb.
      let v = g.node_num in
      (if leb (2 ^ 31) v
        then none
        else (set_block_by_index
              (record { blocks = reserve_slot g.blocks v; node_num = (v + 1) % 2 ^ 32 }) v eb
            >>= λ r. some (v, r)))
