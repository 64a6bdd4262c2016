-- ===== src/Tests/Stores.antt =====
-- The bulk load of a vertex, and a store with one vertex.
use avbgraph.EdgeBlock.GraphStore.Vertices.{IsValid, new_vertex-keeps, insert_edge_block-keeps}
use avbgraph.EdgeBlock.GraphStore.{
  VertexEntry, ConcurrentVector, GraphStore, vertex_at, check_degree, check_degree_at,
  insert_edge_block, new_vertex,
}
use avbgraph.EdgeBlock.HashTable2.Insert
use avbgraph.EdgeBlock.HashTable2.Probe.{contains}
use avbgraph.EdgeBlock.HashTable2.{empty_slot, get_dest}
use avbgraph.EdgeBlock.VertexEdges.Build.Loaded.{keys, Words, build-Loaded}
use avbgraph.EdgeBlock.VertexEdges.Build.{new_vertex_edges, loaded_item, build}
use avbgraph.EdgeBlock.VertexEdges.Scan.{for_each_edge}
use avbgraph.EdgeBlock.VertexEdges.{VertexEdges, Writer, blank}
use avbgraph.Prelude.{
  ℕ, zero, suc, ◌+◌, ◌-◌, ◌≤◌, ◌<◌, ◌≡◌, refl, ◌≢◌, ◌||◌, true, List, [], ◌∷◌, ◌++◌, some, none,
  map, ◌==◌, arith, mem, length, replicate, get_elem?, length-append, length-replicate,
}
use avbgraph.Tests.Writes.{seven, seven-IsValid, vertex, writer, empty-CanGrow}
use avbgraph.Types.{Composite}
use avbgraph.Version.Manager.{get_degree}

abbrev two_edges : List (ℕ × ℕ)
two_edges = (5, 100) ∷ (3, 200) ∷ []

two_edges-Words : Words two_edges
two_edges-Words e h = ground arith

build-Loaded_example :
    (r : VertexEdges) × (build new_vertex_edges two_edges (replicate 64 blank) ≡ some r)
    × Insert.IsValid r.destinations
    × ((q : ℕ) → q ≢ empty_slot → get_dest r.destinations q ≡ some (mem q (keys two_edges)))
    × (r.num ≡ length two_edges)
    × ((epoch : ℕ) → get_degree (r.edge_num, r.manager) epoch ≡ some 0)
    × ((q : Composite)
        → 0 < q.e
        → for_each_edge q r ≡ map (λ (x : ℕ × ℕ). (loaded_item x).0) two_edges)
build-Loaded_example = build-Loaded two_edges (replicate 64 blank) two_edges-Words (omega arith)

abbrev grow : List VertexEntry → ℕ → List VertexEntry
grow xs n = xs ++ replicate (n - length xs) none

length-grow : (xs : List VertexEntry) (n : ℕ) → n ≤ length (grow xs n)
length-grow xs n = omega (
  arith,
  length-append xs (replicate (n - length xs) none),
  length-replicate {A = VertexEntry} (n - length xs) none,
)

get_elem?-append :
    (xs ys : List VertexEntry) (i : ℕ) → i < length xs → get_elem? (xs ++ ys) i ≡ get_elem? xs i
get_elem?-append [] ys i h = absurd (omega arith)
get_elem?-append (x ∷ xs) ys zero h = refl
get_elem?-append (x ∷ xs) ys (suc i) h = get_elem?-append xs ys i (omega arith)

abbrev vector : ConcurrentVector
vector = record {
  resize = λ n. replicate n none;
  grow_to_at_least = grow;
  length-resize = λ n. length-replicate n none;
  length-grow = length-grow;
  get_elem?-grow = λ xs n i h. get_elem?-append xs _ i h;
}

abbrev store : GraphStore
store = record { blocks = some vertex ∷ []; node_num = 1 }

store-IsValid : IsValid store
unfolding vertex_at
store-IsValid = record { counted = omega arith; served = in_table }
  where
    in_table :
        (v : ℕ)
        → v < 1
        → (s : VertexEdges) × (vertex_at store v ≡ some s) × Insert.IsValid s.destinations
    in_table zero h = (vertex, refl, seven-IsValid)
    in_table (suc v) h = absurd (omega arith)

new_vertex-keeps_example :
    (r : GraphStore) × (new_vertex vector store (replicate 64 blank) ≡ some (1, r))
    × (r.node_num ≡ 1 + 1)
    × ((s : VertexEdges) × (vertex_at r 1 ≡ some s)
        × ((q : Composite) → 0 < q.e → for_each_edge q s ≡ []))
    × (check_degree r 1 ≡ some 0)
    × ((epoch : ℕ) → check_degree_at r 1 epoch ≡ some 0)
    × ((u : ℕ) → u < 1 → vertex_at r u ≡ vertex_at store u)
    × IsValid r
new_vertex-keeps_example =
    new_vertex-keeps vector store (replicate 64 blank) store-IsValid (omega arith)

insert_edge_block-keeps_example :
    (r : GraphStore) × (t : Writer) × (insert_edge_block (λ xs. xs) 0 0 store 0 9 2 4 writer
      ≡ some (true, r, t))
    × ((s' : VertexEdges) × (vertex_at r 0 ≡ some s')
        × ((q : ℕ)
            → q ≢ empty_slot
            → get_dest s'.destinations q ≡ some (q == 9 || contains seven.hashtable q)))
    × ((u : ℕ) → u ≢ 0 → vertex_at r u ≡ vertex_at store u)
    × (r.node_num ≡ 1)
    × IsValid r
unfolding vertex_at contains
insert_edge_block-keeps_example =
    insert_edge_block-keeps (λ xs. xs) 0 0 store 0 vertex 9 2 4 writer store-IsValid (omega arith)
      refl (omega arith) (omega arith) refl (omega arith) refl empty-CanGrow
