-- ===== src/EdgeBlock/VertexEdges/Build.antt =====
-- data-structure/EdgeBlock/VertexEdges.{h,cpp}: a vertex as its constructor leaves it, and build,
-- the bulk load of its edges. The marks of the temporary version blocks that point back to their
-- vertex are left out.
pub mod Loaded
use avbgraph.EdgeBlock.HashTable2.{HashTable2, set_dest}
use avbgraph.EdgeBlock.HashTable2
use avbgraph.EdgeBlock.VertexEdges.{VertexEdges, Item}
use avbgraph.Prelude.Int.{pos}
use avbgraph.Prelude.{◌>>=◌, ℕ, ◌≡◌, false, List, [], ◌∷◌, Option, none, some, map, length}
use avbgraph.Version.Manager
use avbgraph.Version.Temporary.{empty}

-- `num`, `tmp_item` and the word behind the block are not set by the constructor; build sets the
-- first two, and nothing reads the third in an empty block.
unfoldable pub new_vertex_edges : VertexEdges
unfolding HashTable2.new Manager.new empty
new_vertex_edges = record {
  start = [];
  behind = 0;
  capacity = 0;
  tmp_item = [];
  tmp_ev = 0;
  merge_times = 0;
  num = 0;
  edge_num = pos 0;
  destinations = HashTable2.new;
  manager = Manager.new;
  tmp_vb = λ _. empty;
  active_tvb_mask = λ _. false;
}

-- An edge with its property, as the two arrays give them.
abbrev pub loaded_item : ℕ × ℕ → Item
loaded_item (edge, property) =
    (record { e = edge; block = 0; index = 0 }, record { e = property; block = 0; index = 0 })

-- The property halves follow the edge halves in one array, so that the word behind the block is the
-- first property.
unfoldable pub word_behind : ℕ → List (ℕ × ℕ) → ℕ
word_behind old [] = old
word_behind old ((edge, property) ∷ rest) = property

-- The calls of setDestHashTableVal in the loop.
unfoldable pub register_all : HashTable2 → List (ℕ × ℕ) → Option HashTable2
register_all t [] = some t
register_all t ((edge, property) ∷ rest) = set_dest t edge >>= λ d. register_all d rest

-- The two arrays are a list of pairs. `fresh` is what stands in the memory of the new buffer.
unfoldable pub build : VertexEdges → List (ℕ × ℕ) → List Item → Option VertexEdges
unfolding word_behind register_all
build s edges fresh = register_all s.destinations edges >>= λ d. some (record s {
  start = map loaded_item edges;
  behind = word_behind s.behind edges;
  capacity = length edges;
  num = length edges;
  tmp_item = fresh;
  destinations = d;
})
