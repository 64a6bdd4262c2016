-- ===== src/EdgeBlock.antt =====
-- data-structure/EdgeBlock: the adjacency of a vertex, its index of destinations, and the table of
-- the vertices.
pub mod HashTable2
pub mod VertexEdges
pub mod GraphStore
