-- ===== src/Algorithm.antt =====
-- algorithm: the computations on the graph. A table of one entry for each vertex is a function of
-- the vertex; the parallel loops are run in the order of the vertices.
pub mod Cdlp
pub mod Wcc
pub mod Lcc
pub mod Bfs
