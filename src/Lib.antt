-- ===== src/Lib.antt =====
-- AVBGraph: a dynamic graph store with multi-version concurrency control.
--
-- The program keeps, for every vertex, its newest edges (data-structure/EdgeBlock) and a chain of
-- version blocks, one for each epoch in which the vertex changed, that undo the changes for readers
-- of older epochs (data-structure/VersionBlock/VertexVersionBlock). A manager of epochs
-- (data-structure/VersionBlock/AllVBManager) hands out epochs to write transactions, publishes an
-- epoch when its writers are gone, and deletes version blocks that no reader needs. Paths below are
-- relative to data-structure/ unless they start from another directory of the repository's root.
--
-- Prelude: natural numbers, integers, bits, lists and tests that the parts share.
--
-- Types: data_types.h, the flag bits of words and struct Composite, the composite timestamp.
--
-- Text and Edges: data_types.h, how an edge is read from a line of a file. Text has what the code
-- uses of std::string, a text being the list of its bytes; Edges has edge_t::parse_edge as
-- parse_edge with its two branches parse_edge_densifying and parse_plain, and the other two types
-- of edges. Text/Numbers has the decimal digits of a number, for the round trips.
--
-- EdgeBlock/HashTable2: EdgeBlock/HashTable.h, class HashTable2, the set of destinations of a
-- vertex: getDestHashTableVal is get_dest, setDestHashTableVal is set_dest with reserve for its
-- growth test, resizeHashTable is resize, removeDestHashTableVal is remove_dest with find_loop
-- and shift_loop. An array is a list; every loop takes the number of slots as fuel, and `none`
-- means that it ran out, or that a table of 2^31 slots, a negative `int`, cannot be allocated.
--
-- EdgeBlock/VertexEdges: EdgeBlock/VertexEdges.{h,cpp}, class VertexEdges. Search has
-- get_edge_index2 and get_edge_index, Merge has merge_tmpev_with_eb, and Writes has
-- insert_edge_block and delete_edge_block with what they use of Transaction/Transaction.h: the
-- state after each is returned with the answer. insert_at and delete_at are the parts behind the
-- lookup. A slot of the block or of the buffer is a pair of halves. `none` is an access that the
-- code must not make, or a loop that ran out of fuel. The search takes the number of slots plus 2
-- as fuel, which its halved interval does not use up, and fails where the sum of its bounds is no
-- `int`. Every handler tests with in_arrays that the place of an edge is in the arrays. `std::sort`
-- and the watermark g_oldest_epoch are parameters.
--
-- EdgeBlock/VertexEdges/Build: the constructor and build, the bulk load of a vertex.
--
-- EdgeBlock/GraphStore: EdgeBlock/GraphStore.{h,cpp}, the table of the vertices: new_vertex,
-- SetBlockByIndex, GetBlockByIndex as vertex_at, check_degree, and the calls of the handlers of a
-- vertex. Its vector, of oneTBB, is the interface ConcurrentVector.
--
-- EdgeBlock/VertexEdges/Transform: Transform, the publication of an epoch's temporary versions as a
-- version block; its three loops are first_loop, second_loop and third_loop.
--
-- EdgeBlock/VertexEdges/Scan: VertexEdges.h, the scan of a reader: iterate_edges, the choice of the
-- version blocks by VBIterator (iterated), and GraphAlgorithms::for_each_edge. Scan/Properties and
-- Scan/Condition have the variants with properties and with a condition; a scan is the list of the
-- edges that the callback gets. EdgeBlock/VertexEdges/Sorted: for_each_edge_sorted.
--
-- Transaction: the collection of edges in class Transaction: INSERT is insert_one for one edge and
-- insert_all for a vector, and execute gives the edges in the order in which they are inserted.
--
-- Version/Temporary: classes VersionEntry and TmpVersionBlock of VersionBlock.{h,cpp}:
-- InsertVersion is insert_version, ChangeNextIndex is change_next_index.
--
-- Version/Item: struct EdgeWithIndex of VersionBlock.h, the two halves of a stored edge.
--
-- Version/Manager: class VersionBlock and VersionBlockManager: PushVB is push_vb,
-- getDegreeVersioned is get_degree_versioned, find_vb is find_vb; VertexEdges::get_degree is
-- get_degree, on words of 32 bits. The `int` counts of blocks and vertices are integers, of which
-- only the words reach the degree.
--
-- Version/Iterator: VBIterator: FindIndex without and with a counter is find_index and
-- find_index_counted, the constructor is begin, getNext is get_next, and the callers' loop is
-- visit_loop, whose fuel is the length of the chain.
--
-- Epoch/Readers and Epoch/Writers: AllVBManager.cpp, the registration of readers and of writers
-- against the updater thread, as interleavings of atomic steps; each step is one access to a
-- shared variable. Memory is sequentially consistent, which is stronger than the relaxed and
-- acquire/release accesses of the source. Two reads that only one thread can invalidate (the
-- tests before `cur_++`) are one step.
--
-- Epoch/Ring: the same class one call at a time: the ring active_txns_ of the batches, where a
-- batch is its epoch. open_epoch is the new epoch in registerTransaction, commit_version_block is
-- commitVersionBlock, gc is GC, finalize_no_more_txn is FinalizeNoMoreTxn, and read_ts is the read
-- timestamp in registerROTransaction. The fuel of the publication is its bound plus 1, since every
-- round publishes an epoch below the bound.
--
-- MemoryPool: HALMemoryPool. Queue has FixedSizeBlock and TwoLevelQueue, the freed addresses;
-- Global and Vector have GlobalAllocator and TwoLevelVector, the mapped regions, with getBlock as
-- Vector.get_block. Index has HashTableMemoryIndex, the table from block sizes to their blocks, and
-- Thread has PerThreadMemoryAllocator: Allocate is allocate_block, free is free_block, whose fuel
-- bounds how often a growing list frees its old array. mmap and the arrays that are not written yet
-- are parameters.
--
-- Algorithm: algorithm/BFS.cpp, CDLP.cpp, WCC.cpp and LCC.cpp on what they read of the graph: Bfs
-- has bfs with its two steps, whose loops take one more than the number of vertices as fuel, since
-- every round but the last finds a vertex; Cdlp has compute_cdlp, Wcc has compute_wcc, and Lcc has
-- the orientation of the edges and the counting of compute_lcc. The queue and the bitmap of gapbs
-- are the interface Gapbs. The factors alpha and beta of bfs, by which the code divides, are
-- natural numbers, and a division by 0 is a fault. A table by vertices is a function. The walk up
-- the components in WCC takes the number of the vertex plus 1 as fuel, since a component is never
-- larger than its vertex.
--
-- Tests: the properties at concrete inputs.
--
-- The model is of the build with FINEGRAIN. Not modelled: PageRank, SSSP and the division in LCC,
-- which are in floating point; the interleavings of the parallel loops of the algorithms; the
-- locks, which serialize the writes to a vertex and the creation of vertices; the command lines,
-- the readers of edge files and the tests (input and output), the third-party code (CLI11, gapbs,
-- RWSpinLock, oneTBB, OpenMP), and class HashTable, which nothing uses.
pub mod Prelude
pub mod EdgeBlock
pub mod Types
pub mod Text
pub mod Edges
pub mod Version
pub mod Epoch
mod Tests
pub mod Transaction
pub mod MemoryPool
pub mod Algorithm
