-- ===== src/Tests.antt =====
-- The properties at concrete inputs, with the tests.
mod Tables
mod Versions
mod Epochs
mod Writes
mod Merges
mod Queues
mod Rings
mod Pools
mod Scans
mod Graphs
mod Triangles
mod Publications
mod Searches
mod Stores
mod Lines
