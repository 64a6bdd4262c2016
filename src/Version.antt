-- ===== src/Version.antt =====
-- data-structure/VersionBlock: versions of the edges of a vertex.
pub mod Item
pub mod Manager
pub mod Iterator
pub mod Temporary
