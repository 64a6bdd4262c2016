-- ===== src/Epoch.antt =====
-- data-structure/VersionBlock/AllVBManager.{h,cpp}: epochs, their publication and reclamation.
pub mod Readers
pub mod Writers
pub mod Ring
