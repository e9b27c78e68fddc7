-- ===== src/Wireless/DataPlane.antt =====
-- src/wireless/data_plane.rs: the shared-memory ring of media frames between one producer and one
-- consumer. `Layout` is the geometry of the mapping and its checks, `Ring` the operations on slots
-- and cursors, `Owned` the descriptors and mappings that the endpoints keep open.
pub mod Layout
pub mod System
pub mod Owned
pub mod Ring
pub mod Queue
