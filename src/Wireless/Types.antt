-- ===== src/Wireless/Types.antt =====
-- src/wireless/types.rs: the versioned contract of a wireless audio session.
pub mod Kinds
pub mod Pcm
pub mod Lc3
pub mod Iso
pub mod Broadcast
pub mod Audio
pub mod Frame
pub mod Tests
