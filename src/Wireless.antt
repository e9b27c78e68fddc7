-- ===== src/Wireless.antt =====
-- src/wireless/: the session ABI, the session actor, capability selection, the shared media ring,
-- the Floss LE Audio client and the PipeWire adapter.
pub mod Types
pub mod Session
pub mod Provider
pub mod DataPlane
pub mod Floss
pub mod PipeWire
