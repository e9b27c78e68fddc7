-- ===== src/Tools.antt =====
-- src/bin: the command-line tools, as far as they have logic of their own.
pub mod Args
pub mod Hfp
pub mod PipeWire
pub mod A2dp
pub mod LeAudio
