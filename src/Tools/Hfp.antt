-- ===== src/Tools/Hfp.antt =====
-- src/bin/floss_hfp_smoke.rs: the hands-free call, its microphone loopback and what it measures.
pub mod Delay
pub mod Duplex
pub mod Stats
pub mod Capture
pub mod Call
pub mod Tests
use dorsche.Base.{ℕ}

pub data Codec : Type 0 where
  cvsd msbc : Codec

abbrev pub sample_rate : Codec → ℕ
sample_rate cvsd = 8_000
sample_rate msbc = 16_000

abbrev pub expected_bit : Codec → ℕ
expected_bit cvsd = 1
expected_bit msbc = 2

abbrev pub disabled_codecs : Codec → ℕ
disabled_codecs cvsd = 6
disabled_codecs msbc = 5
