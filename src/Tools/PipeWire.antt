-- ===== src/Tools/PipeWire.antt =====
-- src/bin/dorsche_pipewire.rs: `main` after its arguments, on the Floss client of src/wireless/floss.rs and
-- the ring of src/wireless/data_plane.rs. Whether the PipeWire thread can be spawned, and how the pump or
-- Ctrl-C then ends the transfer, is the record `Transfer`; the pumps themselves are in ToHost and FromPeer.
pub mod Cleanup
pub mod ToHost
pub mod FromPeer
pub mod Tests
use dorsche.Base.{
  ℕ, ◌%◌, ◌^◌, Bool, true, false, Option, none, some, Result, ok, err, ◌>>◌, ◌>>=◌, if◌then◌else◌,
  ℤ, no_pcm,
}
use dorsche.Wireless.Types.Pcm.{PcmConfiguration, bytes_per_interval}
use dorsche.Wireless.DataPlane.Layout.{Kernel, RingHeader, create}
use dorsche.Wireless.Floss.{FlossLeDirections, FlossLeDataPath, Log, Bus, take_stream, stop}
use dorsche.Wireless.Floss.Start.{start_software_unicast}

pub data Direction : Type 0 where
  source sink : Direction

-- `FlossLeDirections::INPUT` and `FlossLeDirections::OUTPUT`
abbrev pub directions_of : Direction → FlossLeDirections
directions_of source = record { host_to_peer = false; peer_to_host = true }
directions_of sink = record { host_to_peer = true; peer_to_host = false }

abbrev pub pcm_of : Direction → FlossLeDataPath → Option PcmConfiguration
pcm_of source p = p.peer_pcm
pcm_of sink p = p.host_pcm

-- `RingPair::create(16, pcm.bytes_per_interval()? as u32)`
abbrev pub make_ring : Kernel → PcmConfiguration → Result (RingHeader × ℕ)
make_ring k c = bytes_per_interval c >>= (λ bytes. create k 16 (bytes % 2 ^ 32))

pub record Transfer : Type 0 where
  pub spawned : Bool
  pub pump : Result (Unit {0})

-- How `main` ends: with a panic, or with its result.
pub data Ending : Type 0 where
  panics : Log → Ending
  returns : Result (Unit {0}) → Log → Ending

-- The path is stopped before the result of the transfer counts.
abbrev pub after_stop : Result (Unit {0}) → Result (Unit {0}) × Log → Ending
after_stop pump (stopped, log) = returns (pump >> stopped) log

-- From the ring on: the `expect` on the thread, then the transfer, which asks nothing of Floss.
unfoldable pub after_ring :
    Bus → Transfer → FlossLeDataPath → Log → Result (RingHeader × ℕ) → Ending
after_ring b t p log (err e) = returns (err e) log
after_ring b t p log (ok ring) = if t.spawned then after_stop t.pump (stop b p log) else panics log

unfoldable pub after_pcm :
    Kernel → Bus → Transfer → FlossLeDataPath → Log → Option PcmConfiguration → Ending
after_pcm k b t p log none = returns (err no_pcm) log
after_pcm k b t p log (some c) = after_ring b t p log (make_ring k c)

unfoldable pub after_take :
    Kernel → Bus → Transfer → Direction → Log → Result (Unit {0}) × FlossLeDataPath → Ending
after_take k b t d log (err e, p) = returns (err e) log
after_take k b t d log (ok stream, p) = after_pcm k b t p log (pcm_of d p)

unfoldable pub after_path :
    Kernel → Bus → Transfer → Direction → Option (Result FlossLeDataPath × Log) → Option Ending
after_path k b t d none = none
after_path k b t d (some (err e, log)) = some (returns (err e) log)
after_path k b t d (some (ok p, log)) = some (after_take k b t d log (take_stream p))

-- `main`, with no result if the loops of the Floss client do not end.
unfoldable pub run_pipewire : Kernel → Bus → Transfer → ℤ → Direction → Log → Option Ending
run_pipewire k b t group d log =
    after_path k b t d (start_software_unicast b group (directions_of d) log)
