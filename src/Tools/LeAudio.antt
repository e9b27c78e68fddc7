-- ===== src/Tools/LeAudio.antt =====
-- src/bin/floss_le_audio_smoke.rs: `main` after its arguments, on the Floss client of
-- src/wireless/floss.rs. How the two transfers end is `Transfers`; Capture, Samples and Tone have what they do.
pub mod Cleanup
pub mod Capture
pub mod Samples
pub mod Tone
pub mod Tests
use dorsche.Base.{
  ℕ, ◌+◌, ◌^◌, Bool, true, false, Option, none, some, Error, Result, ok, err, ◌>>=◌, leb,
  if◌then◌else◌, ℤ,
}
use dorsche.Wireless.Types.Pcm.{PcmConfiguration}
use dorsche.Wireless.Floss.{FlossLeDirections, FlossLeDataPath, Log, Bus, take_stream, stop}
use dorsche.Wireless.Floss.Start.{start_software_unicast}
use dorsche.Tools.PipeWire.{Ending, panics, returns}

pub data Mode : Type 0 where
  output input duplex : Mode

-- `Args::directions`
abbrev pub mode_directions : Mode → FlossLeDirections
mode_directions output = record { host_to_peer = true; peer_to_host = false }
mode_directions input = record { host_to_peer = false; peer_to_host = true }
mode_directions duplex = record { host_to_peer = true; peer_to_host = true }

-- What `write_tone` and `capture_peer` come to with a configuration, `none` being a panic, and which of them
-- fails first if both fail at once.
pub record Transfers : Type 0 where
  pub write_tone : PcmConfiguration → Option (Result ℕ)
  pub capture_peer : PcmConfiguration → Option (Result ℕ)
  pub tone_fails_first : Bool

-- The sum of the bytes is a `u64`.
abbrev pub sum_u64 : ℕ → ℕ → Option (Result ℕ)
sum_u64 played captured =
    if leb (2 ^ 64) (played + captured) then none else some (ok (played + captured))

-- `tokio::try_join!`, with the sum of the two. The first failure is that of the whole, be it a panic.
unfoldable pub try_join : Bool → Option (Result ℕ) → Option (Result ℕ) → Option (Result ℕ)
try_join first (some (ok played)) (some (ok captured)) = sum_u64 played captured
try_join first (some (ok played)) (some (err e)) = some (err e)
try_join first (some (ok played)) none = none
try_join true played captured = played
try_join false (some (err e)) (some (ok captured)) = some (err e)
try_join false none (some (ok captured)) = none
try_join false played (some (err e)) = some (err e)
try_join false played none = none

abbrev pub unwrap : Log → Option PcmConfiguration → (PcmConfiguration → Ending) → Ending
unwrap log none next = panics log
unwrap log (some c) next = next c

abbrev pub after_stream_stop : Result ℕ → Result (Unit {0}) × Log → Ending
after_stream_stop io_result (stopped, log) = returns (io_result >>= (λ bytes. stopped)) log

-- From the stop on, unless the transfer has panicked.
unfoldable pub finish_stream : Bus → FlossLeDataPath → Log → Option (Result ℕ) → Ending
finish_stream b p log none = panics log
finish_stream b p log (some io_result) = after_stream_stop io_result (stop b p log)

-- `try_join!(..)?`
unfoldable pub after_join : Bus → FlossLeDataPath → Log → Option (Result ℕ) → Ending
after_join b p log none = panics log
after_join b p log (some (err e)) = returns (err e) log
after_join b p log (some (ok bytes)) = finish_stream b p log (some (ok bytes))

-- The match on the mode, and what follows.
unfoldable pub transfer : Mode → Transfers → Bus → FlossLeDataPath → Log → Ending
transfer output t b p log = unwrap log p.host_pcm (λ c. finish_stream b p log (t.write_tone c))
transfer input t b p log = unwrap log p.peer_pcm (λ c. finish_stream b p log (t.capture_peer c))
transfer duplex t b p log = unwrap log p.host_pcm (λ host. unwrap log p.peer_pcm (λ peer.
    after_join b p log (try_join t.tone_fails_first (t.write_tone host) (t.capture_peer peer))))

unfoldable pub after_stream :
    Mode → Transfers → Bus → Log → Result (Unit {0}) × FlossLeDataPath → Ending
after_stream m t b log (err e, p) = returns (err e) log
after_stream m t b log (ok stream, p) = transfer m t b p log

unfoldable pub after_unicast :
    Mode → Transfers → Bus → Option (Result FlossLeDataPath × Log) → Option Ending
after_unicast m t b none = none
after_unicast m t b (some (err e, log)) = some (returns (err e) log)
after_unicast m t b (some (ok p, log)) = some (after_stream m t b log (take_stream p))

-- `main` once the group's status is known.
unfoldable pub run_le_audio : Mode → Transfers → Bus → ℤ → Log → Option Ending
run_le_audio m t b group log =
    after_unicast m t b (start_software_unicast b group (mode_directions m) log)
