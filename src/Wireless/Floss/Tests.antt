-- ===== src/Wireless/Floss/Tests.antt =====
-- Runs of the Floss client of src/wireless/floss.rs against small environments, and the examples of
-- the theorems about it.
use dorsche.Base.{
  ℕ, ◌*◌, ◌≡◌, refl, true, false, [], ◌∷◌, none, some, Result, ok, err, arith, pos, external,
  length,
}
use dorsche.Wireless.Types.Pcm
use dorsche.Wireless.Types.Pcm.{bytes_per_interval}
use dorsche.Wireless.Types.Tests.{stereo}
use dorsche.Wireless.Floss
use dorsche.Wireless.Floss.{
  FlossLeDirections, FlossLeDataPath, OwnedValue, PropertyMap, Call, Log, Bus, group_set_active,
  source_metadata_changed, host_start_audio_request, get_host_stream_started, get_host_pcm_config,
  connect, look_started, wait_until, connect_until, stop_directions, parse_pcm_config, stop, sleep,
}
use dorsche.Wireless.Floss.Start.{prepare, start_streams, start_software_unicast}
use dorsche.Wireless.Floss.Loops.{IsClock, start_returns}
use dorsche.Wireless.Floss.Opened.{host_open, Open}
use dorsche.Wireless.Floss.Rollback.{Outcome, start_rolls_back}
use dorsche.Wireless.Floss.Stop.{Stopping, start_then_stop}

abbrev value : ℕ → OwnedValue
value n = record { as_u32 = ok n; as_u8 = ok n }

abbrev stereo_properties : PropertyMap
stereo_properties = record {
  data_interval_us = some (value 10_000);
  sample_rate = some (value 48_000);
  bits_per_sample = some (value 16);
  channels_count = some (value 2);
}

-- Everything succeeds at once; every call takes 20 ms.
abbrev pub willing : Bus
willing = record {
  proxy = λ _. ok tt;
  active = λ _ _. ok tt;
  source_metadata = λ _. ok true;
  sink_metadata = λ _. ok true;
  host_start = λ _. ok true;
  peer_start = λ _. ok true;
  host_started = λ _. ok (pos 1);
  peer_started = λ _. ok (pos 1);
  host_pcm = λ _. ok stereo_properties;
  peer_pcm = λ _. ok stereo_properties;
  host_stop = λ _. ok tt;
  peer_stop = λ _. ok tt;
  socket = λ _. ok tt;
  now_ms = λ log. 20 * length log;
}

-- The same, but the PCM configuration cannot be read.
abbrev mute : Bus
mute = record willing { host_pcm = λ _. err (external 5) }

abbrev output : FlossLeDirections
output = record { host_to_peer = true; peer_to_host = false }

abbrev pub path : FlossLeDataPath
path = record {
  stream = true;
  directions = output;
  host_pcm = some stereo;
  peer_pcm = none;
  stopped = false;
}

abbrev pub started_log : Log
started_log =
    connect (ok tt)
    ∷ get_host_pcm_config (ok stereo_properties)
    ∷ get_host_stream_started (ok (pos 1))
    ∷ host_start_audio_request (ok true)
    ∷ source_metadata_changed (ok true)
    ∷ group_set_active (pos 3) (ok tt)
    ∷ []

pub willing_start : start_software_unicast willing (pos 3) output [] ≡ some (ok path, started_log)
unfolding start_software_unicast prepare Floss.validate start_streams wait_until look_started
    connect_until parse_pcm_config Pcm.validate bytes_per_interval
willing_start = refl

abbrev mute_log : Log
mute_log =
    get_host_pcm_config (err (external 5))
    ∷ get_host_stream_started (ok (pos 1))
    ∷ host_start_audio_request (ok true)
    ∷ source_metadata_changed (ok true)
    ∷ group_set_active (pos 3) (ok tt)
    ∷ []

-- The stream stays open behind the error.
mute_start : start_software_unicast mute (pos 3) output [] ≡ some (err (external 5), mute_log)
unfolding start_software_unicast prepare Floss.validate start_streams wait_until look_started
mute_start = refl

mute_open : host_open mute_log ≡ true
mute_open = refl

pub nothing-Open : Open false false false []
nothing-Open = record { host = refl; peer = refl; asked = refl }

start_rolls_back_example : Outcome output (err (external 5), mute_log)
start_rolls_back_example =
    start_rolls_back mute (pos 3) output [] (err (external 5), mute_log) nothing-Open mute_start

start_then_stop_example :
    Open true false false started_log
    × Stopping output (ok tt) started_log (stop willing path started_log)
start_then_stop_example =
    start_then_stop willing (pos 3) output [] started_log path nothing-Open willing_start

willing-IsClock : IsClock willing
willing-IsClock = record { steady = λ c log. omega arith; sleeps = λ log. omega arith }

start_returns_example :
    (x : Result FlossLeDataPath × Log) × (start_software_unicast willing (pos 3) output [] ≡ some x)
start_returns_example = start_returns willing (pos 3) output [] willing-IsClock
