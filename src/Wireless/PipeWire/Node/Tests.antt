-- ===== src/Wireless/PipeWire/Node/Tests.antt =====
-- The nodes of src/wireless/pipewire.rs, on concrete servers.
use dorsche.Base.{◌≡◌, refl, some, ok, err, external, pcm_width}
use dorsche.Wireless.Types.Pcm.{PcmConfiguration, validate}
use dorsche.Wireless.PipeWire.{bytes_per_frame}
use dorsche.Wireless.PipeWire.Node.{Server, format_pod, run_source, run_sink}
use dorsche.Wireless.PipeWire.Node.Published.{Publishes, source_node, run_source-Publishes}

abbrev voice : PcmConfiguration
voice = record {
  sample_rate_hz = 16_000;
  bits_per_sample = 24;
  channels = 2;
  data_interval_us = 10_000;
}

abbrev willing : Server
willing = record {
  main_loop = ok tt;
  context = ok tt;
  core = ok tt;
  stream = ok tt;
  register = ok tt;
  serialize = ok tt;
  decode = ok tt;
  connect = ok tt;
}

-- The daemon is not there.
abbrev absent : Server
absent = record willing { core = err (external 112) }

published : run_source willing "mic" voice ≡ some (ok (source_node "mic" voice))
unfolding run_source format_pod validate bytes_per_frame
published = refl

no_daemon : run_sink absent "speaker" voice ≡ some (err (external 112))
unfolding run_sink format_pod validate
no_daemon = refl

wrong_width : run_source willing "mic" (record voice { bits_per_sample = 8 }) ≡ some (err pcm_width)
unfolding run_source validate
wrong_width = refl

run_source-Publishes_example : Publishes absent "mic" voice
run_source-Publishes_example = run_source-Publishes absent "mic" voice
