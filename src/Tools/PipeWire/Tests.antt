-- ===== src/Tools/PipeWire/Tests.antt =====
-- src/bin/dorsche_pipewire.rs against small environments, and the example of the theorem about it.
use dorsche.Base.{◌≡◌, refl, true, false, ◌∷◌, some, ok, err, external}
use dorsche.Wireless.Types.Pcm.{bytes_per_interval}
use dorsche.Wireless.Types.Pcm
use dorsche.Wireless.DataPlane.Layout.{Kernel, align_up, plan, create, validate_header}
use dorsche.Wireless.Floss.{take_stream, stop, host_stop_audio_request}
use dorsche.Wireless.Floss.Tests.{willing, path, started_log}
use dorsche.Tools.PipeWire.{
  sink, after_ring, after_pcm, after_take, after_path, Transfer, panics, returns,
}

abbrev pub kernel : Kernel
kernel = record {
  memfd = ok tt;
  duplicate_memory = ok tt;
  eventfd = ok tt;
  duplicate_event = ok tt;
  map_producer = ok tt;
  address_aligned = true;
  map_consumer = ok tt;
  register_event = ok tt;
}

abbrev full : Kernel
full = record kernel { eventfd = err (external 24) }

abbrev interrupted : Transfer
interrupted = record { spawned = true; pump = ok tt }

-- Ctrl-C ends the transfer, and the stream is stopped.
stopped :
    after_path kernel willing interrupted sink (some (ok path, started_log))
    ≡ some (returns (ok tt) (host_stop_audio_request (ok tt) ∷ started_log))
unfolding after_path after_take take_stream after_pcm bytes_per_interval Pcm.validate create plan
    align_up validate_header after_ring stop
stopped = refl

-- No ring, and the stream stays open.
left_open :
    after_path full willing interrupted sink (some (ok path, started_log))
    ≡ some (returns (err (external 24)) started_log)
unfolding after_path after_take take_stream after_pcm bytes_per_interval Pcm.validate create plan
    align_up after_ring
left_open = refl

-- No thread, and a panic with the stream open.
not_spawned :
    after_path kernel willing
      (record { spawned = false; pump = ok tt })
      sink
      (some (ok path, started_log))
    ≡ some (panics started_log)
unfolding after_path after_take take_stream after_pcm bytes_per_interval Pcm.validate create plan
    align_up validate_header after_ring
not_spawned = refl
