-- ===== src/Tools/LeAudio/Tests.antt =====
-- src/bin/floss_le_audio_smoke.rs against small environments, and the example of the theorem about it.
use dorsche.Base.{
  ℕ, zero, suc, ◌%◌, ◌^◌, ◌*◌, List, Result, length, sym, ap, arith, ◌≡◌, refl, true, false, [],
  ◌∷◌, some, ok, err, external, pos,
}
use dorsche.Wireless.Types.Tests.{stereo}
use dorsche.Wireless.Floss.{FlossLeDataPath, take_stream, stop, host_stop_audio_request}
use dorsche.Wireless.Floss.Opened.{Open}
use dorsche.Wireless.Floss.Tests.{willing, path, started_log, willing_start, nothing-Open}
use dorsche.Tools.LeAudio.{
  output, duplex, mode_directions, Transfers, try_join, finish_stream, after_join, transfer,
  after_stream, after_unicast, run_le_audio,
}
use dorsche.Tools.LeAudio.Cleanup.{EndsIn, run_le_audio-EndsIn}
use dorsche.Wireless.Types.Pcm
use dorsche.Wireless.Types.Pcm.{PcmConfiguration, bytes_per_interval}
use dorsche.Wireless.DataPlane.Layout.{
  RingHeader, align_up, plan, create, validate_header, fresh_header,
}
use dorsche.Tools.PipeWire.{Ending, returns}
use dorsche.Tools.PipeWire.Tests.{kernel}
use dorsche.Tools.LeAudio.Capture.{Interval, stops, unwinds, after_size, after_create, capture_peer}
use dorsche.Tools.LeAudio.Capture.Transparent.{ReadsExactly, result_of, capture_peer-collect}

-- The tone cannot be written.
abbrev broken : Transfers
broken = record {
  write_tone = λ c. some (err (external 32));
  capture_peer = λ c. some (ok 1_920);
  tone_fails_first = true;
}

stopped :
    after_unicast output broken willing (some (ok path, started_log))
    ≡ some (returns (err (external 32)) (host_stop_audio_request (ok tt) ∷ started_log))
unfolding after_unicast after_stream take_stream transfer finish_stream stop
stopped = refl

abbrev both : FlossLeDataPath
both = record path { directions = mode_directions duplex; peer_pcm = some stereo }

-- The same failure next to a capture stops nothing.
not_stopped :
    after_unicast duplex broken willing (some (ok both, started_log))
    ≡ some (returns (err (external 32)) started_log)
unfolding after_unicast after_stream take_stream transfer after_join try_join
not_stopped = refl

run_le_audio-EndsIn_example :
    Open true false false started_log
    × (x : Ending) × (run_le_audio output broken willing (pos 3) [] ≡ some x)
    × EndsIn output broken willing path started_log x
run_le_audio-EndsIn_example =
    run_le_audio-EndsIn output broken willing (pos 3) [] started_log path nothing-Open willing_start

abbrev narrow : PcmConfiguration
narrow = record {
  sample_rate_hz = 8_000;
  bits_per_sample = 16;
  channels = 1;
  data_interval_us = 1_000;
}

-- A millisecond of sound, and then the peer is gone.
abbrev reads : ℕ → Result (List ℕ)
reads zero = ok (1 ∷ 2 ∷ 3 ∷ 4 ∷ 5 ∷ 6 ∷ 7 ∷ 8 ∷ 1 ∷ 2 ∷ 3 ∷ 4 ∷ 5 ∷ 6 ∷ 7 ∷ 8 ∷ [])
reads (suc n) = err (external 104)

abbrev intervals : ℕ → Interval
intervals n = record { read = reads n; now = n * 1_000; signal = ok tt; written = ok tt }

intervals-ReadsExactly : ReadsExactly 16 intervals
intervals-ReadsExactly zero pcm e = ap length (sym (ok-inj e))
  where
    ok-inj : {xs ys : List ℕ} → ok xs ≡ ok ys → xs ≡ ys
    ok-inj q = cc
intervals-ReadsExactly (suc n) pcm e = cc

abbrev made : RingHeader × ℕ
made = (fresh_header 8 16 (record { slot_stride = 128; map_len = 1_280 }), 1_280)

narrow_bytes : bytes_per_interval narrow ≡ ok 16
unfolding bytes_per_interval Pcm.validate
narrow_bytes = refl

narrow_ring : create kernel 8 (16 % 2 ^ 32) ≡ ok made
unfolding create plan align_up validate_header
narrow_ring = refl

capture_peer-collect_example :
    result_of (capture_peer kernel narrow intervals (ok tt) 1) ≡ some (err (external 104))
capture_peer-collect_example =
    capture_peer-collect kernel narrow intervals (ok tt) 1 16 made narrow_bytes (omega arith)
      (omega arith) (omega arith) narrow_ring intervals-ReadsExactly

-- No file, and no interval.
no_file : capture_peer kernel narrow intervals (err (external 13)) 1 ≡ stops (external 13)
unfolding capture_peer after_size after_create bytes_per_interval Pcm.validate create plan align_up
    validate_header
no_file = refl

-- 2^64 / 10^6 seconds and more are too many.
too_long : capture_peer kernel narrow intervals (ok tt) 18_446_744_073_710 ≡ unwinds
unfolding capture_peer after_size bytes_per_interval Pcm.validate
too_long = refl
