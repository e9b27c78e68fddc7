-- ===== src/Wireless/PipeWire/Tests.antt =====
-- The callbacks of src/wireless/pipewire.rs on concrete buffers, and the example of the theorem about them.
use dorsche.Base.{ℕ, ◌≡◌, refl, List, [], ◌∷◌, Option, none, some, ok, err, inl, arith, external}
use dorsche.Wireless.Types.Pcm.{PcmConfiguration}
use dorsche.Wireless.DataPlane.Ring.{fresh}
use dorsche.Wireless.PipeWire.{SpaData, bytes_per_frame}
use dorsche.Wireless.PipeWire.Stream.{Callback, plays, records, run_callbacks, stream}
use dorsche.Wireless.PipeWire.Roundtrip.{run_callbacks-stream}

abbrev stereo : PcmConfiguration
stereo = record {
  sample_rate_hz = 48_000;
  bits_per_sample = 16;
  channels = 2;
  data_interval_us = 10_000;
}

stride : bytes_per_frame stereo ≡ ok 4
unfolding bytes_per_frame
stride = refl

abbrev buffer : ℕ → ℕ → Option SpaData
buffer offset size =
    some (record { offset = offset; size = size; memory = some (1 ∷ 2 ∷ 3 ∷ 4 ∷ 5 ∷ []) })

-- The second wakeup fails; the third buffer names bytes outside its memory.
abbrev callbacks : List Callback
callbacks =
    plays (ok tt) 10 (buffer 1 3)
    ∷ plays (err (external 11)) 20 (buffer 0 2)
    ∷ plays (ok tt) 30 (buffer 4 2)
    ∷ records (some (some 2))
    ∷ records none
    ∷ records (some (some 8))
    ∷ records (some (some 8))
    ∷ []

recorded_back : stream 2 4 callbacks [] ≡ (2 ∷ 3 ∷ []) ∷ (1 ∷ 2 ∷ []) ∷ [] ∷ []
unfolding stream
recorded_back = refl

run_callbacks-stream_example :
    run_callbacks stereo callbacks (record { producer = fresh 2 4; sequence = 0 })
    ≡ (2 ∷ 3 ∷ []) ∷ (1 ∷ 2 ∷ []) ∷ [] ∷ []
unfolding stream
run_callbacks-stream_example =
    run_callbacks-stream stereo 2 4 callbacks (omega arith) (omega arith) (omega arith)
      (inl (omega arith))
