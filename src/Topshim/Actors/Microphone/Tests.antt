-- ===== src/Topshim/Actors/Microphone/Tests.antt =====
-- The capture task of src/topshim/actors.rs on concrete answers.
use dorsche.Base.{
  ◌≡◌, refl, Bool, true, false, List, [], ◌∷◌, some, ok, err, ℤ, pos, negsuc, invalid_buffer,
}
use dorsche.Topshim.Frame.{
  HardwareFrame, Kernel, read_done, wait_rounds, wait_for_fence, map_buffer, take_descriptors,
  from_cpp,
}
use dorsche.Topshim.Actors.Microphone.{
  proxy_capture, Tick, MicEvent, stops, ticks, ends, CaptureTask, new_microphone, mic_step,
  run_microphone,
}
use dorsche.Topshim.Actors.Microphone.Ledger.{Keeps, run_microphone-Keeps}

abbrev signalled : Kernel
signalled = record {
  watch = ok tt;
  rounds = (record { readable = ok tt; read = read_done }) ∷ [];
  map = λ n. ok (n, true);
}

abbrev hardware : ℤ → ℤ → HardwareFrame
hardware buffer fence = record {
  is_null = false;
  sample_count = 160;
  sample_rate = 16_000;
  sequence = 0;
  capture_time_ns = 10;
  is_dma_buf = false;
  buffer_fd = buffer;
  fence_fd = fence;
}

abbrev tick : ℤ → ℤ → Bool → Tick
tick buffer fence is_sent = record {
  captured = record { is_taken = true; reply = some (ok (hardware buffer fence)) };
  kernel = signalled;
  is_sent = is_sent;
}

-- A frame is sent, the next one has no buffer, and the shutdown comes too late.
abbrev three_events : List MicEvent
three_events =
    ticks (tick (pos 8) (pos 9) true) ∷ ticks (tick (negsuc 0) (pos 10) true) ∷ stops true ∷ []

abbrev left_open : CaptureTask
left_open = run_microphone three_events new_microphone

fence_lost :
    (left_open.taken ≡ pos 10 ∷ pos 9 ∷ pos 8 ∷ [])
    × (left_open.closed ≡ pos 9 ∷ [])
    × (left_open.state ≡ ends (err invalid_buffer))
unfolding run_microphone mic_step proxy_capture from_cpp take_descriptors wait_for_fence wait_rounds
    map_buffer
fence_lost = (refl, refl, refl)

-- The receiver is gone, so that the buffer is closed too.
nobody_listens :
    (run_microphone (ticks (tick (pos 8) (pos 9) false) ∷ []) new_microphone).closed
    ≡ pos 8 ∷ pos 9 ∷ []
unfolding run_microphone mic_step proxy_capture from_cpp take_descriptors wait_for_fence wait_rounds
    map_buffer
nobody_listens = refl

abbrev every_fd : ℤ → Bool
every_fd _ = true

run_microphone-Keeps_example : Keeps every_fd left_open
run_microphone-Keeps_example = run_microphone-Keeps every_fd three_events
