-- ===== src/Topshim/Frame/Tests.antt =====
-- Frames of src/topshim/frame.rs on concrete answers, and the example of the theorem about them.
use dorsche.Base.{◌≡◌, refl, true, false, [], ◌∷◌, some, ok, err, ℤ, pos, negsuc, invalid_buffer}
use dorsche.Topshim.Frame.{
  HardwareFrame, Kernel, Handover, would_block, read_done, wait_rounds, wait_for_fence, map_buffer,
  take_descriptors, from_cpp,
}
use dorsche.Topshim.Frame.Ledger.{Settled, from_cpp_settles}

-- One spurious wakeup, then the signal.
abbrev kernel : Kernel
kernel = record {
  watch = ok tt;
  rounds =
      (record { readable = ok tt; read = would_block })
      ∷ (record { readable = ok tt; read = read_done })
      ∷ [];
  map = λ n. ok (n, true);
}

abbrev captured : ℤ → HardwareFrame
captured fd = record {
  is_null = false;
  sample_count = 480;
  sample_rate = 48_000;
  sequence = 7;
  capture_time_ns = 1_000;
  is_dma_buf = true;
  buffer_fd = fd;
  fence_fd = pos 9;
}

abbrev handed : Handover
handed = record {
  result = ok (record {
    buffer = pos 8;
    mapping_len = 1_920;
    sample_count = 480;
    sample_rate = 48_000;
    sequence = 7;
    capture_time_ns = 1_000;
    dma_buf = true;
  });
  taken = pos 9 ∷ pos 8 ∷ [];
  closed = pos 9 ∷ [];
}

handed_over : from_cpp kernel (captured (pos 8)) ≡ some handed
unfolding from_cpp take_descriptors wait_for_fence wait_rounds map_buffer
handed_over = refl

abbrev leaked : Handover
leaked = record { result = err invalid_buffer; taken = pos 9 ∷ []; closed = [] }

-- Descriptor 9 is taken and never closed.
fence_left_open : from_cpp kernel (captured (negsuc 0)) ≡ some leaked
unfolding from_cpp take_descriptors
fence_left_open = refl

from_cpp_settles_example : Settled (captured (pos 8)) handed handed.result
from_cpp_settles_example = from_cpp_settles kernel (captured (pos 8)) handed handed_over
