-- ===== src/Topshim/Frame.antt =====
-- `SharedPcmFrame::from_cpp` of src/topshim/frame.rs: a captured frame comes from the C++ core with
-- two descriptors, which Rust takes over. The ledger says which descriptors were taken and which of
-- them were closed. The event loop and `mmap` are the parameter `Kernel`.
pub mod Ledger
pub mod Tests
use dorsche.Base.{
  ℕ, ◌*◌, ◌^◌, ◌≡◌, Bool, true, false, not, List, [], ◌∷◌, ◌++◌, Option, none, some, Error, Result,
  ok, err, ◌>>◌, ◌>>=◌, ensure, ltb, ◌==◌, if◌then◌else◌, ℤ, is_nonneg, null_frame,
  pcm_length_overflow, invalid_buffer, invalid_fence, short_mapping, unaligned_mapping,
}

-- `ffi::HardwareFrame`. A missing descriptor is negative.
pub record HardwareFrame : Type 0 where
  pub is_null : Bool
  pub sample_count : ℕ
  pub sample_rate : ℕ
  pub sequence : ℕ
  pub capture_time_ns : ℕ
  pub is_dma_buf : Bool
  pub buffer_fd : ℤ
  pub fence_fd : ℤ

-- `buffer` is the descriptor that `_buffer` keeps, `mapping_len` the length of `mapping`.
pub record SharedPcmFrame : Type 0 where
  pub buffer : ℤ
  pub mapping_len : ℕ
  pub sample_count : ℕ
  pub sample_rate : ℕ
  pub sequence : ℕ
  pub capture_time_ns : ℕ
  pub dma_buf : Bool

pub data ReadAnswer : Type 0 where
  read_done would_block : ReadAnswer
  read_failed : Error → ReadAnswer

-- One round of the loop of `wait_for_fence`: the readiness, then the read.
pub record Round : Type 0 where
  pub readable : Result (Unit {0})
  pub read : ReadAnswer

pub record Kernel : Type 0 where
  -- `AsyncFd::new`
  pub watch : Result (Unit {0})
  pub rounds : List Round
  -- the length of the mapping and whether it is aligned to a sample
  pub map : ℕ → Result (ℕ × Bool)

-- `none` is a fence that has not been signalled in these rounds.
abbrev pub read_next : ReadAnswer → Option (Result (Unit {0})) → Option (Result (Unit {0}))
read_next read_done rest = some (ok tt)
read_next would_block rest = rest
read_next (read_failed e) rest = some (err e)

unfoldable pub wait_rounds : List Round → Option (Result (Unit {0}))
wait_rounds [] = none
wait_rounds (r ∷ rs) = elim r.readable [
  | ok _ ↦ read_next r.read (wait_rounds rs)
  | err e ↦ some (err e)
]

unfoldable pub wait_for_fence : Kernel → Option (Result (Unit {0}))
wait_for_fence k = elim k.watch [ ok _ ↦ wait_rounds k.rounds | err e ↦ some (err e) ]

-- The result, and the descriptors that were taken and closed, the last one first.
pub record Handover : Type 0 where
  pub result : Result SharedPcmFrame
  pub taken : List ℤ
  pub closed : List ℤ

-- What `take_buffer_fd` and `take_fence_fd` take.
abbrev pub valid_fd : ℤ → List ℤ
valid_fd fd = if is_nonneg fd then fd ∷ [] else []

-- The end of `from_cpp`: the mapping of the buffer.
unfoldable pub map_buffer : Kernel → HardwareFrame → ℕ → Result SharedPcmFrame
map_buffer k raw byte_count = do
  found ← k.map byte_count
  ensure (found.0 == byte_count) short_mapping
  ensure found.1 unaligned_mapping
  ok (record {
    buffer = raw.buffer_fd;
    mapping_len = found.0;
    sample_count = raw.sample_count;
    sample_rate = raw.sample_rate;
    sequence = raw.sequence;
    capture_time_ns = raw.capture_time_ns;
    dma_buf = raw.is_dma_buf;
  })

-- The fence is closed by `wait_for_fence`, the buffer by the error that leaves `from_cpp`.
abbrev pub mapped : HardwareFrame → Result SharedPcmFrame → Handover
mapped raw (ok frame) = record {
  result = ok frame;
  taken = raw.fence_fd ∷ raw.buffer_fd ∷ [];
  closed = raw.fence_fd ∷ [];
}
mapped raw (err e) = record {
  result = err e;
  taken = raw.fence_fd ∷ raw.buffer_fd ∷ [];
  closed = raw.fence_fd ∷ raw.buffer_fd ∷ [];
}

abbrev pub after_fence : Kernel → HardwareFrame → ℕ → Option (Result (Unit {0})) → Option Handover
after_fence k raw byte_count none = none
after_fence k raw byte_count (some (ok _)) = some (mapped raw (map_buffer k raw byte_count))
after_fence k raw byte_count (some (err e)) = some (mapped raw (err e))

-- From the `take_*` calls on.
unfoldable pub take_descriptors : Kernel → HardwareFrame → ℕ → Option Handover
take_descriptors k raw byte_count =
    if not (is_nonneg raw.buffer_fd)
    then some (record { result = err invalid_buffer; taken = valid_fd raw.fence_fd; closed = [] })
    else if not (is_nonneg raw.fence_fd)
    then some (record {
      result = err invalid_fence;
      taken = raw.buffer_fd ∷ [];
      closed = raw.buffer_fd ∷ [];
    })
    else after_fence k raw byte_count (wait_for_fence k)

abbrev pub refused : Error → Option Handover
refused e = some (record { result = err e; taken = []; closed = [] })

-- `SharedPcmFrame::from_cpp`. A sample has four bytes.
unfoldable pub from_cpp : Kernel → HardwareFrame → Option Handover
from_cpp k raw =
    if raw.is_null
    then refused null_frame
    else if ltb (raw.sample_count * 4) (2 ^ 64)
    then take_descriptors k raw (raw.sample_count * 4)
    else refused pcm_length_overflow
