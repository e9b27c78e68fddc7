-- ===== src/Wireless/DataPlane/Layout.antt =====
-- The header of the ring in src/wireless/data_plane.rs, the geometry that `RingPair::create`
-- computes, and `validate_header`. `usize` has 64 bits. What the kernel answers to the calls of
-- `create` is the parameter `Kernel`.
pub mod Slots
pub mod Accepted
pub mod Tests
use dorsche.Base.{
  ℕ, ◌+◌, ◌-◌, ◌*◌, ◌/◌, ◌%◌, ◌^◌, ◌≡◌, bit_and, Bool, true, Result, ok, err, ◌>>=◌, ◌>>◌, Error,
  ensure, leb, ltb, ◌==◌, if◌then◌else◌, two_slots, capacity_zero, slot_overflow, ring_overflow,
  stride_abi, ring_magic, ring_abi, ring_header, ring_slots, ring_alignment, ring_length,
  mmap_alignment,
}
use dorsche.Wireless.Types.Frame.{wireless_audio_abi_version, descriptor_size}

-- `u32::from_le_bytes(*b"DRNG")`
abbrev pub magic_number : ℕ
magic_number = b'D' + 2 ^ 8 * b'R' + 2 ^ 16 * b'N' + 2 ^ 24 * b'G'

abbrev pub cache_line : ℕ
cache_line = 64

-- `size_of::<RingHeader>()`: one cache line each for the shape, the two cursors and the drop count.
abbrev pub header_size : ℕ
header_size = 256

pub record RingHeader : Type 0 where
  pub magic : ℕ
  pub abi_version : ℕ
  pub header_bytes : ℕ
  pub slot_count : ℕ
  pub slot_stride : ℕ
  pub payload_capacity : ℕ
  pub head : ℕ
  pub tail : ℕ
  pub dropped : ℕ

abbrev pub checked_add : ℕ → ℕ → Error → Result ℕ
checked_add a b e = if ltb (a + b) (2 ^ 64) then ok (a + b) else err e

abbrev pub checked_mul : ℕ → ℕ → Error → Result ℕ
checked_mul a b e = if ltb (a * b) (2 ^ 64) then ok (a * b) else err e

-- `(value + alignment - 1) & !(alignment - 1)`
unfoldable pub align_up : ℕ → ℕ → ℕ
align_up value alignment = bit_and ((value + alignment - 1) % 2 ^ 64) (2 ^ 64 - 1 - (alignment - 1))

-- The offset that `Mapping::slot` adds to the address of the mapping.
unfoldable pub slot_offset : RingHeader → ℕ → ℕ
slot_offset h index = header_size + index % h.slot_count * h.slot_stride

pub record Shape : Type 0 where
  pub slot_stride : ℕ
  pub map_len : ℕ

-- The first half of `RingPair::create`.
unfoldable pub plan : ℕ → ℕ → Result Shape
plan slot_count payload_capacity = do
  ensure (leb 2 slot_count) two_slots
  ensure (ltb 0 payload_capacity) capacity_zero
  slot_bytes ← checked_add descriptor_size payload_capacity slot_overflow
  let slot_stride = align_up slot_bytes cache_line
  slot_area ← checked_mul slot_stride slot_count ring_overflow
  map_len ← checked_add header_size slot_area ring_overflow
  ensure (leb slot_stride (2 ^ 32 - 1)) stride_abi
  ok (record { slot_stride = slot_stride; map_len = map_len })

-- The header that `create` writes.
abbrev pub fresh_header : ℕ → ℕ → Shape → RingHeader
fresh_header slot_count payload_capacity s = record {
  magic = magic_number;
  abi_version = wireless_audio_abi_version;
  header_bytes = header_size;
  slot_count = slot_count;
  slot_stride = s.slot_stride;
  payload_capacity = payload_capacity;
  head = 0;
  tail = 0;
  dropped = 0;
}

unfoldable pub validate_header : RingHeader → ℕ → Result (Unit {0})
validate_header h map_len = do
  ensure (h.magic == magic_number) ring_magic
  ensure (h.abi_version == wireless_audio_abi_version) ring_abi
  ensure (h.header_bytes == header_size) ring_header
  ensure (leb 2 h.slot_count) ring_slots
  ensure (h.slot_stride % cache_line == 0) ring_alignment
  ensure (header_size + h.slot_stride * h.slot_count == map_len) ring_length
  ok tt

-- What the kernel answers: to `memfd_create` with its size and seals, to the two duplications, to
-- `eventfd`, to the two `mmap` calls, and to the registration with the event loop.
pub record Kernel : Type 0 where
  pub memfd : Result (Unit {0})
  pub duplicate_memory : Result (Unit {0})
  pub eventfd : Result (Unit {0})
  pub duplicate_event : Result (Unit {0})
  pub map_producer : Result (Unit {0})
  pub address_aligned : Bool
  pub map_consumer : Result (Unit {0})
  pub register_event : Result (Unit {0})

-- `RingPair::create`: the header of the new ring and the length of its mapping.
unfoldable pub create : Kernel → ℕ → ℕ → Result (RingHeader × ℕ)
create k slot_count payload_capacity = do
  s ← plan slot_count payload_capacity
  k.memfd
  k.duplicate_memory
  k.eventfd
  k.duplicate_event
  k.map_producer
  ensure k.address_aligned mmap_alignment
  k.map_consumer
  validate_header (fresh_header slot_count payload_capacity s) s.map_len
  k.register_event
  ok (fresh_header slot_count payload_capacity s, s.map_len)

-- `Producer::from_descriptor` on the header that another process has written: the length of the file,
-- the mapping, then the check. `Consumer::from_descriptor` goes on to register the eventfd.
unfoldable pub from_descriptor : Result ℕ → Result (Unit {0}) → RingHeader → Result ℕ
from_descriptor fd_len mapped h = do map_len ← fd_len; mapped; validate_header h map_len; ok map_len
