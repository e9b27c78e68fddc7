-- ===== src/Wireless/DataPlane/Ring.antt =====
-- `Producer`, `ProducerLease`, `Consumer` and `FrameLease` of src/wireless/data_plane.rs on the shared
-- mapping: the cursors of its header and its slots, each a descriptor with the bytes behind it.
-- Slots are values of their own; `Layout/Slots` is about where they lie. A cursor is a `u64` that wraps. The eventfd is outside: what its write answers is the argument `signal`.
pub mod Invariant
pub mod Window
pub mod Push
pub mod Pop
pub mod Traffic
pub mod Refinement
pub mod Runs
pub mod Tests
use dorsche.Base.{
  ℕ, ◌+◌, ◌-◌, ◌%◌, ◌^◌, ◌≡◌, Bool, true, false, List, [], ◌∷◌, ◌++◌, Option, none, some, Result,
  ok, err, ◌>>◌, ◌>>=◌, ensure, leb, ◌==◌, if◌then◌else◌, length, get_or, set, take, drop,
  replicate, payload_too_large, payload_abi, frame_abi, frame_size, frame_length,
}
use dorsche.Wireless.Types.Kinds.{pcm}
use dorsche.Wireless.Types.Frame
use dorsche.Wireless.Types.Frame.{FrameDescriptor, wireless_audio_abi_version, descriptor_size}

pub record Slot : Type 0 where
  pub descriptor : FrameDescriptor
  pub payload : List ℕ

pub record Ring : Type 0 where
  pub slot_count : ℕ
  pub payload_capacity : ℕ
  pub head : ℕ
  pub tail : ℕ
  pub dropped : ℕ
  pub slots : List Slot

abbrev pub u64 : ℕ → ℕ
u64 n = n % 2 ^ 64

-- `a.wrapping_sub(b)`
abbrev pub wrapping_sub : ℕ → ℕ → ℕ
wrapping_sub a b = (a + 2 ^ 64 - b) % 2 ^ 64

-- What a fresh mapping holds: zero bytes.
abbrev pub zero_descriptor : FrameDescriptor
zero_descriptor = record {
  abi_version = 0;
  header_bytes = 0;
  payload_kind = 0;
  iso_status = 0;
  flags = 0;
  payload_bytes = 0;
  sequence = 0;
  stream_handle = 0;
  sample_rate_hz = 0;
  channels = 0;
  bits_per_sample = 0;
  capture_time_ns = 0;
  presentation_time_ns = 0;
  deadline_ns = 0;
}

abbrev pub zero_slot : ℕ → Slot
zero_slot capacity = record { descriptor = zero_descriptor; payload = replicate capacity 0 }

-- The memory that `RingPair::create` has initialised.
abbrev pub fresh : ℕ → ℕ → Ring
fresh slot_count payload_capacity = record {
  slot_count = slot_count;
  payload_capacity = payload_capacity;
  head = 0;
  tail = 0;
  dropped = 0;
  slots = replicate slot_count (zero_slot payload_capacity);
}

-- `Mapping::slot`, read and written.
abbrev pub slot_at : Ring → ℕ → Slot
slot_at r cursor = get_or r.slots (cursor % r.slot_count) (zero_slot r.payload_capacity)

abbrev pub put_slot : Ring → ℕ → Slot → Ring
put_slot r cursor s = record r { slots = set r.slots (cursor % r.slot_count) s }

-- `Producer::try_reserve`: the head of the lease, or none and one more dropped frame.
unfoldable pub try_reserve : Ring → Option ℕ × Ring
try_reserve r =
    if leb r.slot_count (wrapping_sub r.head r.tail)
    then (none, record r { dropped = u64 (r.dropped + 1) })
    else (some r.head, r)

-- `lease.payload_mut()[..bytes.len()].copy_from_slice(bytes)`
unfoldable pub write_payload : Ring → ℕ → List ℕ → Ring
write_payload r head bytes =
    let old = slot_at r head in
    put_slot r head (record old { payload = bytes ++ drop (length bytes) old.payload })

-- The descriptor that `commit` stores.
abbrev pub sealed : FrameDescriptor → ℕ → FrameDescriptor
sealed d payload_bytes = record d {
  abi_version = wireless_audio_abi_version;
  header_bytes = descriptor_size;
  payload_bytes = payload_bytes;
}

abbrev pub publish : Ring → ℕ → FrameDescriptor → ℕ → Ring
publish r head d payload_bytes =
    let written =
      put_slot r head (record (slot_at r head) { descriptor = sealed d payload_bytes }) in
    record written { head = u64 (head + 1) }

-- `ProducerLease::commit`. It takes the lease, so `committed` is false whenever it is called. A failed
-- signal comes after the publication.
unfoldable pub commit :
    Result (Unit {0}) → Ring → ℕ → FrameDescriptor → ℕ → Result (Unit {0}) × Ring
commit signal r head d payload_bytes =
    elim (ensure (leb payload_bytes r.payload_capacity) payload_too_large
      >> ensure (leb payload_bytes (2 ^ 32 - 1)) payload_abi) [
        | ok _ ↦ (signal, publish r head d payload_bytes)
        | err e ↦ (err e, r)
      ]

-- The rest of `try_push_copy`, on the answer of `try_reserve`.
abbrev pub push_leased :
    Result (Unit {0}) → Option ℕ × Ring → FrameDescriptor → List ℕ → Result Bool × Ring
push_leased signal (none, r) d payload = (ok false, r)
push_leased signal (some head, r) d payload =
    if leb (length payload) r.payload_capacity
    then (let (done, r') = commit signal (write_payload r head payload) head d (length payload) in
        (done >> ok true, r'))
    else (err payload_too_large, r)

-- `Producer::try_push_copy`
unfoldable pub try_push_copy :
    Result (Unit {0}) → Ring → FrameDescriptor → List ℕ → Result Bool × Ring
try_push_copy signal r d payload = push_leased signal (try_reserve r) d payload

-- `FrameLease`: `bytes` is what `payload()` shows.
pub record FrameLease : Type 0 where
  pub descriptor : FrameDescriptor
  pub bytes : List ℕ
  pub tail : ℕ

abbrev pub lease_slot : Slot → ℕ → FrameLease
lease_slot s tail = record {
  descriptor = s.descriptor;
  bytes = take s.descriptor.payload_bytes s.payload;
  tail = tail;
}

-- The checks of `try_acquire` on the descriptor that it has read.
unfoldable pub check_slot : ℕ → Slot → ℕ → Result (Option FrameLease)
check_slot capacity s tail = do
  ensure (s.descriptor.abi_version == wireless_audio_abi_version) frame_abi
  ensure (s.descriptor.header_bytes == descriptor_size) frame_size
  ensure (leb s.descriptor.payload_bytes capacity) frame_length
  ok (some (lease_slot s tail))

-- `Consumer::try_acquire`
unfoldable pub try_acquire : Ring → Result (Option FrameLease)
try_acquire r =
    if r.tail == r.head then ok none else check_slot r.payload_capacity (slot_at r r.tail) r.tail

-- `Drop for FrameLease`
unfoldable pub release : Ring → FrameLease → Ring
release r l = record r { tail = u64 (l.tail + 1) }

-- `Consumer::queued_frames`
unfoldable pub queued_frames : Ring → ℕ
queued_frames r = wrapping_sub r.head r.tail
