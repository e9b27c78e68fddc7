-- ===== src/Wireless/DataPlane/Owned.antt =====
-- Who owns what while src/wireless/data_plane.rs makes and passes on a ring: `OwnedFd` and `Mapping` close
-- and unmap what they hold when they are dropped, also on an early return. The log has every system call
-- with its answer, the last one first; `Kernel` answers from the log so far. `mmap` without an address
-- gives no null pointer, so that the `expect` on it is left out.
pub mod Actions
pub mod Balance
pub mod Settled
pub mod Transferred
pub mod Tests
use dorsche.Base.{
  ℕ, zero, ◌%◌, Bool, true, false, not, List, [], ◌∷◌, Result, ok, err, ensure, ◌==◌, if◌then◌else◌,
  ℤ, pos, negsuc, is_nonneg, external, mmap_alignment,
}
use dorsche.Wireless.DataPlane.Layout.{RingHeader, Shape, plan, fresh_header, validate_header}
use dorsche.Wireless.DataPlane.System.{fd_len}
use dorsche.Wireless.DataPlane.Owned.Actions.{
  Kernel, Resource, descriptor, mapping, Held, Own, SysCall, memfd_create, ftruncate, add_seals,
  duplicate, eventfd, mmap, fstat, register, return, lift, ask, succeed, own, drop_all, ◌>>=◌, ◌>>◌,
}

abbrev pub is_zero : ℤ → Bool
is_zero (pos n) = n == 0
is_zero (negsuc n) = false

-- `address == libc::MAP_FAILED`, which is -1.
abbrev pub map_failed : ℤ → Bool
map_failed (pos n) = false
map_failed (negsuc n) = n == 0

-- Aligned to a `RingHeader`.
abbrev pub is_aligned : ℤ → Bool
is_aligned (pos n) = n % 64 == 0
is_aligned (negsuc n) = false

unfoldable pub create_memfd : Kernel → ℕ → Own ℤ
create_memfd k len = do
  fd ← ask k memfd_create
  succeed k (is_nonneg fd)
  own (descriptor fd)
  sized ← ask k (ftruncate fd len)
  succeed k (is_zero sized)
  sealed ← ask k (add_seals fd)
  succeed k (is_zero sealed)
  return fd

unfoldable pub duplicate_fd : Kernel → ℤ → Own ℤ
duplicate_fd k fd = do
  copy ← ask k (duplicate fd)
  succeed k (is_nonneg copy)
  own (descriptor copy)
  return copy

unfoldable pub create_eventfd : Kernel → Own ℤ
create_eventfd k = do fd ← ask k eventfd; succeed k (is_nonneg fd); own (descriptor fd); return fd

-- `Mapping::shared`
unfoldable pub shared : Kernel → ℤ → ℕ → Own ℤ
shared k fd len = do
  address ← ask k (mmap fd len)
  succeed k (not (map_failed address))
  own (mapping address len)
  return address

-- `AsyncFd::new`
abbrev pub watch : Kernel → ℤ → Own (Unit {0})
watch k fd = do registered ← ask k (register fd); succeed k (is_zero registered)

-- A `Producer` or a `Consumer`, as what it owns.
pub record Endpoint : Type 0 where
  pub memory_fd : ℤ
  pub event_fd : ℤ
  pub address : ℤ
  pub map_len : ℕ

-- `RingPair::create`, with the calls that `Layout.create` only asks the result of.
unfoldable pub create_owned : Kernel → ℕ → ℕ → Own (Endpoint × Endpoint)
create_owned k slot_count payload_capacity = do
  s ← lift (plan slot_count payload_capacity)
  memory_fd ← create_memfd k s.map_len
  consumer_memory_fd ← duplicate_fd k memory_fd
  event_fd ← create_eventfd k
  consumer_event_fd ← duplicate_fd k event_fd
  producer_map ← shared k memory_fd s.map_len
  lift (ensure (is_aligned producer_map) mmap_alignment)
  consumer_map ← shared k consumer_memory_fd s.map_len
  lift (validate_header (fresh_header slot_count payload_capacity s) s.map_len)
  watch k consumer_event_fd
  return (
    record {
      memory_fd = memory_fd;
      event_fd = event_fd;
      address = producer_map;
      map_len = s.map_len;
    },
    record {
      memory_fd = consumer_memory_fd;
      event_fd = consumer_event_fd;
      address = consumer_map;
      map_len = s.map_len;
    },
  )

-- `fd_len`
abbrev pub file_len : Kernel → ℤ → Own ℕ
file_len k fd h =
    (ask k (fstat fd) >>= λ answer. lift (fd_len answer (k.size h.log) (k.errno h.log))) h

-- `Producer::from_descriptor`, and with `AsyncFd::new` that of the consumer, on two descriptors that are
-- owned. The file starts with `header`.
unfoldable pub from_descriptor_owned : Kernel → Bool → RingHeader → ℤ → ℤ → Own Endpoint
from_descriptor_owned k is_consumer header memory_fd event_fd = do
  map_len ← file_len k memory_fd
  address ← shared k memory_fd map_len
  lift (validate_header header map_len)
  if is_consumer then watch k event_fd else return tt
  return
      (record { memory_fd = memory_fd; event_fd = event_fd; address = address; map_len = map_len })

-- `into_descriptor` of an endpoint, which is all that is owned: it drops the mapping.
abbrev pub into_descriptor_owned : Kernel → Endpoint → Own (ℤ × ℤ)
into_descriptor_owned k e h = (
  ok (e.memory_fd, e.event_fd),
  record {
    log = drop_all k (mapping e.address e.map_len ∷ []) h.log;
    owned = descriptor e.event_fd ∷ descriptor e.memory_fd ∷ [];
  },
)

-- An endpoint that goes over to a descriptor and back, as in `endpoints_survive_linear_descriptor_transfer`.
abbrev pub transfer : Kernel → Bool → RingHeader → Endpoint → Own Endpoint
transfer k is_consumer header e =
    into_descriptor_owned k e >>= λ fds. from_descriptor_owned k is_consumer header fds.0 fds.1
