-- ===== src/Wireless/DataPlane/Layout/Tests.antt =====
-- Rings of src/wireless/data_plane.rs on concrete numbers, and the examples of the theorems about
-- their layout.
use dorsche.Base.{
  ◌↔◌, ℕ, ◌+◌, ◌%◌, ◌≡◌, ◌≤◌, ◌⊎◌, refl, Result, ok, err, true, arith, capacity_zero, ring_length,
}
use dorsche.Wireless.DataPlane.Layout.{
  RingHeader, Kernel, slot_offset, align_up, plan, fresh_header, validate_header, create,
  from_descriptor,
}
use dorsche.Wireless.DataPlane.Layout.Slots.{
  IsRing, Answers, shape_of, create_iff, slot_in_bounds, slots_disjoint,
}
use dorsche.Wireless.DataPlane.Layout.Accepted.{from_descriptor_slots, capacity_unchecked}

abbrev willing : Kernel
willing = record {
  memfd = ok tt;
  duplicate_memory = ok tt;
  eventfd = ok tt;
  duplicate_event = ok tt;
  map_producer = ok tt;
  address_aligned = true;
  map_consumer = ok tt;
  register_event = ok tt;
}

willing-Answers : Answers willing
willing-Answers = record {
  memfd = refl;
  duplicate_memory = refl;
  eventfd = refl;
  duplicate_event = refl;
  map_producer = refl;
  address_aligned = refl;
  map_consumer = refl;
  register_event = refl;
}

-- Two slots of 1920 bytes.
abbrev shared_header : RingHeader
shared_header = fresh_header 2 1_920 (shape_of 2 1_920)

created : create willing 2 1_920 ≡ ok (shared_header, 4_224)
unfolding create plan align_up validate_header
created = refl

empty_refused : create willing 2 0 ≡ err capacity_zero
unfolding create plan
empty_refused = refl

two_slots_IsRing : IsRing 2 1_920
two_slots_IsRing = record { slots = omega arith; capacity = omega arith; stride = omega arith }

create_iff_example : create willing 2 1_920 ≡ ok (shared_header, 4_224)
create_iff_example =
    (create_iff willing 2 1_920 willing-Answers (omega arith) (omega arith)).1 two_slots_IsRing

slot_in_bounds_example :
    (256 ≤ slot_offset shared_header 3)
    × (slot_offset shared_header 3 % 64 ≡ 0)
    × (slot_offset shared_header 3 + 64 + 1_920 ≤ 4_224)
slot_in_bounds_example = slot_in_bounds 2 1_920 3 two_slots_IsRing

other_slots :
    (slot_offset shared_header 4 + 64 + 1_920 ≤ slot_offset shared_header 5)
    ⊎ (slot_offset shared_header 5 + 64 + 1_920 ≤ slot_offset shared_header 4)
other_slots = slots_disjoint 2 1_920 4 5 two_slots_IsRing (omega arith)

mapped_again : from_descriptor (ok 4_224) (ok tt) shared_header ≡ ok 4_224
unfolding from_descriptor validate_header
mapped_again = refl

shorter_file_refused : from_descriptor (ok 4_223) (ok tt) shared_header ≡ err ring_length
unfolding from_descriptor validate_header
shorter_file_refused = refl

mapped_slots :
    (◌≡◌ {A = Result ℕ} (ok 4_224) (ok 4_224))
    × (2 ≤ 2)
    × (slot_offset shared_header 5 % 64 ≡ 0)
    × (slot_offset shared_header 5 + 1_984 ≤ 4_224)
mapped_slots = from_descriptor_slots (ok 4_224) (ok tt) shared_header 5 mapped_again

-- A header whose capacity no stride can hold.
abbrev overlong : RingHeader
overlong = record shared_header { payload_capacity = 1_000_000 }

capacity_unchecked_example :
    (from_descriptor (ok 4_224) (ok tt) overlong ≡ ok 4_224)
    × ((slot_offset overlong 1 + 64 + 1_000_000 ≤ 4_224) ↔ (64 + 1_000_000 ≤ 1_984))
capacity_unchecked_example =
    capacity_unchecked (ok 4_224) (ok tt) shared_header 1_000_000 mapped_again
