-- ===== src/Wireless/DataPlane/Owned/Tests.antt =====
-- What a ring of src/wireless/data_plane.rs owns, on concrete kernels.
use dorsche.Base.{
  ◌+◌, ◌*◌, ◌≡◌, refl, Bool, true, [], ◌∷◌, Result, ok, err, length, ℤ, pos, negsuc, external,
}
use dorsche.Wireless.DataPlane.Layout.{Shape, fresh_header, plan, validate_header, align_up}
use dorsche.Wireless.DataPlane.System.{fd_len}
use dorsche.Wireless.DataPlane.Owned.{
  Endpoint, create_owned, create_memfd, duplicate_fd, create_eventfd, shared, from_descriptor_owned,
  transfer,
}
use dorsche.Wireless.DataPlane.Owned.Actions.{
  Kernel, Resource, descriptor, mapping, Held, SysCall, memfd_create, eventfd, duplicate, register,
  mmap, Log, drop_all, leave,
}
use dorsche.Wireless.DataPlane.Owned.Balance.{released}
use dorsche.Wireless.DataPlane.Owned.Settled.{
  AreOwners, Settles, nothing_held, create_owned-Settles,
}
use dorsche.Wireless.DataPlane.Owned.Transferred.{IsSameRing, transfer-Settles}

-- New descriptors and addresses count up with the calls.
abbrev numbered : Log → SysCall → ℤ
numbered log memfd_create = pos (length log + 3)
numbered log eventfd = pos (length log + 3)
numbered log (duplicate _) = pos (length log + 3)
numbered log (mmap _ _) = pos (4_096 * (length log + 1))
numbered log _ = pos 0

abbrev willing : Kernel
willing = record { answer = numbered; errno = λ _. 24; size = λ _. pos 2_560 }

-- The event loop takes no descriptor.
abbrev refuses : Log → SysCall → ℤ
refuses log (register _) = negsuc 0
refuses log c = numbered log c

abbrev unwatched : Kernel
unwatched = record { answer = refuses; errno = λ _. 24; size = λ _. pos 2_560 }

abbrev everything : Resource → Bool
everything _ = true

abbrev ended : Result (Endpoint × Endpoint) × Held
ended = leave unwatched (create_owned unwatched 4 512 nothing_held)

six_dropped : (ended.0 ≡ err (external 24)) × (released everything ended.1.log ≡ 6)
unfolding create_owned create_memfd duplicate_fd create_eventfd shared drop_all plan validate_header
    align_up
six_dropped = (refl, refl)

create_owned-Settles_example :
    Settles everything AreOwners (leave willing (create_owned willing 4 512 nothing_held))
create_owned-Settles_example = create_owned-Settles everything willing 4 512

abbrev endpoint : Endpoint
endpoint = record { memory_fd = pos 3; event_fd = pos 4; address = pos 4_096; map_len = 2_560 }

abbrev open_endpoint : Held
open_endpoint = record {
  log = (mmap (pos 3) 2_560, pos 4_096) ∷ (eventfd, pos 4) ∷ (memfd_create, pos 3) ∷ [];
  owned = mapping (pos 4_096) 2_560 ∷ descriptor (pos 4) ∷ descriptor (pos 3) ∷ [];
}

abbrev shape : Shape
shape = record { slot_stride = 576; map_len = 2_560 }

transfer-Settles_example :
    Settles everything
      (IsSameRing (fresh_header 4 512 shape) endpoint)
      (leave willing (transfer willing true (fresh_header 4 512 shape) endpoint open_endpoint))
transfer-Settles_example =
    transfer-Settles everything willing true (fresh_header 4 512 shape) endpoint open_endpoint refl
      refl

abbrev moved : Result Endpoint × Held
moved = leave willing (transfer willing true (fresh_header 4 512 shape) endpoint open_endpoint)

moved_over :
    moved.0
    ≡ ok (record { memory_fd = pos 3; event_fd = pos 4; address = pos 24_576; map_len = 2_560 })
unfolding from_descriptor_owned shared validate_header fd_len drop_all
moved_over = refl
