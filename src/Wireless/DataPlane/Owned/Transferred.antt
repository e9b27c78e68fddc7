-- ===== src/Wireless/DataPlane/Owned/Transferred.antt =====
-- What is owned after an endpoint of src/wireless/data_plane.rs has gone through a descriptor.
use dorsche.Base.{
  ◌≡◌, Bool, true, false, if◌then◌else◌, refl, subst, ◌+◌, List, [], ◌∷◌, ok, ℤ, arith,
}
use dorsche.Wireless.DataPlane.Layout.{RingHeader, validate_header}
use dorsche.Wireless.DataPlane.Owned.{Endpoint, watch, from_descriptor_owned, transfer}
use dorsche.Wireless.DataPlane.Owned.Actions.{
  Kernel, Resource, descriptor, Held, Own, return, drop_all, leave, follow,
}
use dorsche.Wireless.DataPlane.Owned.Balance.{
  Balanced, Holds, acquired, released, count, shared-then,
}
use dorsche.Wireless.DataPlane.Owned.Settled.{
  IsOwner, Settles, leave-Settles, lift-then, watch-then, file_len-then,
}

-- The new endpoint owns the old descriptors, and maps a file that starts with a valid header.
abbrev pub IsSameRing : RingHeader → Endpoint → Endpoint → List Resource → Type 0
IsSameRing header old new owned =
    IsOwner new owned
    × (new.memory_fd ≡ old.memory_fd)
    × (new.event_fd ≡ old.event_fd)
    × (validate_header header new.map_len ≡ ok tt)

watch_if-then :
    (p : Resource → Bool) {A : Type 0} (Q : A → List Resource → Type 0) (h : Held)
    → Balanced p h
    → (is_consumer : Bool) (k : Kernel) (fd : ℤ) (next : Unit {0} → Own A)
    → ((h' : Held) → Balanced p h' → h'.owned ≡ h.owned → Holds p Q (next tt h'))
    → Holds p Q (follow next ((if is_consumer then watch k fd else return tt) h))
watch_if-then p Q h b true k fd next later = watch-then p Q h b k fd next later
watch_if-then p Q h b false k fd next later = later h b refl

from_descriptor-Holds :
    (p : Resource → Bool) (k : Kernel) (is_consumer : Bool) (header : RingHeader) (e : Endpoint)
    (h : Held)
    → Balanced p h
    → h.owned ≡ descriptor e.event_fd ∷ descriptor e.memory_fd ∷ []
    → Holds p
        (IsSameRing header e)
        (from_descriptor_owned k is_consumer header e.memory_fd e.event_fd h)
unfolding from_descriptor_owned
from_descriptor-Holds p k is_consumer header e h b owned =
    let Q = IsSameRing header e in
    file_len-then p Q h b k e.memory_fd _ (λ len h₁ b₁ o₁.
      shared-then p Q k h₁ b₁ e.memory_fd len _ (λ a h₂ b₂ o₂.
        lift-then p Q h₂ b₂ (validate_header header len) _ (λ _ valid.
          watch_if-then p Q h₂ b₂ is_consumer k e.event_fd _
            (λ h₃ b₃ o₃. (b₃, (rw (o₃, o₂, o₁, owned) refl, refl, refl, valid))))))

-- Whatever the kernel answers: from an endpoint that owns its descriptors and its mapping and nothing else,
-- `into_descriptor` and then `from_descriptor` settle. On success the new endpoint has the same two
-- descriptors and one mapping, of a length that the header is valid for; the old mapping is gone. After an
-- error nothing is owned, so that both descriptors are closed.
pub transfer-Settles :
    (p : Resource → Bool) (k : Kernel) (is_consumer : Bool) (header : RingHeader) (e : Endpoint)
    (h : Held)
    → Balanced p h
    → IsOwner e h.owned
    → Settles p (IsSameRing header e) (leave k (transfer k is_consumer header e h))
unfolding drop_all
transfer-Settles p k is_consumer header e h b owner =
    let before = subst (λ o. acquired p h.log ≡ released p h.log + count p o) owner b in
    leave-Settles p (IsSameRing header e) k _
      (from_descriptor-Holds p k is_consumer header e _ (omega (arith, before)) refl)
