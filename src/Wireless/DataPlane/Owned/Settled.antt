-- ===== src/Wireless/DataPlane/Owned/Settled.antt =====
-- What is owned after a ring has been made or passed on, and that nothing else stays open.
use dorsche.Base.{
  ℕ, ◌≡◌, Bool, refl, inl, inr, Bool-cases, List, [], ◌∷◌, Result, ok, err, ensure, ℤ,
  mmap_alignment, arith,
}
use dorsche.Wireless.DataPlane.Layout.{plan, fresh_header, validate_header}
use dorsche.Wireless.DataPlane.System.{fd_len}
use dorsche.Wireless.DataPlane.Owned.{is_zero, is_aligned, watch, Endpoint, create_owned, file_len}
use dorsche.Wireless.DataPlane.Owned.Actions.{
  Kernel, Resource, descriptor, mapping, Held, Own, register, fstat, leave, follow,
}
use dorsche.Wireless.DataPlane.Owned.Balance.{
  Balanced, Holds, drop_all-balance, duplicate_fd-then, create_eventfd-then, shared-then,
  create_memfd-then,
}

-- What a `Producer` or a `Consumer` owns.
abbrev pub IsOwner : Endpoint → List Resource → Type 0
IsOwner e owned =
    owned ≡ mapping e.address e.map_len ∷ descriptor e.event_fd ∷ descriptor e.memory_fd ∷ []

-- What the two of them own.
abbrev pub AreOwners : Endpoint × Endpoint → List Resource → Type 0
AreOwners (p, c) owned =
    owned
    ≡ mapping c.address c.map_len
      ∷ mapping p.address p.map_len
      ∷ descriptor c.event_fd
      ∷ descriptor p.event_fd
      ∷ descriptor c.memory_fd
      ∷ descriptor p.memory_fd
      ∷ []

-- Balanced, with `Q` of a value and what it owns; an error leaves nothing.
abbrev pub Settles :
    {A : Type 0} → (Resource → Bool) → (A → List Resource → Type 0) → Result A × Held → Type 0
Settles p Q (ok a, h) = Balanced p h × Q a h.owned
Settles p Q (err e, h) = Balanced p h × (h.owned ≡ [])

pub leave-Settles :
    {A : Type 0} (p : Resource → Bool) (Q : A → List Resource → Type 0) (k : Kernel)
    (m : Result A × Held)
    → Holds p Q m
    → Settles p Q (leave k m)
leave-Settles p Q k (ok a, h) b = b
leave-Settles p Q k (err e, h) b = (drop_all-balance p k h.owned h.log b, refl)

pub lift-then :
    (p : Resource → Bool) {A : Type 0} (Q : A → List Resource → Type 0) (h : Held)
    → Balanced p h
    → {B : Type 0} (r : Result B) (next : B → Own A) → ((v : B) → r ≡ ok v → Holds p Q (next v h))
    → Holds p Q (follow next (r, h))
lift-then p Q h b (ok v) next later = later v refl
lift-then p Q h b (err e) next later = b

module _ (p : Resource → Bool) {A : Type 0} (Q : A → List Resource → Type 0) (h : Held)
    (b : Balanced p h) where
  pub watch-then :
      (k : Kernel) (fd : ℤ) (next : Unit {0} → Own A)
      → ((h' : Held) → Balanced p h' → h'.owned ≡ h.owned → Holds p Q (next tt h'))
      → Holds p Q (follow next (watch k fd h))
  watch-then k fd next later = elim (Bool-cases (is_zero (k.answer h.log (register fd)))) [
    | inl good ↦ rw good (later _ (omega (arith, b)) refl)
    | inr bad ↦ rw bad (omega (arith, b))
  ]

  pub file_len-then :
      (k : Kernel) (fd : ℤ) (next : ℕ → Own A)
      → ((len : ℕ) (h' : Held) → Balanced p h' → h'.owned ≡ h.owned → Holds p Q (next len h'))
      → Holds p Q (follow next (file_len k fd h))
  file_len-then k fd next later =
      lift-then p Q _ (omega (arith, b))
        (fd_len (k.answer h.log (fstat fd)) (k.size h.log) (k.errno h.log)) next
        (λ len _. later len _ (omega (arith, b)) refl)

abbrev pub nothing_held : Held
nothing_held = record { log = []; owned = [] }

create-Holds :
    (p : Resource → Bool) (k : Kernel) (slot_count payload_capacity : ℕ)
    → Holds p AreOwners (create_owned k slot_count payload_capacity nothing_held)
unfolding create_owned
create-Holds p k slot_count payload_capacity =
    lift-then p AreOwners nothing_held refl (plan slot_count payload_capacity) _ (λ s _.
      create_memfd-then p AreOwners k nothing_held refl s.map_len _ (λ m h₁ b₁ o₁.
        duplicate_fd-then p AreOwners k h₁ b₁ m _ (λ m' h₂ b₂ o₂.
          create_eventfd-then p AreOwners k h₂ b₂ _ (λ e h₃ b₃ o₃.
            duplicate_fd-then p AreOwners k h₃ b₃ e _ (λ e' h₄ b₄ o₄.
              shared-then p AreOwners k h₄ b₄ m s.map_len _ (λ a h₅ b₅ o₅.
                lift-then p AreOwners h₅ b₅ (ensure (is_aligned a) mmap_alignment) _ (λ _ _.
                  shared-then p AreOwners k h₅ b₅ m' s.map_len _ (λ a' h₆ b₆ o₆.
                    lift-then p AreOwners h₆ b₆
                      (validate_header (fresh_header slot_count payload_capacity s) s.map_len) _
                      (λ _ _.
                        watch-then p AreOwners h₆ b₆ k e' _
                          (λ h₇ b₇ o₇. (b₇, rw (o₇, o₆, o₅, o₄, o₃, o₂, o₁) refl)))))))))))

-- Whatever the kernel answers, `RingPair::create` settles: of the descriptors and mappings of any kind,
-- as many were made as were closed or unmapped and are owned in the end. After an error nothing is
-- owned. On success the two endpoints own two descriptors and a mapping each.
pub create_owned-Settles :
    (p : Resource → Bool) (k : Kernel) (slot_count payload_capacity : ℕ)
    → Settles p AreOwners (leave k (create_owned k slot_count payload_capacity nothing_held))
create_owned-Settles p k slot_count payload_capacity =
    leave-Settles p AreOwners k _ (create-Holds p k slot_count payload_capacity)
