-- ===== src/Wireless/DataPlane/Owned/Balance.antt =====
-- The balance of system calls and ownership in src/wireless/data_plane.rs: what was opened and mapped is what
-- was closed and unmapped and what is still owned.
use dorsche.Base.{
  ℕ, ◌+◌, ◌≡◌, Bool, ◌&&◌, not, if◌then◌else◌, refl, inl, inr, Bool-cases, List, [], ◌∷◌, Result,
  ok, err, ℤ, is_nonneg, arith,
}
use dorsche.Wireless.DataPlane.Owned.{
  is_zero, map_failed, create_memfd, duplicate_fd, create_eventfd, shared,
}
use dorsche.Wireless.DataPlane.Owned.Actions.{
  Kernel, Resource, descriptor, mapping, Held, Own, SysCall, memfd_create, eventfd, ftruncate,
  add_seals, duplicate, close, mmap, munmap, Log, drop_all, follow,
}

-- 1 for a resource in `p`.
abbrev one_if : Bool → ℕ
one_if b = if b then 1 else 0

module _ (p : Resource → Bool) where
  -- How many resources in `p` a call with this answer makes.
  abbrev pub acquires : SysCall → ℤ → ℕ
  acquires memfd_create fd = one_if (is_nonneg fd && p (descriptor fd))
  acquires eventfd fd = one_if (is_nonneg fd && p (descriptor fd))
  acquires (duplicate _) fd = one_if (is_nonneg fd && p (descriptor fd))
  acquires (mmap _ len) address = one_if (not (map_failed address) && p (mapping address len))
  acquires _ _ = 0

  abbrev pub releases : SysCall → ℕ
  releases (close fd) = one_if (p (descriptor fd))
  releases (munmap address len) = one_if (p (mapping address len))
  releases _ = 0

  abbrev pub acquired : Log → ℕ
  acquired [] = 0
  acquired ((c, a) ∷ log) = acquires c a + acquired log

  abbrev pub released : Log → ℕ
  released [] = 0
  released ((c, a) ∷ log) = releases c + released log

  abbrev pub count : List Resource → ℕ
  count [] = 0
  count (r ∷ rs) = one_if (p r) + count rs

  abbrev pub Balanced : Held → Type 0
  Balanced h = acquired h.log ≡ released h.log + count h.owned

  -- Balanced, and with `Q` of the value and what is owned if there is a value.
  abbrev pub Holds : {A : Type 0} → (A → List Resource → Type 0) → Result A × Held → Type 0
  Holds Q (ok a, h) = Balanced h × Q a h.owned
  Holds Q (err e, h) = Balanced h

  pub drop_all-balance :
      (k : Kernel) (rs : List Resource) (log : Log)
      → acquired log ≡ released log + count rs
      → acquired (drop_all k rs log) ≡ released (drop_all k rs log) + 0
  unfolding drop_all
  drop_all-balance k [] log e = e
  drop_all-balance k (descriptor fd ∷ rs) log e = drop_all-balance k rs _ (omega (arith, e))
  drop_all-balance k (mapping a len ∷ rs) log e = drop_all-balance k rs _ (omega (arith, e))

  module _ {A : Type 0} (Q : A → List Resource → Type 0) (k : Kernel) (h : Held)
      (b : Balanced h) where
    pub duplicate_fd-then :
        (fd : ℤ) (next : ℤ → Own A)
        → ((copy : ℤ) (h' : Held)
            → Balanced h'
            → h'.owned ≡ descriptor copy ∷ h.owned
            → Holds Q (next copy h'))
        → Holds Q (follow next (duplicate_fd k fd h))
    unfolding duplicate_fd
    duplicate_fd-then fd next later =
        elim (Bool-cases (is_nonneg (k.answer h.log (duplicate fd)))) [
          | inl good ↦ rw good (later _ _ (rw good (omega (arith, b))) refl)
          | inr bad ↦ rw bad (rw bad (omega (arith, b)))
        ]

    pub create_eventfd-then :
        (next : ℤ → Own A)
        → ((fd : ℤ) (h' : Held)
            → Balanced h'
            → h'.owned ≡ descriptor fd ∷ h.owned
            → Holds Q (next fd h'))
        → Holds Q (follow next (create_eventfd k h))
    unfolding create_eventfd
    create_eventfd-then next later = elim (Bool-cases (is_nonneg (k.answer h.log eventfd))) [
      | inl good ↦ rw good (later _ _ (rw good (omega (arith, b))) refl)
      | inr bad ↦ rw bad (rw bad (omega (arith, b)))
    ]

    pub shared-then :
        (fd : ℤ) (len : ℕ) (next : ℤ → Own A)
        → ((address : ℤ) (h' : Held)
            → Balanced h'
            → h'.owned ≡ mapping address len ∷ h.owned
            → Holds Q (next address h'))
        → Holds Q (follow next (shared k fd len h))
    unfolding shared
    shared-then fd len next later = elim (Bool-cases (map_failed (k.answer h.log (mmap fd len)))) [
      | inl bad ↦ rw bad (rw bad (omega (arith, b)))
      | inr good ↦ rw good (later _ _ (rw good (omega (arith, b))) refl)
    ]

    pub create_memfd-then :
        (len : ℕ) (next : ℤ → Own A)
        → ((fd : ℤ) (h' : Held)
            → Balanced h'
            → h'.owned ≡ descriptor fd ∷ h.owned
            → Holds Q (next fd h'))
        → Holds Q (follow next (create_memfd k len h))
    unfolding create_memfd
    create_memfd-then len next later =
        let fd = k.answer h.log memfd_create in
        let log₁ = (memfd_create, fd) ∷ h.log in
        let sized = k.answer log₁ (ftruncate fd len) in
        let log₂ = (ftruncate fd len, sized) ∷ log₁ in
        elim (Bool-cases (is_nonneg fd)) [
          | inr bad ↦ rw bad (rw bad (omega (arith, b)))
          | inl good ↦ elim (Bool-cases (is_zero sized)) [
            | inr unsized ↦ rw (good, unsized) (rw good (omega (arith, b)))
            | inl whole ↦ elim (Bool-cases (is_zero (k.answer log₂ (add_seals fd)))) [
              | inr unsealed ↦ rw (good, whole, unsealed) (rw good (omega (arith, b)))
              | inl sealed ↦ rw (good, whole, sealed) (later _ _ (rw good (omega (arith, b))) refl)
            ]
          ]
        ]
