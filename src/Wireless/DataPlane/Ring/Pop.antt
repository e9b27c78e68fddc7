-- ===== src/Wireless/DataPlane/Ring/Pop.antt =====
-- The consumer's side of the media ring, against the bounded queue.
use dorsche.Base.{
  ℕ, zero, suc, ◌+◌, ◌^◌, ◌≡◌, ◌≢◌, ◌<◌, inl, inr, refl, sym, ap, ◌∙◌, subst, List, [], ◌∷◌, All,
  Option, none, some, ok, arith, ==_iff, leb_iff, ◌==◌, false,
}
use native.Mathlib.Decide.{dec_lt}
use dorsche.Wireless.DataPlane.Ring.{
  Slot, Ring, slot_at, u64, FrameLease, lease_slot, check_slot, try_acquire, release,
}
use dorsche.Wireless.DataPlane.Ring.Window.{Frame, frame_of, window, window-wrap}
use dorsche.Wireless.DataPlane.Ring.Invariant.{queued, blank, contents, IsReadable, IsValid, Lasts}

-- The lease on the oldest frame.
abbrev pub oldest : List Frame → ℕ → Option FrameLease
oldest [] tail = none
oldest ((d, bytes) ∷ rest) tail = some (record { descriptor = d; bytes = bytes; tail = tail })

ne→==false : (a b : ℕ) → a ≢ b → a == b ≡ false
ne→==false a b h = ground arith

check_readable :
    (capacity : ℕ) (s : Slot) (tail : ℕ)
    → IsReadable capacity (frame_of s)
    → check_slot capacity s tail ≡ ok (some (lease_slot s tail))
unfolding check_slot
check_readable capacity s tail h = rw (
  (==_iff s.descriptor.abi_version 1).1 h.0,
  (==_iff s.descriptor.header_bytes 64).1 h.1,
  (leb_iff s.descriptor.payload_bytes capacity).1 h.2,
)

acquire_at :
    (r : Ring) (n : ℕ)
    → IsValid r
    → queued r ≡ n
    → All (IsReadable r.payload_capacity) (window r.slots r.slot_count (blank r) r.tail n)
    → try_acquire r ≡ ok (oldest (window r.slots r.slot_count (blank r) r.tail n) r.tail)
unfolding try_acquire
acquire_at r zero v e readable =
    let same : r.tail ≡ r.head = omega (arith, v.head_u64, v.tail_u64) in
    rw ((==_iff r.tail r.head).1 same)
acquire_at r (suc n) v e readable =
    let other : r.tail ≢ r.head = omega (arith, v.head_u64, v.tail_u64, e) in
    rw (ne→==false r.tail r.head other)
      (check_readable r.payload_capacity (slot_at r r.tail) r.tail readable.0)

-- The consumer is given the oldest frame of the queue, as it was published, or nothing if there is
-- none; on a valid ring none of its checks of the descriptor fails.
pub try_acquire_lem : (r : Ring) → IsValid r → try_acquire r ≡ ok (oldest (contents r) r.tail)
try_acquire_lem r v = acquire_at r (queued r) v refl v.readable

module _ (r : Ring) (l : FrameLease) (v : IsValid r) (here : l.tail ≡ r.tail) (lasts : Lasts r 0)
    (some_frame : 0 < queued r) where
  queued-release : suc (queued (release r l)) ≡ queued r
  unfolding release
  queued-release = omega (arith, v.head_u64, v.tail_u64, v.count_u32, v.fits, here, some_frame)

  window-release :
      (n : ℕ)
      → window r.slots r.slot_count (blank r) (u64 (l.tail + 1)) n
        ≡ window r.slots r.slot_count (blank r) (r.tail + 1) n
  window-release n = elim (dec_lt (r.tail + 1) (2 ^ 64)) [
    | yes short ↦ ap (λ t. window r.slots r.slot_count (blank r) t n) (omega (arith, here))
    | no full ↦ elim lasts [
      | inl whole ↦
          ap (λ t. window r.slots r.slot_count (blank r) t n) (omega (arith, here, v.tail_u64))
          ∙ sym (window-wrap r.slots r.slot_count (blank r) (2 ^ 64) whole 0 n)
          ∙ ap (λ t. window r.slots r.slot_count (blank r) t n) (omega (arith, v.tail_u64))
      | inr short ↦ absurd (omega arith)
    ]
  ]

  contents-uncons : contents r ≡ frame_of (slot_at r r.tail) ∷ contents (release r l)
  unfolding release
  contents-uncons =
      ap (window r.slots r.slot_count (blank r) r.tail) (sym queued-release)
      ∙ ap (λ rest. frame_of (slot_at r r.tail) ∷ rest)
          (sym (window-release (queued (release r l))))

  release-IsValid : IsValid (release r l)
  unfolding release
  release-IsValid = record {
    count_low = v.count_low;
    count_u32 = v.count_u32;
    capacity_u32 = v.capacity_u32;
    slots_length = v.slots_length;
    head_u64 = v.head_u64;
    tail_u64 = omega arith;
    fits = omega (arith, queued-release, v.fits);
    buffers = v.buffers;
    readable = (subst (All (IsReadable r.payload_capacity)) contents-uncons v.readable).1;
  }

checked_slot :
    (capacity : ℕ) (s : Slot) (tail : ℕ) {l : FrameLease}
    → check_slot capacity s tail ≡ ok (some l)
    → l ≡ lease_slot s tail
unfolding check_slot
checked_slot capacity s tail h = ground arith

-- What the lease holds is what its slot holds.
pub leased :
    (r : Ring) (l : FrameLease)
    → try_acquire r ≡ ok (some l)
    → (r.tail ≢ r.head) × (l ≡ lease_slot (slot_at r r.tail) r.tail)
unfolding try_acquire
leased r l h = ground (arith, checked_slot r.payload_capacity (slot_at r r.tail) r.tail {l = l})

-- Dropping the lease on the oldest frame takes that frame from the queue and no other: the rest
-- stays in order, the ring stays valid, and one frame fewer is queued.
pub release_lem :
    (r : Ring) (l : FrameLease)
    → IsValid r
    → Lasts r 0
    → try_acquire r ≡ ok (some l)
    → IsValid (release r l)
      × (contents r ≡ (l.descriptor, l.bytes) ∷ contents (release r l))
      × (suc (queued (release r l)) ≡ queued r)
release_lem r l v lasts e =
    let (other, same) = leased r l e in
    let here : l.tail ≡ r.tail = ap (λ (x : FrameLease). x.tail) same in
    let some_frame : 0 < queued r = omega (arith, v.head_u64, v.tail_u64, other) in
    (
      release-IsValid r l v here lasts some_frame,
      contents-uncons r l v here lasts some_frame
          ∙ ap (λ (x : FrameLease). (x.descriptor, x.bytes) ∷ contents (release r l)) (sym same),
      queued-release r l v here lasts some_frame,
    )

-- The end of a lease leaves the ring good for as many pushes.
pub release-Lasts :
    (r : Ring) (l : FrameLease) (k : ℕ)
    → IsValid r
    → Lasts r k
    → try_acquire r ≡ ok (some l)
    → Lasts (release r l) k
unfolding release
release-Lasts r l k v (inl whole) e = inl whole
release-Lasts r l k v (inr short) e =
    let (other, same) = leased r l e in
    let here : l.tail ≡ r.tail = ap (λ (x : FrameLease). x.tail) same in
    let some_frame : 0 < queued r = omega (arith, v.head_u64, v.tail_u64, other) in
    let fewer = queued-release r l v here (inr (omega (arith, short))) some_frame in
    inr (omega (arith, fewer, here, short))
