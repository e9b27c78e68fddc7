-- ===== src/Wireless/DataPlane/Layout/Accepted.antt =====
-- What `validate_header` makes sure of for a ring that another process has shaped, and what not.
use dorsche.Base.{
  ℕ, zero, suc, ◌+◌, ◌-◌, ◌*◌, ◌/◌, ◌%◌, subst, sym, ◌≡◌, ◌≤◌, ◌<◌, ◌↔◌, Result, ok, arith,
}
use native.Mathlib.Nat.{mod-lt, mod-eq_of_lt}
use dorsche.Wireless.Types.Frame.{wireless_audio_abi_version, descriptor_size}
use dorsche.Wireless.DataPlane.Layout.{
  RingHeader, magic_number, cache_line, header_size, slot_offset, validate_header, from_descriptor,
}

pub record IsAccepted (h : RingHeader) (map_len : ℕ) : Type 0 where
  pub magic : h.magic ≡ magic_number
  pub abi : h.abi_version ≡ wireless_audio_abi_version
  pub size : h.header_bytes ≡ header_size
  pub slots : 2 ≤ h.slot_count
  pub aligned : h.slot_stride % cache_line ≡ 0
  pub length : header_size + h.slot_stride * h.slot_count ≡ map_len

pub validate_header_iff :
    (h : RingHeader) (map_len : ℕ) → (validate_header h map_len ≡ ok tt) ↔ IsAccepted h map_len
unfolding validate_header
validate_header_iff h map_len = ((λ e. ground arith), (λ v. ground arith))

accepted_of_from :
    (len : Result ℕ) (mapped : Result (Unit {0})) (h : RingHeader) {map_len : ℕ}
    → from_descriptor len mapped h ≡ ok map_len
    → (len ≡ ok map_len) × (validate_header h map_len ≡ ok tt)
unfolding from_descriptor
accepted_of_from len mapped h e = ground arith

slot_end_le : (q n s : ℕ) → q < n → q * s + s ≤ s * n
slot_end_le q n s h = grind arith

last_slot : (n s : ℕ) → 1 ≤ n → (n - 1) * s + s ≡ s * n
last_slot zero s h = absurd (omega arith)
last_slot (suc n) s h = let before : suc n - 1 ≡ n = omega arith in rw before (omega arith)

aligned_start : (q s : ℕ) → s % 64 ≡ 0 → (header_size + q * s) % 64 ≡ 0
aligned_start q s h =
    let whole : s ≡ s / 64 * 64 = omega arith in
    subst (λ t. (header_size + q * t) % 64 ≡ 0) (sym whole) (omega arith)

-- An endpoint that is built from a descriptor has mapped the whole file, has at least two slots,
-- and every slot begins on a cache line and ends inside the mapping.
pub from_descriptor_slots :
    (len : Result ℕ) (mapped : Result (Unit {0})) (h : RingHeader) (i : ℕ) {map_len : ℕ}
    → from_descriptor len mapped h ≡ ok map_len
    → (len ≡ ok map_len)
      × (2 ≤ h.slot_count)
      × (slot_offset h i % cache_line ≡ 0)
      × (slot_offset h i + h.slot_stride ≤ map_len)
unfolding slot_offset
from_descriptor_slots len mapped h i {map_len} e =
    let found : (len ≡ ok map_len) × (validate_header h map_len ≡ ok tt) =
      accepted_of_from len mapped h e in
    let v : IsAccepted h map_len = (validate_header_iff h map_len).0 found.1 in
    let end : i % h.slot_count * h.slot_stride + h.slot_stride ≤ h.slot_stride * h.slot_count =
      slot_end_le (i % h.slot_count) h.slot_count h.slot_stride
        (mod-lt i (omega (arith, v.slots))) in
    (
      found.0,
      v.slots,
      aligned_start (i % h.slot_count) h.slot_stride v.aligned,
      omega (arith, v.length, end),
    )

-- The check does not look at the payload capacity: a header that is accepted with one is accepted with any,
-- and the payload of the last slot then ends inside the mapping exactly if it fits a stride behind the
-- descriptor.
pub capacity_unchecked :
    (len : Result ℕ) (mapped : Result (Unit {0})) (h : RingHeader) (capacity : ℕ) {map_len : ℕ}
    → from_descriptor len mapped h ≡ ok map_len
    → let h' = record h { payload_capacity = capacity } in
      (from_descriptor len mapped h' ≡ ok map_len)
      × ((slot_offset h' (h.slot_count - 1) + descriptor_size + capacity ≤ map_len)
          ↔ (descriptor_size + capacity ≤ h.slot_stride))
unfolding from_descriptor slot_offset validate_header
capacity_unchecked len mapped h capacity {map_len} e =
    let found : (len ≡ ok map_len) × (validate_header h map_len ≡ ok tt) =
      accepted_of_from len mapped h e in
    let v : IsAccepted h map_len = (validate_header_iff h map_len).0 found.1 in
    let same : (h.slot_count - 1) % h.slot_count ≡ h.slot_count - 1 =
      mod-eq_of_lt (omega (arith, v.slots)) in
    let end : (h.slot_count - 1) * h.slot_stride + h.slot_stride ≡ h.slot_stride * h.slot_count =
      last_slot h.slot_count h.slot_stride (omega (arith, v.slots)) in
    (
      e,
      rw same (
        (λ inside. omega (arith, v.length, end, inside)),
        (λ fits. omega (arith, v.length, end, fits)),
      ),
    )
