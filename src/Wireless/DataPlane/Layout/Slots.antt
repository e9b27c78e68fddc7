-- ===== src/Wireless/DataPlane/Layout/Slots.antt =====
-- The geometry of a created ring: which rings there are, and where their slots lie.
use dorsche.Base.{
  ℕ, ◌+◌, ◌-◌, ◌*◌, ◌/◌, ◌%◌, ◌^◌, ◌≡◌, ◌≢◌, ◌≤◌, ◌<◌, ◌↔◌, ◌⊎◌, inl, inr, ap, ◌∙◌, bit_and, true,
  ok, bind_passed, arith, bit_and-clear_63,
}
use native.Mathlib.Decide.{dec_lt}
use native.Mathlib.Nat.{mod-lt}
use dorsche.Wireless.DataPlane.Layout.{
  RingHeader, Kernel, Shape, align_up, cache_line, header_size, plan, slot_offset, fresh_header,
  validate_header, create,
}
use dorsche.Wireless.Types.Frame.{descriptor_size}

-- Rounding up to the cache line.
pub align_up-cache_line : (v : ℕ) → v + 63 < 2 ^ 64 → align_up v cache_line ≡ (v + 63) / 64 * 64
unfolding align_up
align_up-cache_line v h =
    ap (λ x. bit_and x (2 ^ 64 - 1 - 63)) (omega arith) ∙ bit_and-clear_63 (v + 63) h

abbrev pub stride_of : ℕ → ℕ
stride_of capacity = (capacity + 127) / 64 * 64

-- The rings that fit the ABI.
pub record IsRing (slot_count payload_capacity : ℕ) : Type 0 where
  pub slots : 2 ≤ slot_count
  pub capacity : 0 < payload_capacity
  pub stride : payload_capacity ≤ 2 ^ 32 - 128

abbrev pub shape_of : ℕ → ℕ → Shape
shape_of slot_count capacity = record {
  slot_stride = stride_of capacity;
  map_len = header_size + stride_of capacity * slot_count;
}

area_le : (s n a b : ℕ) → s ≤ a → n ≤ b → s * n ≤ a * b
area_le s n a b p q = grind arith

stride_lem : (c : ℕ) → c < 2 ^ 32 → align_up (descriptor_size + c) cache_line ≡ stride_of c
stride_lem c h = align_up-cache_line (descriptor_size + c) (omega arith) ∙ omega arith

plan_of_ring : (n c : ℕ) → n < 2 ^ 32 → IsRing n c → plan n c ≡ ok (shape_of n c)
unfolding plan
plan_of_ring n c h r = ground (
  arith,
  stride_lem c (omega arith),
  area_le (stride_of c) n (2 ^ 32 - 64) (2 ^ 32 - 1) (omega arith) (omega arith),
)

IsRing-of_plan : (n c : ℕ) {s : Shape} → c < 2 ^ 32 → plan n c ≡ ok s → IsRing n c
unfolding plan
IsRing-of_plan n c k e = ground (arith, stride_lem c k)

pub record Answers (k : Kernel) : Type 0 where
  pub memfd : k.memfd ≡ ok tt
  pub duplicate_memory : k.duplicate_memory ≡ ok tt
  pub eventfd : k.eventfd ≡ ok tt
  pub duplicate_event : k.duplicate_event ≡ ok tt
  pub map_producer : k.map_producer ≡ ok tt
  pub address_aligned : k.address_aligned ≡ true
  pub map_consumer : k.map_consumer ≡ ok tt
  pub register_event : k.register_event ≡ ok tt

fresh_header-valid :
    (n c : ℕ)
    → IsRing n c
    → validate_header (fresh_header n c (shape_of n c)) (shape_of n c).map_len ≡ ok tt
unfolding validate_header
fresh_header-valid n c r = ground arith

create_of_ring :
    (k : Kernel) (n c : ℕ)
    → Answers k
    → n < 2 ^ 32
    → IsRing n c
    → create k n c ≡ ok (fresh_header n c (shape_of n c), (shape_of n c).map_len)
unfolding create
create_of_ring k n c a h r = ground (arith, plan_of_ring n c h r, fresh_header-valid n c r)

IsRing-of_create :
    (k : Kernel) (n c : ℕ) {x : RingHeader × ℕ} → c < 2 ^ 32 → create k n c ≡ ok x → IsRing n c
unfolding create
IsRing-of_create k n c g e =
    let (s, planned, _) = bind_passed (plan n c) _ e in IsRing-of_plan n c g planned

-- With a kernel that answers, `create` succeeds for exactly the rings of at least two slots whose
-- payload is not empty and leaves a stride of 32 bits; the new header then has the least stride
-- of whole cache lines that holds a descriptor and a payload, and the mapping has room for the
-- header and all slots.
pub create_iff :
    (k : Kernel) (n c : ℕ)
    → Answers k
    → n < 2 ^ 32
    → c < 2 ^ 32
    → (create k n c ≡ ok (fresh_header n c (shape_of n c), (shape_of n c).map_len)) ↔ IsRing n c
create_iff k n c a h g = (IsRing-of_create k n c g, create_of_ring k n c a h)

-- Every slot of a created ring lies behind the header and on a cache line, and its descriptor and
-- payload end inside the mapping.
pub slot_in_bounds :
    (n c i : ℕ)
    → IsRing n c
    → let h = fresh_header n c (shape_of n c) in
      (header_size ≤ slot_offset h i)
      × (slot_offset h i % cache_line ≡ 0)
      × (slot_offset h i + descriptor_size + c ≤ (shape_of n c).map_len)
unfolding slot_offset
slot_in_bounds n c i r =
    let below : i % n < n = mod-lt i (omega (arith, r.slots)) in
    let whole : (i % n + 1) * stride_of c ≤ n * stride_of c =
      area_le (i % n + 1) (stride_of c) n (stride_of c) (omega arith) (omega arith) in
    (omega arith, omega arith, omega arith)

-- Cursors that differ by their slot never share a byte of descriptor or payload.
pub slots_disjoint :
    (n c i j : ℕ)
    → IsRing n c
    → i % n ≢ j % n
    → let h = fresh_header n c (shape_of n c) in
      (slot_offset h i + descriptor_size + c ≤ slot_offset h j)
      ⊎ (slot_offset h j + descriptor_size + c ≤ slot_offset h i)
unfolding slot_offset
slots_disjoint n c i j r ne = elim (dec_lt (i % n) (j % n)) [
  | yes p ↦
      let apart : (i % n + 1) * stride_of c ≤ j % n * stride_of c =
        area_le (i % n + 1) (stride_of c) (j % n) (stride_of c) (omega arith) (omega arith) in
      inl (omega arith)
  | no p ↦
      let apart : (j % n + 1) * stride_of c ≤ i % n * stride_of c =
        area_le (j % n + 1) (stride_of c) (i % n) (stride_of c) (omega arith) (omega arith) in
      inr (omega arith)
]
