-- ===== src/Topshim/Frame/Ledger.antt =====
-- Where the descriptors of a captured frame end up.
use dorsche.Base.{
  ◌*◌, ◌^◌, if◌then◌else◌, ◌≡◌, ◌⊎◌, inl, inr, refl, subst, Bool, true, false, [], ◌∷◌, Option,
  none, some, Result, ok, err, arith, is_nonneg, Bool-cases, ltb,
}
use dorsche.Topshim.Frame.{
  HardwareFrame, SharedPcmFrame, Kernel, Handover, wait_for_fence, valid_fd, map_buffer, mapped,
  after_fence, take_descriptors, from_cpp,
}

-- The frame that a handover gives.
pub record IsFrameOf (raw : HardwareFrame) (frame : SharedPcmFrame) : Type 0 where
  pub buffer : frame.buffer ≡ raw.buffer_fd
  pub buffer_valid : is_nonneg raw.buffer_fd ≡ true
  pub span : frame.mapping_len ≡ frame.sample_count * 4
  pub samples : frame.sample_count ≡ raw.sample_count
  pub rate : frame.sample_rate ≡ raw.sample_rate
  pub order : frame.sequence ≡ raw.sequence
  pub time : frame.capture_time_ns ≡ raw.capture_time_ns
  pub dma : frame.dma_buf ≡ raw.is_dma_buf

-- On success the fence is closed and the frame keeps the buffer. On an error all that was taken is
-- closed, unless the buffer is missing: then a fence that was taken stays open.
abbrev pub Settled : HardwareFrame → Handover → Result SharedPcmFrame → Type 0
Settled raw s (ok frame) =
    IsFrameOf raw frame
    × (s.taken ≡ raw.fence_fd ∷ frame.buffer ∷ [])
    × (s.closed ≡ raw.fence_fd ∷ [])
Settled raw s (err e) =
    (s.closed ≡ s.taken)
    ⊎ ((is_nonneg raw.buffer_fd ≡ false) × (s.taken ≡ valid_fd raw.fence_fd) × (s.closed ≡ []))

abbrev Ends : HardwareFrame → Option Handover → Type 0
Ends raw none = Unit
Ends raw (some s) = Settled raw s s.result

IsFrameOf-map :
    (k : Kernel) (raw : HardwareFrame) (frame : SharedPcmFrame)
    → is_nonneg raw.buffer_fd ≡ true
    → map_buffer k raw (raw.sample_count * 4) ≡ ok frame
    → IsFrameOf raw frame
unfolding map_buffer
IsFrameOf-map k raw frame valid e = ground arith

mapped-Settled :
    (raw : HardwareFrame) (r : Result SharedPcmFrame)
    → ((frame : SharedPcmFrame) → r ≡ ok frame → IsFrameOf raw frame)
    → Settled raw (mapped raw r) (mapped raw r).result
mapped-Settled raw (ok frame) h =
    let is_frame : IsFrameOf raw frame = h frame refl in
    (is_frame, ground (arith, is_frame.buffer), refl)
mapped-Settled raw (err e) h = inl refl

fence-Ends :
    (k : Kernel) (raw : HardwareFrame) (o : Option (Result (Unit {0})))
    → is_nonneg raw.buffer_fd ≡ true
    → Ends raw (after_fence k raw (raw.sample_count * 4) o)
fence-Ends k raw none valid = tt
fence-Ends k raw (some (ok _)) valid =
    mapped-Settled raw (map_buffer k raw (raw.sample_count * 4))
      (λ frame e. IsFrameOf-map k raw frame valid e)
fence-Ends k raw (some (err e)) valid = inl refl

take-Ends :
    (k : Kernel) (raw : HardwareFrame) → Ends raw (take_descriptors k raw (raw.sample_count * 4))
unfolding take_descriptors
take-Ends k raw = elim (Bool-cases (is_nonneg raw.buffer_fd)) [
  | inr missing ↦ rw missing (inr (missing, refl, refl))
  | inl valid ↦ elim (Bool-cases (is_nonneg raw.fence_fd)) [
    | inr no_fence ↦ rw (valid, no_fence) (inl refl)
    | inl fence ↦ rw (valid, fence) (fence-Ends k raw (wait_for_fence k) valid)
  ]
]

if_Ends :
    (raw : HardwareFrame) (test : Bool) (x y : Option Handover)
    → Ends raw x
    → Ends raw y
    → Ends raw (if test then x else y)
if_Ends raw true x y p q = p
if_Ends raw false x y p q = q

cpp-Ends : (k : Kernel) (raw : HardwareFrame) → Ends raw (from_cpp k raw)
unfolding from_cpp
cpp-Ends k raw =
    if_Ends raw raw.is_null _ _ (inl refl)
      (if_Ends raw (ltb (raw.sample_count * 4) (2 ^ 64)) _ _ (take-Ends k raw) (inl refl))

-- Whenever `from_cpp` returns: a frame has the metadata of the C++ object, a mapping of four bytes
-- for each sample and the valid buffer descriptor, and the fence is closed; on an error every
-- descriptor that was taken is closed, but for a fence that comes without a buffer, which stays
-- open.
pub from_cpp_settles :
    (k : Kernel) (raw : HardwareFrame) (s : Handover)
    → from_cpp k raw ≡ some s
    → Settled raw s s.result
from_cpp_settles k raw s e = subst (Ends raw) e (cpp-Ends k raw)
