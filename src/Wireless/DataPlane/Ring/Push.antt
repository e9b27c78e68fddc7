-- ===== src/Wireless/DataPlane/Ring/Push.antt =====
-- The operations of the media ring, each against the bounded queue.
use dorsche.Base.{
  ℕ, suc, ◌+◌, ◌^◌, ◌≡◌, ◌≤◌, ◌<◌, inl, inr, refl, sym, ap, ◌∙◌, subst, Bool, true, false, List, [],
  ◌∷◌, ◌++◌, none, some, Result, ok, err, ◌>>◌, length, arith, leb_iff, payload_too_large,
}
use native.Mathlib.Decide.{dec_lt, dec_le}
use dorsche.Wireless.Types.Frame.{FrameDescriptor}
use dorsche.Wireless.DataPlane.Queue
use dorsche.Wireless.DataPlane.Queue.{Queue}
use dorsche.Wireless.DataPlane.Ring.{
  Ring, u64, try_reserve, write_payload, commit, push_leased, try_push_copy, queued_frames, sealed,
  publish,
}
use dorsche.Wireless.DataPlane.Ring.Window.{length-window}
use dorsche.Wireless.DataPlane.Ring.Invariant.{
  queued, blank, contents, IsValid, Lasts, stored, publish_lem, queued-stored, contents-stored,
  stored-IsValid,
}

-- The queue that a ring stands for.
abbrev pub view : Ring → Queue
view r = record { frames = contents r; dropped = r.dropped }

pub length-contents : (r : Ring) → length (contents r) ≡ queued r
length-contents r = length-window r.slots r.slot_count (blank r) r.tail (queued r)

-- `queued_frames` counts the frames of the queue.
pub queued_frames-eq-length : (r : Ring) → queued_frames r ≡ length (contents r)
unfolding queued_frames
queued_frames-eq-length r = sym (length-contents r)

pub dropped_IsValid : {r : Ring} (n : ℕ) → IsValid r → IsValid (record r { dropped = n })
dropped_IsValid {r} n v = record {
  count_low = v.count_low;
  count_u32 = v.count_u32;
  capacity_u32 = v.capacity_u32;
  slots_length = v.slots_length;
  head_u64 = v.head_u64;
  tail_u64 = v.tail_u64;
  fits = v.fits;
  buffers = v.buffers;
  readable = v.readable;
}

pub reserve_full :
    (r : Ring)
    → r.slot_count ≤ queued r
    → try_reserve r ≡ (none, record r { dropped = u64 (r.dropped + 1) })
unfolding try_reserve
reserve_full r h = ground arith

pub reserve_space : (r : Ring) → queued r < r.slot_count → try_reserve r ≡ (some r.head, r)
unfolding try_reserve
reserve_space r h = ground arith

commit_fits :
    (signal : Result (Unit {0})) (r : Ring) (head n : ℕ) (d : FrameDescriptor)
    → n ≤ r.payload_capacity
    → n < 2 ^ 32
    → commit signal r head d n ≡ (signal, publish r head d n)
unfolding commit
commit_fits signal r head n d h k = ground arith

module _ (signal : Result (Unit {0})) (r : Ring) (d : FrameDescriptor) (payload : List ℕ) where
  push_full :
      r.slot_count ≤ queued r
      → try_push_copy signal r d payload ≡ (ok false, record r { dropped = u64 (r.dropped + 1) })
  unfolding try_push_copy
  push_full h = ap (λ x. push_leased signal x d payload) (reserve_full r h)

  push_large :
      queued r < r.slot_count
      → r.payload_capacity < length payload
      → try_push_copy signal r d payload ≡ (err payload_too_large, r)
  unfolding try_push_copy
  push_large h k = ap (λ x. push_leased signal x d payload) (reserve_space r h) ∙ ground arith

  pub committed :
      IsValid r
      → length payload ≤ r.payload_capacity
      → commit signal (write_payload r r.head payload) r.head d (length payload)
        ≡ (signal, stored r d payload)
  unfolding write_payload
  committed v k =
      commit_fits signal (write_payload r r.head payload) r.head (length payload) d k
        (omega (arith, v.capacity_u32))
      ∙ ap (λ x. (signal, x)) (publish_lem v d payload)

  push_stored :
      IsValid r
      → queued r < r.slot_count
      → length payload ≤ r.payload_capacity
      → try_push_copy signal r d payload ≡ (signal >> ok true, stored r d payload)
  unfolding try_push_copy
  push_stored v h k =
      ap (λ x. push_leased signal x d payload) (reserve_space r h)
      ∙ rw ((leb_iff (length payload) r.payload_capacity).1 k, committed v k) refl

module _ (count capacity : ℕ) (signal : Result (Unit {0})) (q : Queue) (d : FrameDescriptor)
    (payload : List ℕ) where
  queue_full :
      count ≤ length q.frames
      → Queue.push count capacity signal q d payload
        ≡ (ok false, record q { dropped = u64 (q.dropped + 1) })
  unfolding Queue.push
  queue_full h = rw ((leb_iff count (length q.frames)).1 h)

  queue_large :
      length q.frames < count
      → capacity < length payload
      → Queue.push count capacity signal q d payload ≡ (err payload_too_large, q)
  unfolding Queue.push
  queue_large h k = ground arith

  queue_stored :
      length q.frames < count
      → length payload ≤ capacity
      → Queue.push count capacity signal q d payload ≡ (
        signal >> ok true,
        record q { frames = q.frames ++ ((sealed d (length payload), payload) ∷ []) },
      )
  unfolding Queue.push
  queue_stored h k = ground arith

-- `try_push_copy` does to a valid ring what a push does to its queue, with the same answer, and
-- leaves it valid: a full queue drops and counts the frame, a payload over the capacity is refused
-- and nothing changes, any other frame goes last into the queue, with the descriptor fields that
-- `commit` sets, whatever the wakeup answers.
pub try_push_copy_refines :
    (signal : Result (Unit {0})) (r : Ring) (d : FrameDescriptor) (payload : List ℕ)
    → IsValid r
    → Lasts r 0
    → let (a, r') = try_push_copy signal r d payload in
      IsValid r'
      × ((a, view r') ≡ Queue.push r.slot_count r.payload_capacity signal (view r) d payload)
try_push_copy_refines signal r d payload v lasts = elim (dec_lt (queued r) r.slot_count) [
  | yes space ↦ elim (dec_le (length payload) r.payload_capacity) [
    | yes small ↦ subst Refines (sym (push_stored signal r d payload v space small)) (
      stored-IsValid v d payload lasts space small,
      ap (λ fs. (signal >> ok true, record (view r) { frames = fs }))
            (contents-stored v d payload lasts space small)
          ∙ sym (queue_stored n c signal (view r) d payload (counted space) small),
    )
    | no large ↦
        subst Refines (sym (push_large signal r d payload space (omega arith)))
          (v, sym (queue_large n c signal (view r) d payload (counted space) (omega arith)))
  ]
  | no full ↦ subst Refines (sym (push_full signal r d payload (omega arith))) (
    dropped_IsValid (u64 (r.dropped + 1)) v,
    sym (queue_full n c signal (view r) d payload (omega (arith, length-contents r))),
  )
]
  where
    n : ℕ
    n = r.slot_count

    c : ℕ
    c = r.payload_capacity

    Refines : Result Bool × Ring → Type 0
    Refines (a, r') = IsValid r' × ((a, view r') ≡ Queue.push n c signal (view r) d payload)

    counted : queued r < r.slot_count → length (contents r) < r.slot_count
    counted h = omega (arith, length-contents r)

-- A push moves no tail, and its ring lasts for one push fewer.
pub push-Lasts :
    (signal : Result (Unit {0})) (r : Ring) (d : FrameDescriptor) (payload : List ℕ) (k : ℕ)
    → IsValid r
    → Lasts r (suc k)
    → let r' = (try_push_copy signal r d payload).1 in
      Lasts r' k
      × (r'.tail ≡ r.tail)
      × (r'.slot_count ≡ r.slot_count)
      × (r'.payload_capacity ≡ r.payload_capacity)
push-Lasts signal r d payload k v lasts = elim (dec_lt (queued r) r.slot_count) [
  | yes space ↦ elim (dec_le (length payload) r.payload_capacity) [
    | yes small ↦ subst Keeps (sym (push_stored signal r d payload v space small)) (
      elim lasts [
        | inl whole ↦ inl whole
        | inr short ↦ inr (omega (arith, queued-stored v d payload (inr (omega arith)) space small))
      ],
      refl,
      refl,
      refl,
    )
    | no large ↦ subst Keeps (sym (push_large signal r d payload space (omega arith))) unmoved
  ]
  | no full ↦ subst Keeps (sym (push_full signal r d payload (omega arith))) unmoved
]
  where
    Keeps : Result Bool × Ring → Type 0
    Keeps (a, r') =
        Lasts r' k
        × (r'.tail ≡ r.tail)
        × (r'.slot_count ≡ r.slot_count)
        × (r'.payload_capacity ≡ r.payload_capacity)

    fewer : Lasts r k
    fewer = elim lasts [ inl whole ↦ inl whole | inr short ↦ inr (omega arith) ]

    unmoved :
        Lasts r k
        × (r.tail ≡ r.tail)
        × (r.slot_count ≡ r.slot_count)
        × (r.payload_capacity ≡ r.payload_capacity)
    unmoved = (fewer, refl, refl, refl)
