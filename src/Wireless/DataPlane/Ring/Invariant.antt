-- ===== src/Wireless/DataPlane/Ring/Invariant.antt =====
-- The invariant of the ring, its contents, and what one publication does to them.
use dorsche.Base.{
  ℕ, zero, suc, ◌+◌, ◌%◌, ◌^◌, ◌≡◌, ◌≤◌, ◌<◌, ◌⊎◌, inl, inr, refl, sym, ap, ◌∙◌, subst, List, [],
  ◌∷◌, ◌++◌, All, All-set, All-snoc, All-get_or, length, length-append, length-drop, length-set,
  length-replicate, get_or, set, set-set, drop, replicate, get_or-set_self, take-append, arith,
}
use native.Mathlib.Nat.{mod-eq_of_lt, mod-lt, mod-mod_of_dvd, dvd_of_mod-eq-zero}
use dorsche.Wireless.Types.Frame.{FrameDescriptor, wireless_audio_abi_version, descriptor_size}
use dorsche.Wireless.DataPlane.Ring.{
  Slot, Ring, fresh, zero_slot, slot_at, u64, wrapping_sub, write_payload, sealed, publish,
}
use dorsche.Wireless.DataPlane.Ring.Window.{Frame, frame_of, window, window-set}

abbrev pub queued : Ring → ℕ
queued r = wrapping_sub r.head r.tail

abbrev pub blank : Ring → Slot
blank r = zero_slot r.payload_capacity

-- The published frames that the consumer has not returned, oldest first.
abbrev pub contents : Ring → List Frame
contents r = window r.slots r.slot_count (blank r) r.tail (queued r)

-- What the consumer checks of a descriptor.
abbrev pub IsReadable : ℕ → Frame → Type 0
IsReadable capacity (d, bytes) =
    (d.abi_version ≡ wireless_audio_abi_version)
    × (d.header_bytes ≡ descriptor_size)
    × (d.payload_bytes ≤ capacity)

abbrev pub Fills : ℕ → Slot → Type 0
Fills capacity s = length s.payload ≡ capacity

pub record IsValid (r : Ring) : Type 0 where
  pub count_low : 2 ≤ r.slot_count
  pub count_u32 : r.slot_count < 2 ^ 32
  pub capacity_u32 : r.payload_capacity < 2 ^ 32
  pub slots_length : length r.slots ≡ r.slot_count
  pub head_u64 : r.head < 2 ^ 64
  pub tail_u64 : r.tail < 2 ^ 64
  pub fits : queued r ≤ r.slot_count
  pub buffers : All (Fills r.payload_capacity) r.slots
  pub readable : All (IsReadable r.payload_capacity) (contents r)

-- The cursors can advance `k` more times: the slot count divides 2^64, or no cursor wraps.
abbrev pub Lasts : Ring → ℕ → Type 0
Lasts r k = (2 ^ 64 % r.slot_count ≡ 0) ⊎ (r.tail + queued r + k < 2 ^ 64)

All-replicate : (P : Slot → Type 0) (n : ℕ) (s : Slot) → P s → All P (replicate n s)
All-replicate P zero s p = tt
All-replicate P (suc n) s p = (p, All-replicate P n s p)

-- The ring of `RingPair::create` is valid and empty.
pub fresh-IsValid :
    (n c : ℕ) → 2 ≤ n → n < 2 ^ 32 → c < 2 ^ 32 → IsValid (fresh n c) × (contents (fresh n c) ≡ [])
fresh-IsValid n c h k l = (
  record {
    count_low = h;
    count_u32 = k;
    capacity_u32 = l;
    slots_length = length-replicate n (zero_slot c);
    head_u64 = omega arith;
    tail_u64 = omega arith;
    fits = omega arith;
    buffers = All-replicate (Fills c) n (zero_slot c) (length-replicate c 0);
    readable = tt;
  },
  refl,
)

head_lem : {r : Ring} → IsValid r → r.head ≡ (r.tail + queued r) % 2 ^ 64
head_lem v = omega (arith, v.head_u64, v.tail_u64)

-- The head names the slot that counting on from the tail names.
pub head-mod :
    {r : Ring} → IsValid r → Lasts r 0 → r.head % r.slot_count ≡ (r.tail + queued r) % r.slot_count
head-mod {r} v (inl whole) =
    ap (λ x. x % r.slot_count) (head_lem v)
    ∙ mod-mod_of_dvd r.slot_count (r.tail + queued r) (dvd_of_mod-eq-zero r.slot_count whole)
head-mod {r} v (inr short) =
    ap (λ x. x % r.slot_count) (head_lem v ∙ mod-eq_of_lt (omega (arith, short)))

-- Two writes to one slot are one.
set-twice :
    (xs : List Slot) (i : ℕ) (d : Slot) (f g : Slot → Slot)
    → i < length xs
    → set (set xs i (f (get_or xs i d))) i (g (get_or (set xs i (f (get_or xs i d))) i d))
      ≡ set xs i (g (f (get_or xs i d)))
set-twice xs i d f g h =
    ap (λ s. set (set xs i (f (get_or xs i d))) i (g s))
      (get_or-set_self xs i (f (get_or xs i d)) d h)
    ∙ set-set xs i (f (get_or xs i d)) (g (f (get_or xs i d)))

-- The slot that `payload` and `d` fill.
abbrev pub filled : Ring → FrameDescriptor → List ℕ → Slot
filled r d payload = record {
  descriptor = sealed d (length payload);
  payload = payload ++ drop (length payload) (slot_at r r.head).payload;
}

-- The ring with one frame more.
abbrev pub stored : Ring → FrameDescriptor → List ℕ → Ring
stored r d payload = record r {
  slots = set r.slots (r.head % r.slot_count) (filled r d payload);
  head = u64 (r.head + 1);
}

module _ {r : Ring} (v : IsValid r) (d : FrameDescriptor) (payload : List ℕ) where
  slot_in : r.head % r.slot_count < length r.slots
  slot_in =
      omega (arith, mod-lt r.head {m = r.slot_count} (omega (arith, v.count_low)), v.slots_length)

  -- `payload_mut` and `commit` write one slot between them.
  pub publish_lem :
      publish (write_payload r r.head payload) r.head d (length payload) ≡ stored r d payload
  unfolding write_payload
  publish_lem =
      ap (λ (l : List Slot). record r { slots = l; head = u64 (r.head + 1) })
        (set-twice r.slots (r.head % r.slot_count) (blank r)
          (λ s. record s { payload = payload ++ drop (length payload) s.payload })
          (λ s. record s { descriptor = sealed d (length payload) }) slot_in)

  module _ (lasts : Lasts r 0) (space : queued r < r.slot_count)
      (small : length payload ≤ r.payload_capacity) where
    frame-filled : frame_of (filled r d payload) ≡ (sealed d (length payload), payload)
    frame-filled =
        ap (λ bytes. (sealed d (length payload), bytes))
          (take-append payload (drop (length payload) (slot_at r r.head).payload))

    pub queued-stored : queued (stored r d payload) ≡ suc (queued r)
    queued-stored = omega (arith, v.head_u64, v.tail_u64, v.count_u32, space)

    -- A publication appends its frame.
    pub contents-stored :
        contents (stored r d payload) ≡ contents r ++ ((sealed d (length payload), payload) ∷ [])
    contents-stored =
        ap (window (stored r d payload).slots r.slot_count (blank r) r.tail) queued-stored
        ∙ window-set r.slots r.slot_count (blank r) (filled r d payload) (queued r) r.tail
            (r.head % r.slot_count) space (omega (arith, v.slots_length)) (head-mod v lasts)
        ∙ ap (λ f. contents r ++ (f ∷ [])) frame-filled

    old_fills : length (slot_at r r.head).payload ≡ r.payload_capacity
    old_fills =
        All-get_or (Fills r.payload_capacity) r.slots (r.head % r.slot_count) (blank r) v.buffers
          (length-replicate r.payload_capacity 0)

    filled-Fills : Fills r.payload_capacity (filled r d payload)
    filled-Fills = omega (
      arith,
      length-append payload (drop (length payload) (slot_at r r.head).payload),
      length-drop (length payload) (slot_at r r.head).payload,
      old_fills,
      small,
    )

    pub stored-IsValid : IsValid (stored r d payload)
    stored-IsValid = record {
      count_low = v.count_low;
      count_u32 = v.count_u32;
      capacity_u32 = v.capacity_u32;
      slots_length =
          length-set r.slots (r.head % r.slot_count) (filled r d payload) ∙ v.slots_length;
      head_u64 = omega arith;
      tail_u64 = v.tail_u64;
      fits = omega (arith, queued-stored, space);
      buffers =
          All-set (Fills r.payload_capacity) r.slots (r.head % r.slot_count) (filled r d payload)
            v.buffers filled-Fills;
      readable =
          subst (All (IsReadable r.payload_capacity)) (sym contents-stored) (
            All-snoc (IsReadable r.payload_capacity) (contents r) _ v.readable (refl, refl, small));
    }
