-- ===== src/Wireless/PipeWire/Carries.antt =====
-- What a ring carries between the two callbacks of src/wireless/pipewire.rs, and the sink's side.
use dorsche.Base.{
  ℕ, suc, ◌+◌, ◌≡◌, inl, inr, refl, sym, ap, ◌∙◌, Bool, not, true, List, [], ◌∷◌, ◌++◌, Option,
  none, some, Result, All, All-snoc, leb, ltb, ◌==◌, ==_iff, ap₂, length, take, drop, arith,
  Bool-cases, subst,
}
use dorsche.Wireless.Types.Frame.{FrameDescriptor, new}
use dorsche.Wireless.Types.Pcm.{PcmConfiguration}
use dorsche.Wireless.DataPlane.Ring.{Ring, sealed, try_reserve, push_leased, try_push_copy}
use dorsche.Wireless.DataPlane.Ring.Window.{Frame}
use dorsche.Wireless.DataPlane.Ring.Invariant.{contents, IsValid, Lasts}
use dorsche.Wireless.DataPlane.Ring.Push.{view, try_push_copy_refines, push-Lasts}
use dorsche.Wireless.DataPlane.Queue
use dorsche.Wireless.DataPlane.Queue.{Queue}
use dorsche.Wireless.PipeWire.{
  SpaData, SinkState, pcm_descriptor, sink_reserved, sink_mapped, process_sink, has_format,
}
use dorsche.Wireless.PipeWire.Stream.{slice, slice_of, enter}

abbrev pub bytes_of : List Frame → List (List ℕ)
bytes_of [] = []
bytes_of (f ∷ fs) = f.1 ∷ bytes_of fs

pub bytes_of-snoc :
    (fs : List Frame) (f : Frame) → bytes_of (fs ++ (f ∷ [])) ≡ bytes_of fs ++ (f.1 ∷ [])
bytes_of-snoc [] f = refl
bytes_of-snoc (g ∷ fs) f = ap (λ r. g.1 ∷ r) (bytes_of-snoc fs f)

pub length-bytes_of : (fs : List Frame) → length (bytes_of fs) ≡ length fs
length-bytes_of [] = refl
length-bytes_of (f ∷ fs) = ap suc (length-bytes_of fs)

ltb-leb : (a b : ℕ) → ltb b a ≡ not (leb a b)
ltb-leb a b = ground arith

pub sink_reserved-push_leased :
    (signal : Result (Unit {0})) (d : FrameDescriptor) (payload : List ℕ) (sequence : ℕ)
    (a : Option ℕ × Ring)
    → (sink_reserved signal d payload sequence a).producer ≡ (push_leased signal a d payload).1
unfolding sink_reserved
sink_reserved-push_leased signal d payload sequence (none, r) = refl
sink_reserved-push_leased signal d payload sequence (some head, r) =
    elim (Bool-cases (leb (length payload) r.payload_capacity)) [
      | inl small ↦ rw (ltb-leb (length payload) r.payload_capacity, small) refl
      | inr large ↦ rw (ltb-leb (length payload) r.payload_capacity, large) refl
    ]

same : (n : ℕ) → n == n ≡ true
same n = (==_iff n n).1 refl

push-enter :
    (count capacity : ℕ) (signal : Result (Unit {0})) (q : Queue) (d : FrameDescriptor)
    (payload : List ℕ)
    → bytes_of (Queue.push count capacity signal q d payload).1.frames
      ≡ enter count capacity (some payload) (bytes_of q.frames)
unfolding Queue.push
push-enter count capacity signal q d payload =
    rw (length-bytes_of q.frames) (elim (Bool-cases (leb count (length q.frames))) [
      | inl full ↦ rw full refl
      | inr space ↦ elim (Bool-cases (leb (length payload) capacity)) [
        | inl small ↦
            rw (space, small) (bytes_of-snoc q.frames (sealed d (length payload), payload))
        | inr large ↦ rw (space, large) refl
      ]
    ])

module _ (c : PcmConfiguration) where
  abbrev pub HasFormat : Frame → Type 0
  HasFormat f = has_format c f.0 ≡ true

  -- The descriptor that the sink makes, sealed by `commit`, has its format.
  pub sealed-HasFormat :
      (sequence now : ℕ) (payload : List ℕ)
      → has_format c (sealed (pcm_descriptor c sequence now) (length payload)) ≡ true
  unfolding new
  sealed-HasFormat sequence now payload =
      rw (same c.sample_rate_hz, same c.channels, same c.bits_per_sample) refl

  push-HasFormat :
      (count capacity : ℕ) (signal : Result (Unit {0})) (q : Queue) (sequence now : ℕ)
      (payload : List ℕ)
      → All HasFormat q.frames
      → All HasFormat
          (Queue.push count capacity signal q (pcm_descriptor c sequence now) payload).1.frames
  unfolding Queue.push
  push-HasFormat count capacity signal q sequence now payload h =
      elim (Bool-cases (leb count (length q.frames))) [
        | inl full ↦ rw full h
        | inr space ↦ elim (Bool-cases (leb (length payload) capacity)) [
          | inl small ↦
              rw (space, small)
                (All-snoc HasFormat q.frames _ h (sealed-HasFormat sequence now payload))
          | inr large ↦ rw (space, large) h
        ]
      ]

module _ (c : PcmConfiguration) (count capacity : ℕ) where
  -- A ring that carries these byte strings, each with the format in its descriptor.
  pub record Carries (k : ℕ) (r : Ring) (q : List (List ℕ)) : Type 0 where
    pub valid : IsValid r
    pub lasts : Lasts r k
    pub same_count : r.slot_count ≡ count
    pub same_capacity : r.payload_capacity ≡ capacity
    pub carried : bytes_of (contents r) ≡ q
    pub formats : All (HasFormat c) (contents r)

  weaken : {k : ℕ} {r : Ring} {q : List (List ℕ)} → Carries (suc k) r q → Carries k r q
  weaken h = record {
    valid = h.valid;
    lasts = elim h.lasts [ inl whole ↦ inl whole | inr short ↦ inr (omega (arith, short)) ];
    same_count = h.same_count;
    same_capacity = h.same_capacity;
    carried = h.carried;
    formats = h.formats;
  }

  pub now-Lasts : (r : Ring) (k : ℕ) → Lasts r k → Lasts r 0
  now-Lasts r k (inl whole) = inl whole
  now-Lasts r k (inr short) = inr (omega (arith, short))

  module _ {k : ℕ} {r : Ring} {q : List (List ℕ)} (signal : Result (Unit {0})) (sequence now : ℕ)
      (payload : List ℕ) (h : Carries (suc k) r q) where
    pushed-Carries :
        Carries k
          (sink_reserved signal
            (pcm_descriptor c sequence now)
            payload
            sequence
            (try_reserve r)).producer
          (enter count capacity (some payload) q)
    unfolding try_push_copy
    pushed-Carries =
        let d = pcm_descriptor c sequence now in
        let r' = (try_push_copy signal r d payload).1 in
        let (valid, e) =
          try_push_copy_refines signal r d payload h.valid (now-Lasts r (suc k) h.lasts) in
        let (lasts, t, n, m) = push-Lasts signal r d payload k h.valid h.lasts in
        let stored : Carries k r' (enter count capacity (some payload) q) = record {
          valid = valid;
          lasts = lasts;
          same_count = n ∙ h.same_count;
          same_capacity = m ∙ h.same_capacity;
          carried =
              ap (λ (x : Result Bool × Queue). bytes_of x.1.frames) e
              ∙ push-enter r.slot_count r.payload_capacity signal (view r) d payload
              ∙ ap₂ (λ n' m'. enter n' m' (some payload) (bytes_of (contents r))) h.same_count
                  h.same_capacity
              ∙ ap (enter count capacity (some payload)) h.carried;
          formats =
              subst (λ (x : Result Bool × Queue). All (HasFormat c) x.1.frames) (sym e)
                (push-HasFormat c r.slot_count r.payload_capacity signal (view r) sequence now
                  payload h.formats);
        } in
        subst (λ x. Carries k x (enter count capacity (some payload) q))
          (sym (sink_reserved-push_leased signal d payload sequence (try_reserve r))) stored

  sink_mapped-Carries :
      {k : ℕ} {q : List (List ℕ)} (signal : Result (Unit {0})) (now offset size : ℕ)
      (memory : Option (List ℕ)) (s : SinkState)
      → Carries (suc k) s.producer q
      → Carries k
          (sink_mapped signal now c offset size memory s).producer
          (enter count capacity (slice offset size memory) q)
  unfolding sink_mapped
  sink_mapped-Carries signal now offset size none s h = weaken h
  sink_mapped-Carries signal now offset size (some source) s h =
      elim (Bool-cases (leb (offset + size) (length source))) [
        | inl inside ↦
            rw inside (pushed-Carries signal s.sequence now (take size (drop offset source)) h)
        | inr outside ↦ rw outside (weaken h)
      ]

  pub process_sink-Carries :
      {k : ℕ} {q : List (List ℕ)} (signal : Result (Unit {0})) (now : ℕ) (d : Option SpaData)
      (s : SinkState)
      → Carries (suc k) s.producer q
      → Carries k (process_sink signal now c d s).producer (enter count capacity (slice_of d) q)
  unfolding process_sink
  process_sink-Carries signal now none s h = weaken h
  process_sink-Carries signal now (some d) s h =
      sink_mapped-Carries signal now d.offset d.size d.memory s h
