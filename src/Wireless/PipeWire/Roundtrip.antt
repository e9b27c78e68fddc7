-- ===== src/Wireless/PipeWire/Roundtrip.antt =====
-- What the source of src/wireless/pipewire.rs gives back of what its sink was given.
use dorsche.Base.{
  ℕ, zero, suc, ◌^◌, ◌%◌, ◌≤◌, ◌<◌, ◌≡◌, ◌⊎◌, inl, inr, refl, sym, ap, ◌∙◌, true, List, [], ◌∷◌,
  ◌++◌, Option, none, some, ok, All, ap₂, length, take, min, arith, subst,
}
use dorsche.Wireless.Types.Pcm.{PcmConfiguration}
use dorsche.Wireless.DataPlane.Ring.{Ring, FrameLease, fresh, try_acquire, release}
use dorsche.Wireless.DataPlane.Ring.Window.{Frame}
use dorsche.Wireless.DataPlane.Ring.Invariant.{contents, IsValid, fresh-IsValid}
use dorsche.Wireless.DataPlane.Ring.Pop.{oldest, try_acquire_lem, release_lem, release-Lasts}
use dorsche.Wireless.PipeWire.{
  SinkState, process_sink, has_format, copied, source_acquired, process_source,
}
use dorsche.Wireless.PipeWire.Stream.{
  Callback, plays, records, run_callbacks, slice_of, enter, fitting, leave, stream, plays_in,
}
use dorsche.Wireless.PipeWire.Carries.{
  bytes_of, HasFormat, Carries, now-Lasts, process_sink-Carries,
}

take-min : {A : Type 0} (n : ℕ) (xs : List A) → take (min n (length xs)) xs ≡ take n xs
take-min zero xs =
    let none_left : min 0 (length xs) ≡ 0 = omega arith in ap (λ m. take m xs) none_left
take-min {A = A} (suc n) [] =
    let none_left : min (suc n) 0 ≡ 0 = omega arith in ap (λ m. take {A = A} m []) none_left
take-min (suc n) (x ∷ xs) =
    let step : min (suc n) (suc (length xs)) ≡ suc (min n (length xs)) = omega arith in
    ap (λ m. take m (x ∷ xs)) step ∙ ap (λ r. x ∷ r) (take-min n xs)

cons-inj : {A : Type 0} {x y : A} {xs ys : List A} → x ∷ xs ≡ y ∷ ys → xs ≡ ys
cons-inj e = cc

module _ (c : PcmConfiguration) (count capacity : ℕ) where
  -- A round of the source has given what leaves the queue.
  abbrev pub Gives : ℕ → Option ℕ → List (List ℕ) → List ℕ × Ring → Type 0
  Gives k space q (bytes, r) =
      let (filled, q') = leave (some space) q in
      (bytes ∷ [] ≡ filled) × Carries c count capacity k r q'

  copied-fitting :
      (space : Option ℕ) (l : FrameLease)
      → has_format c l.descriptor ≡ true
      → copied c space l ≡ fitting space l.bytes
  copied-fitting none l h = refl
  copied-fitting (some n) l h = rw h (take-min n l.bytes)

  acquired-Gives :
      (k : ℕ) (space : Option ℕ) (r : Ring) (q : List (List ℕ)) (fs : List Frame)
      → Carries c count capacity k r q
      → contents r ≡ fs
      → Gives k space (bytes_of fs) (source_acquired c space r (ok (oldest fs r.tail)))
  unfolding source_acquired release
  acquired-Gives k space r q [] h e = (
    refl,
    record {
      valid = h.valid;
      lasts = h.lasts;
      same_count = h.same_count;
      same_capacity = h.same_capacity;
      carried = ap bytes_of e;
      formats = h.formats;
    },
  )
  acquired-Gives k space r q (f ∷ fs) h e =
      let l : FrameLease = record { descriptor = f.0; bytes = f.1; tail = r.tail } in
      let acquired : try_acquire r ≡ ok (some l) =
        try_acquire_lem r h.valid ∙ ap (λ x. ok (oldest x r.tail)) e in
      let (valid, all, fewer) =
        release_lem r l h.valid (now-Lasts c count capacity r k h.lasts) acquired in
      let left : contents (release r l) ≡ fs = cons-inj (sym all ∙ e) in
      let formats = subst (All (HasFormat c)) e h.formats in
      (
        ap (λ bytes. bytes ∷ []) (copied-fitting space l formats.0),
        record {
          valid = valid;
          lasts = release-Lasts r l k h.valid h.lasts acquired;
          same_count = h.same_count;
          same_capacity = h.same_capacity;
          carried = ap bytes_of left;
          formats = subst (All (HasFormat c)) (sym left) formats.1;
        },
      )

  pub process_source-Gives :
      (k : ℕ) (space : Option ℕ) (r : Ring) (q : List (List ℕ))
      → Carries c count capacity k r q
      → Gives k space q (source_acquired c space r (try_acquire r))
  process_source-Gives k space r q h = rw (try_acquire_lem r h.valid) (
      subst (λ x. Gives k space x (source_acquired c space r (ok (oldest (contents r) r.tail))))
        h.carried (acquired-Gives k space r q (contents r) h refl))

  run_from :
      (cs : List Callback) (s : SinkState) (q : List (List ℕ))
      → Carries c count capacity (plays_in cs) s.producer q
      → run_callbacks c cs s ≡ stream count capacity cs q
  unfolding process_source run_callbacks stream
  run_from [] s q h = refl
  run_from (plays signal now d ∷ cs) s q h =
      run_from cs (process_sink signal now c d s) (enter count capacity (slice_of d) q)
        (process_sink-Carries c count capacity signal now d s h)
  run_from (records none ∷ cs) s q h = run_from cs s q h
  run_from (records (some space) ∷ cs) s q h =
      let r' = (source_acquired c space s.producer (try_acquire s.producer)).1 in
      let (filled, carries) = process_source-Gives (plays_in cs) space s.producer q h in
      ap₂ (λ now later. now ++ later) filled
        (run_from cs (record s { producer = r' }) (leave (some space) q).1 carries)

-- What is played comes back: with the two callbacks on a fresh ring of `count` slots, in any order, the
-- chunks that the source fills are the parts of the sink's buffers that their chunks name, in order
-- and each once, cut to the memory of the source's buffer; those that lie outside the buffer, are
-- larger than a slot or find the ring full are lost, whatever the wakeup answers. Either `count`
-- divides 2^64 or the sink has fewer than 2^64 buffers.
pub run_callbacks-stream :
    (c : PcmConfiguration) (count capacity : ℕ) (callbacks : List Callback)
    → 2 ≤ count
    → count < 2 ^ 32
    → capacity < 2 ^ 32
    → (2 ^ 64 % count ≡ 0) ⊎ (plays_in callbacks < 2 ^ 64)
    → run_callbacks c callbacks (record { producer = fresh count capacity; sequence = 0 })
      ≡ stream count capacity callbacks []
run_callbacks-stream c count capacity callbacks low high small lasts =
    run_from c count capacity callbacks (record { producer = fresh count capacity; sequence = 0 })
      [] start
  where
    made : IsValid (fresh count capacity) × (contents (fresh count capacity) ≡ [])
    made = fresh-IsValid count capacity low high small

    start : Carries c count capacity (plays_in callbacks) (fresh count capacity) []
    start = record {
      valid = made.0;
      lasts = elim lasts [ inl whole ↦ inl whole | inr short ↦ inr (omega (arith, short)) ];
      same_count = refl;
      same_capacity = refl;
      carried = ap bytes_of made.1;
      formats = subst (All (HasFormat c)) (sym made.1) tt;
    }
