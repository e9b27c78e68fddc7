-- ===== src/Tools/Hfp/Delay/Echo.antt =====
-- The loopback as a delay of the whole stream.
use dorsche.Base.{
  ℕ, zero, suc, ◌-◌, ◌*◌, ◌/◌, ◌≤◌, ◌<◌, ◌≡◌, refl, sym, ap, ap₂, ◌∙◌, inl, inr, true, false, List,
  [], ◌∷◌, ◌++◌, append-nil, append_assoc, length, length-append, length-replicate, take, drop,
  length-take, length-drop, replicate, is_empty, min, ◌==◌, ==_iff, ◌≢◌, Bool-cases, if◌then◌else◌,
  arith,
}
use dorsche.Tools.Hfp.Delay.{
  DelayLine, new_line, attenuate, delay_frame, echo_frames, read_line, drain, play_back,
}
use dorsche.Tools.Hfp.Delay.Line.{view, exchange_lem, read_line_lem}

-- The bytes of several writes, in order.
abbrev pub flat : List (List ℕ) → List ℕ
flat [] = []
flat (x ∷ xs) = x ++ flat xs

abbrev pub attenuate_all : (ℕ → ℕ) → List (List ℕ) → List ℕ
attenuate_all gain [] = []
attenuate_all gain (x ∷ xs) = attenuate gain x ++ attenuate_all gain xs

pub flat-append : (xs ys : List (List ℕ)) → flat (xs ++ ys) ≡ flat xs ++ flat ys
flat-append [] ys = refl
flat-append (x ∷ xs) ys =
    ap (λ r. x ++ r) (flat-append xs ys) ∙ sym (append_assoc x (flat xs) (flat ys))

-- Without a delay the frames pass.
echo_frames-empty :
    (gain : ℕ → ℕ) (frames : List (List ℕ)) (d : DelayLine)
    → is_empty d.bytes ≡ true
    → (flat (echo_frames gain frames d).0 ≡ attenuate_all gain frames)
      × ((echo_frames gain frames d).1 ≡ d)
unfolding echo_frames delay_frame
echo_frames-empty gain [] d e = (refl, refl)
echo_frames-empty gain (f ∷ fs) d e =
    let (out, same) = echo_frames-empty gain fs d e in
    simp e (ap (λ r. attenuate gain f ++ r) out, same)

not_empty : (xs : List ℕ) → 0 < length xs → is_empty xs ≡ false
not_empty [] h = absurd (omega arith)
not_empty (x ∷ xs) h = refl

delay_frame_lem :
    (gain : ℕ → ℕ) (frame : List ℕ) (d : DelayLine)
    → d.cursor < length d.bytes
    → let (out, d') = delay_frame gain frame d in
      (out ++ view d' ≡ view d ++ attenuate gain frame)
      × (d'.cursor < length d'.bytes)
      × (length d'.bytes ≡ length d.bytes)
unfolding delay_frame
delay_frame_lem gain frame d h =
    simp (not_empty d.bytes (omega (arith, h))) (exchange_lem (attenuate gain frame) d h)

echo_frames_lem :
    (gain : ℕ → ℕ) (frames : List (List ℕ)) (d : DelayLine)
    → d.cursor < length d.bytes
    → let (out, d') = echo_frames gain frames d in
      (flat out ++ view d' ≡ view d ++ attenuate_all gain frames)
      × (d'.cursor < length d'.bytes)
      × (length d'.bytes ≡ length d.bytes)
unfolding echo_frames
echo_frames_lem gain [] d h = (sym (append-nil (view d)), h, refl)
echo_frames_lem gain (f ∷ fs) d h =
    let out = (delay_frame gain f d).0 in
    let d' = (delay_frame gain f d).1 in
    let (flow, inside, size) = delay_frame_lem gain f d h in
    let (later, inside', size') = echo_frames_lem gain fs d' inside in
    let rest = flat (echo_frames gain fs d').0 in
    let d'' = (echo_frames gain fs d').1 in
    (
      append_assoc out rest (view d'')
          ∙ ap (λ r. out ++ r) later
          ∙ sym (append_assoc out (view d') (attenuate_all gain fs))
          ∙ ap (λ r. r ++ attenuate_all gain fs) flow
          ∙ append_assoc (view d) (attenuate gain f) (attenuate_all gain fs),
      inside',
      size' ∙ size,
    )

length-view : (d : DelayLine) → length (view d) ≡ length d.bytes
length-view d = omega (
  arith,
  length-append (drop d.cursor d.bytes) (take d.cursor d.bytes),
  length-drop d.cursor d.bytes,
  length-take d.cursor d.bytes,
)

take-drop : (n : ℕ) (xs : List ℕ) → take n xs ++ drop n xs ≡ xs
take-drop zero xs = refl
take-drop (suc n) [] = refl
take-drop (suc n) (x ∷ xs) = ap (λ r. x ∷ r) (take-drop n xs)

nothing : (xs : List ℕ) → length xs ≡ 0 → xs ≡ []
nothing [] h = refl
nothing (x ∷ xs) h = absurd (omega arith)

-- The drain gives out what it has still to give, in order.
drain_lem :
    (frame_bytes fuel remaining : ℕ) (d : DelayLine) (old new : List ℕ)
    → 0 < frame_bytes
    → remaining ≤ fuel
    → d.cursor < length d.bytes
    → view d ≡ old ++ new
    → length old ≡ remaining
    → flat (drain frame_bytes fuel remaining d) ≡ old
unfolding drain
drain_lem frame_bytes zero remaining d [] new p h c e k = refl
drain_lem frame_bytes zero remaining d (x ∷ old) new p h c e k = absurd (omega arith)
drain_lem frame_bytes (suc fuel) remaining d old new p h c e k =
    elim (Bool-cases (remaining == 0)) [
      | inl done ↦ rw done (sym (nothing old (k ∙ (==_iff remaining 0).0 done)))
      | inr more ↦
          let n = min remaining frame_bytes in
          let some : remaining ≢ 0 = λ z. cc ((==_iff remaining 0).1 z) in
          let parts : view d ≡ take n old ++ (drop n old ++ new) =
            e
            ∙ ap (λ r. r ++ new) (sym (take-drop n old))
            ∙ append_assoc (take n old) (drop n old) new in
          let (out, turned, inside, bytes) =
            read_line_lem n d (take n old) (drop n old ++ new) c parts
              (omega (arith, length-take n old)) in
          let rest =
            drain_lem frame_bytes fuel (remaining - n) (read_line n d).1 (drop n old)
              (new ++ take n old) p (omega arith) inside
              (turned ∙ append_assoc (drop n old) new (take n old))
              (omega (arith, length-drop n old)) in
          rw more (ap₂ (λ r t. r ++ t) out rest ∙ take-drop n old)
    ]

-- The end of the playback, with the frames that were echoed.
ended : ℕ → List (List ℕ) × DelayLine → List (List ℕ)
ended frame_bytes (out, d) =
    if is_empty d.bytes then out else out ++ drain frame_bytes (length d.bytes) (length d.bytes) d

ended_lem :
    (gain : ℕ → ℕ) (frame_bytes n : ℕ) (frames : List (List ℕ))
    → 0 < frame_bytes
    → flat (ended frame_bytes (echo_frames gain frames (new_line n)))
      ≡ replicate n 0 ++ attenuate_all gain frames
unfolding ended
ended_lem gain frame_bytes zero frames h =
    let (out, same) = echo_frames-empty gain frames (new_line 0) refl in
    let empty : is_empty (echo_frames gain frames (new_line 0)).1.bytes ≡ true =
      ap (λ (d : DelayLine). is_empty d.bytes) same in
    rw empty out
ended_lem gain frame_bytes (suc n) frames h =
    let d = (echo_frames gain frames (new_line (suc n))).1 in
    let out = (echo_frames gain frames (new_line (suc n))).0 in
    let (flow, inside, size) =
      echo_frames_lem gain frames (new_line (suc n))
        (omega (arith, length-replicate {A = ℕ} (suc n) 0)) in
    let full : is_empty d.bytes ≡ false = not_empty d.bytes (omega (arith, inside)) in
    let left : flat (drain frame_bytes (length d.bytes) (length d.bytes) d) ≡ view d =
      drain_lem frame_bytes (length d.bytes) (length d.bytes) d (view d) [] h (omega arith) inside
        (sym (append-nil (view d))) (length-view d) in
    let start : view (new_line (suc n)) ≡ replicate (suc n) 0 = append-nil (replicate (suc n) 0) in
    rw full (
      flat-append out (drain frame_bytes (length d.bytes) (length d.bytes) d)
      ∙ ap (λ r. flat out ++ r) left
      ∙ flow
      ∙ ap (λ r. r ++ attenuate_all gain frames) start)

-- What the loopback writes to the headset is, over all its writes, the attenuated microphone stream
-- behind a silence of exactly the delay: no byte is lost, repeated or moved, however the stream is
-- cut into frames, and the drain ends with the last byte of the line.
pub play_back_delays :
    (gain : ℕ → ℕ) (sample_rate delay_seconds : ℕ) (frames : List (List ℕ))
    → 100 ≤ sample_rate
    → flat (play_back gain sample_rate delay_seconds frames)
      ≡ replicate (sample_rate * 2 * delay_seconds) 0 ++ attenuate_all gain frames
unfolding play_back ended
play_back_delays gain sample_rate delay_seconds frames rate =
    ended_lem gain (sample_rate / 100 * 2) (sample_rate * 2 * delay_seconds) frames (omega arith)
