-- ===== src/Tools/LeAudio/Tone/Played.antt =====
-- What `write_tone` of src/bin/floss_le_audio_smoke.rs plays, sample by sample.
use dorsche.Base.{
  ℕ, zero, suc, ◌+◌, ◌*◌, ◌/◌, ◌≤◌, ◌≡◌, refl, sym, ap, ap₂, ◌∙◌, List, [], ◌∷◌, ◌++◌, some, Result,
  ok, err, length, drop, replicate, length-append, length-drop, length-replicate, append_assoc,
  append-nil, ℤ, arith,
}
use dorsche.Wireless.Types.Pcm.{PcmConfiguration}
use dorsche.Tools.LeAudio.Samples.{encoded, write_sample}
use dorsche.Tools.LeAudio.Samples.Buffer.{copies, drop-drop, write_channels_lem}
use dorsche.Tools.LeAudio.Samples.Decoded.{encode_all, length-encode_all}
use dorsche.Tools.LeAudio.Tone.{Sent, fill_frames, after_write, after_fill, write_intervals}

-- The samples of some frames of a tone, each once for every channel.
abbrev pub frames_of : ℕ → (ℕ → ℤ) → ℕ → ℕ → List ℤ
frames_of channels tone zero index = []
frames_of channels tone (suc n) index =
    replicate channels (tone index) ++ frames_of channels tone n (suc index)

-- How many of the next intervals are written, and how the loop over them ends.
abbrev pub intervals_written : (ℕ → Result (Unit {0})) → ℕ → ℕ → ℕ
intervals_written written zero interval = 0
intervals_written written (suc n) interval = elim (written interval) [
  | ok _ ↦ suc (intervals_written written n (suc interval))
  | err e ↦ 0
]

abbrev pub first_error : (ℕ → Result (Unit {0})) → ℕ → ℕ → Result (Unit {0})
first_error written zero interval = ok tt
first_error written (suc n) interval = elim (written interval) [
  | ok _ ↦ first_error written n (suc interval)
  | err e ↦ err e
]

encode_all-append :
    (width : ℕ) (xs ys : List ℤ)
    → encode_all width (xs ++ ys) ≡ encode_all width xs ++ encode_all width ys
encode_all-append width [] ys = refl
encode_all-append width (x ∷ xs) ys =
    ap (λ r. encoded width x ++ r) (encode_all-append width xs ys)
    ∙ sym (append_assoc (encoded width x) (encode_all width xs) (encode_all width ys))

encode_all-replicate :
    (width n : ℕ) (z : ℤ) → encode_all width (replicate n z) ≡ copies n (encoded width z)
encode_all-replicate width zero z = refl
encode_all-replicate width (suc n) z =
    ap (λ r. encoded width z ++ r) (encode_all-replicate width n z)

length-copies : (n width : ℕ) (z : ℤ) → width ≤ 8 → length (copies n (encoded width z)) ≡ n * width
length-copies n width z h =
    ap length (sym (encode_all-replicate width n z))
    ∙ length-encode_all width (replicate n z) h
    ∙ ap (λ k. k * width) (length-replicate n z)

drop_all : (xs : List ℕ) → drop (length xs) xs ≡ []
drop_all [] = refl
drop_all (x ∷ xs) = drop_all xs

frames_of-append :
    (channels : ℕ) (tone : ℕ → ℤ) (m n index : ℕ)
    → frames_of channels tone (m + n) index
      ≡ frames_of channels tone m index ++ frames_of channels tone n (index + m)
frames_of-append channels tone zero n index =
    let e : 0 + n ≡ n = omega arith in
    let i : index ≡ index + 0 = omega arith in
    ap (λ k. frames_of channels tone k index) e ∙ ap (frames_of channels tone n) i
frames_of-append channels tone (suc m) n index =
    let e : suc m + n ≡ suc (m + n) = omega arith in
    let i : suc index + m ≡ index + suc m = omega arith in
    ap (λ k. frames_of channels tone k index) e
    ∙ ap (λ r. replicate channels (tone index) ++ r)
        (frames_of-append channels tone m n (suc index)
          ∙ ap (λ j. frames_of channels tone m (suc index) ++ frames_of channels tone n j) i)
    ∙ sym (
        append_assoc (replicate channels (tone index)) (frames_of channels tone m (suc index))
          (frames_of channels tone n (index + suc m)))

module _ (c : PcmConfiguration) (tone : ℕ → ℤ) (wide : c.bits_per_sample / 8 ≤ 8) where
  abbrev pub tone_bytes : ℕ → ℕ → List ℕ
  tone_bytes n index = encode_all (c.bits_per_sample / 8) (frames_of c.channels tone n index)

  write_sample_lem :
      (frame : ℕ) (z : ℤ) (done rest : List ℕ)
      → length done ≡ (frame * c.channels + 0) * (c.bits_per_sample / 8)
      → c.channels * (c.bits_per_sample / 8) ≤ length rest
      → write_sample (done ++ rest) frame c.channels c.bits_per_sample z
        ≡ some (
            (done ++ copies c.channels (encoded (c.bits_per_sample / 8) z))
            ++ drop (c.channels * (c.bits_per_sample / 8)) rest)
  unfolding write_sample
  write_sample_lem frame z done rest here room =
      write_channels_lem frame c.channels (c.bits_per_sample / 8) z wide c.channels 0 done rest here
        room

  fill_frames_lem :
      (n frame index : ℕ) (done rest : List ℕ)
      → length done ≡ (frame * c.channels + 0) * (c.bits_per_sample / 8)
      → n * (c.channels * (c.bits_per_sample / 8)) ≤ length rest
      → fill_frames c tone n frame index (some (done ++ rest))
        ≡ some
            ((done ++ tone_bytes n index) ++ drop (n * (c.channels * (c.bits_per_sample / 8))) rest)
  unfolding fill_frames
  fill_frames_lem zero frame index done rest here room =
      let none_left : 0 * (c.channels * (c.bits_per_sample / 8)) ≡ 0 = omega arith in
      sym (ap₂ (λ a k. some (a ++ drop k rest)) (append-nil done) none_left)
  fill_frames_lem (suc n) frame index done rest here room =
      let w = c.bits_per_sample / 8 in
      let z = tone index in
      let block = copies c.channels (encoded w z) in
      let size : length block ≡ c.channels * w = length-copies c.channels w z wide in
      let more : suc n * (c.channels * w) ≡ c.channels * w + n * (c.channels * w) = omega arith in
      let fits : c.channels * w ≤ length rest = omega arith in
      let next : (suc frame * c.channels + 0) * w ≡ (frame * c.channels + 0) * w + c.channels * w =
        omega arith in
      let later : length (done ++ block) ≡ (suc frame * c.channels + 0) * w =
        omega (arith, length-append done block) in
      let left : n * (c.channels * w) ≤ length (drop (c.channels * w) rest) =
        omega (arith, length-drop (c.channels * w) rest) in
      let coded : block ++ tone_bytes n (suc index) ≡ tone_bytes (suc n) index =
        ap (λ b. b ++ tone_bytes n (suc index)) (sym (encode_all-replicate w c.channels z))
        ∙ sym (
            encode_all-append w (replicate c.channels z)
              (frames_of c.channels tone n (suc index))) in
      ap (fill_frames c tone n (suc frame) (suc index))
        (write_sample_lem frame z done rest here fits)
      ∙ fill_frames_lem n (suc frame) (suc index) (done ++ block) (drop (c.channels * w) rest) later
          left
      ∙ ap₂ (λ a b. some (a ++ b))
          (append_assoc done block (tone_bytes n (suc index)) ∙ ap (λ b. done ++ b) coded)
          (drop-drop (n * (c.channels * w)) (c.channels * w) rest
            ∙ ap (λ k. drop k rest) (sym more))

  -- An interval's buffer is overwritten from its first byte to its last.
  fill_frames_all :
      (frames index : ℕ) (buffer : List ℕ)
      → length buffer ≡ frames * (c.channels * (c.bits_per_sample / 8))
      → fill_frames c tone frames 0 index (some buffer) ≡ some (tone_bytes frames index)
  fill_frames_all frames index buffer size =
      let start : 0 ≡ (0 * c.channels + 0) * (c.bits_per_sample / 8) = omega arith in
      fill_frames_lem frames 0 index [] buffer start (omega arith)
      ∙ ap (λ k. some (tone_bytes frames index ++ drop k buffer)) (sym size)
      ∙ ap (λ r. some (tone_bytes frames index ++ r)) (drop_all buffer)
      ∙ ap some (append-nil (tone_bytes frames index))

  pub length-tone_bytes :
      (n index : ℕ) → length (tone_bytes n index) ≡ n * (c.channels * (c.bits_per_sample / 8))
  length-tone_bytes zero index = omega arith
  length-tone_bytes (suc n) index =
      let w = c.bits_per_sample / 8 in
      let first = replicate c.channels (tone index) in
      let rest = frames_of c.channels tone n (suc index) in
      let more : suc n * (c.channels * w) ≡ c.channels * w + n * (c.channels * w) = omega arith in
      let block : length (encode_all w first) ≡ c.channels * w =
        length-encode_all w first wide
        ∙ ap (λ k. k * w) (length-replicate c.channels (tone index)) in
      ap length (encode_all-append w first rest)
      ∙ length-append (encode_all w first) (encode_all w rest)
      ∙ omega (arith, block, more, length-tone_bytes n (suc index))

  tone_bytes-append :
      (m n index : ℕ) → tone_bytes m index ++ tone_bytes n (index + m) ≡ tone_bytes (m + n) index
  tone_bytes-append m n index = sym (
      ap (encode_all (c.bits_per_sample / 8)) (frames_of-append c.channels tone m n index)
      ∙ encode_all-append (c.bits_per_sample / 8) (frames_of c.channels tone m index)
          (frames_of c.channels tone n (index + m)))

  -- What follows an interval stands behind it.
  answered :
      (frames index : ℕ) (a : Result (Unit {0})) (k : ℕ) (ending : Result (Unit {0}))
      (later : List ℕ → Sent (Unit {0}))
      → later (tone_bytes frames index) ≡ (tone_bytes (k * frames) (index + frames), some ending)
      → after_write later (tone_bytes frames index) a ≡ (
        tone_bytes (elim a [ ok _ ↦ suc k | err e ↦ 0 ] * frames) index,
        some (elim a [ ok _ ↦ ending | err e ↦ err e ]),
      )
  answered frames index (err e) k ending later h =
      let nothing : 0 * frames ≡ 0 = omega arith in
      ap (λ m. (tone_bytes m index, some (err e))) (sym nothing)
  answered frames index (ok done) k ending later h =
      let more : frames + k * frames ≡ suc k * frames = omega arith in
      ap (λ t. (tone_bytes frames index ++ t.0, t.1)) h
      ∙ ap (λ b. (b, some ending)) (tone_bytes-append frames (k * frames) index)
      ∙ ap (λ m. (tone_bytes m index, some ending)) more

  pub write_intervals_lem :
      (written : ℕ → Result (Unit {0})) (frames n interval index : ℕ) (buffer : List ℕ)
      → length buffer ≡ frames * (c.channels * (c.bits_per_sample / 8))
      → write_intervals c tone written frames n interval index buffer ≡ (
        tone_bytes (intervals_written written n interval * frames) index,
        some (first_error written n interval),
      )
  unfolding write_intervals
  write_intervals_lem written frames zero interval index buffer size =
      let nothing : 0 * frames ≡ 0 = omega arith in
      ap (λ k. (tone_bytes k index, some (ok tt))) (sym nothing)
  write_intervals_lem written frames (suc n) interval index buffer size =
      ap
        (after_fill (write_intervals c tone written frames n (suc interval) (index + frames))
          (written interval))
        (fill_frames_all frames index buffer size)
      ∙ answered frames index (written interval) (intervals_written written n (suc interval))
          (first_error written n (suc interval))
          (write_intervals c tone written frames n (suc interval) (index + frames))
          (write_intervals_lem written frames n (suc interval) (index + frames)
            (tone_bytes frames index) (length-tone_bytes frames index))
