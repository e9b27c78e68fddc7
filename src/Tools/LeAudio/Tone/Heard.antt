-- ===== src/Tools/LeAudio/Tone/Heard.antt =====
-- The tone of src/bin/floss_le_audio_smoke.rs, as its own `decode_samples` would hear it.
use dorsche.Base.{
  ℕ, zero, suc, ◌-◌, ◌*◌, ◌/◌, ◌^◌, ◌<◌, ◌≡◌, refl, ap, ◌∙◌, false, List, [], ◌∷◌, ◌++◌, some,
  Result, ok, err, ◌>>◌, leb, length, replicate, length-replicate, All, ℤ, arith,
}
use native.Mathlib.Nat.{div-eq_of_eq-mul_left}
use dorsche.Wireless.Types.Pcm.{PcmConfiguration, IsInRange, IsSupported, bytes_per_interval}
use dorsche.Wireless.Types.Pcm.Bytes.{
  scaled_frames, bytes_per_interval_lem, bytes_per_interval-exact,
}
use dorsche.Tools.LeAudio.Samples.{decode_samples}
use dorsche.Tools.LeAudio.Samples.Signed.{IsWithin}
use dorsche.Tools.LeAudio.Samples.Decoded.{
  encode_all, all_ok, width_bounds, decode_samples-encode_all,
}
use dorsche.Tools.LeAudio.Tone.{after_loop, after_size, write_tone}
use dorsche.Tools.LeAudio.Tone.Played.{
  frames_of, intervals_written, first_error, length-tone_bytes, write_intervals_lem,
}

quotient : (y z : ℕ) → 0 < z → y * z / z ≡ y
quotient y z h = div-eq_of_eq-mul_left h refl

frames_back : (f ch w : ℕ) → 0 < ch → 0 < w → f * ch * w / ch / w ≡ f
frames_back f ch w p q =
    let swap : f * ch * w ≡ f * w * ch = omega arith in
    ap (λ k. k / ch / w) swap ∙ ap (λ k. k / w) (quotient (f * w) ch p) ∙ quotient f w q

-- The number of frames in an interval.
abbrev pub interval_frames : PcmConfiguration → ℕ
interval_frames c = scaled_frames c / 1_000_000

sized :
    (c : PcmConfiguration) {bytes : ℕ}
    → IsInRange c
    → bytes_per_interval c ≡ ok bytes
    → IsSupported c
    → bytes ≡ interval_frames c * (c.channels * (c.bits_per_sample / 8))
sized c r h s = ground (arith, bytes_per_interval_lem c s r)

All-replicate : (P : ℤ → Type 0) (n : ℕ) (z : ℤ) → P z → All P (replicate n z)
All-replicate P zero z h = tt
All-replicate P (suc n) z h = (h, All-replicate P n z h)

All-append : (P : ℤ → Type 0) (xs ys : List ℤ) → All P xs → All P ys → All P (xs ++ ys)
All-append P [] ys h k = k
All-append P (x ∷ xs) ys h k = (h.0, All-append P xs ys h.1 k)

All-frames_of :
    (P : ℤ → Type 0) (channels : ℕ) (tone : ℕ → ℤ) (n index : ℕ)
    → ((i : ℕ) → P (tone i))
    → All P (frames_of channels tone n index)
All-frames_of P channels tone zero index h = tt
All-frames_of P channels tone (suc n) index h =
    All-append P (replicate channels (tone index)) (frames_of channels tone n (suc index))
      (All-replicate P channels (tone index) (h index))
      (All-frames_of P channels tone n (suc index) h)

-- A total that fits a `u64` is reported after the shutdown.
pub after_loop_lem :
    (closed ending : Result (Unit {0})) (total : ℕ) (sent : List ℕ)
    → total < 2 ^ 64
    → after_loop closed total (sent, some ending) ≡ (sent, some (ending >> (closed >> ok total)))
after_loop_lem closed (err e) total sent h = refl
after_loop_lem (err e) (ok done) total sent h = refl
after_loop_lem (ok tt) (ok done) total sent h = ground arith

module _ (c : PcmConfiguration) (tone : ℕ → ℤ) (written : ℕ → Result (Unit {0}))
    (closed : Result (Unit {0})) (seconds : ℕ) where
  abbrev pub intervals : ℕ
  intervals = seconds * 1_000_000 / c.data_interval_us

  abbrev pub frames_played : ℕ
  frames_played = intervals_written written intervals 0 * interval_frames c

  sent :
      {bytes : ℕ}
      → IsInRange c
      → bytes_per_interval c ≡ ok bytes
      → seconds * 1_000_000 < 2 ^ 64
      → intervals * bytes < 2 ^ 64
      → write_tone c tone written closed seconds ≡ (
        encode_all (c.bits_per_sample / 8) (frames_of c.channels tone frames_played 0),
        some (first_error written intervals 0 >> (closed >> ok (intervals * bytes))),
      )
  unfolding write_tone after_size
  sent {bytes} r h short total =
      let s = (bytes_per_interval-exact c r h).0 in
      let w = width_bounds c.bits_per_sample s.width in
      let f = interval_frames c in
      let size : bytes ≡ f * (c.channels * (c.bits_per_sample / 8)) = sized c r h s in
      let regroup : f * (c.channels * (c.bits_per_sample / 8))
          ≡ f * c.channels * (c.bits_per_sample / 8) =
        omega arith in
      let frames : bytes / c.channels / (c.bits_per_sample / 8) ≡ f =
        ap (λ k. k / c.channels / (c.bits_per_sample / 8)) (size ∙ regroup)
        ∙ frames_back f c.channels (c.bits_per_sample / 8) s.channels_low w.0 in
      let fits : leb (2 ^ 64) (seconds * 1_000_000) ≡ false = ground arith in
      let full : length (replicate {A = ℕ} bytes 0) ≡ f * (c.channels * (c.bits_per_sample / 8)) =
        length-replicate bytes 0 ∙ size in
      ap (after_size c tone written closed seconds) h
      ∙ rw (fits, frames)
          (ap (after_loop closed (intervals * bytes))
              (write_intervals_lem c tone w.1 written f intervals 0 0 (replicate bytes 0) full)
            ∙ after_loop_lem closed (first_error written intervals 0) (intervals * bytes)
                (encode_all (c.bits_per_sample / 8) (frames_of c.channels tone frames_played 0))
                total)

  -- Whatever the socket answers: what `write_tone` has sent, read by `decode_samples` of the same tool, is
  -- the tone from its first sample on, each sample once for every channel, for as many whole
  -- intervals as were written before the first error; these have the size of an interval each. It
  -- ends with the first error of a write, then with that of the shutdown, and reports the bytes of all
  -- intervals if there is none. The samples fit the width, and the two products of the code 64 bits.
  pub write_tone-decode_samples :
      {bytes : ℕ}
      → IsInRange c
      → bytes_per_interval c ≡ ok bytes
      → ((i : ℕ) → IsWithin (2 ^ (c.bits_per_sample - 1)) (tone i))
      → seconds * 1_000_000 < 2 ^ 64
      → intervals * bytes < 2 ^ 64
      → let (sent_bytes, ending) = write_tone c tone written closed seconds in
        (decode_samples c.bits_per_sample sent_bytes
          ≡ some (all_ok (frames_of c.channels tone frames_played 0)))
        × (length sent_bytes ≡ intervals_written written intervals 0 * bytes)
        × (ending ≡ some (first_error written intervals 0 >> (closed >> ok (intervals * bytes))))
  write_tone-decode_samples {bytes} r h fits short total =
      let s = (bytes_per_interval-exact c r h).0 in
      let w = width_bounds c.bits_per_sample s.width in
      let e = sent r h short total in
      let zs = frames_of c.channels tone frames_played 0 in
      let n = intervals_written written intervals 0 in
      let regroup : n * interval_frames c * (c.channels * (c.bits_per_sample / 8)) ≡ n * bytes =
        rw (sized c r h s) (omega arith) in
      (
        ap (λ t. decode_samples c.bits_per_sample t.0) e
            ∙ decode_samples-encode_all c.bits_per_sample zs s.width (
                All-frames_of (IsWithin (2 ^ (c.bits_per_sample - 1))) c.channels tone frames_played
                  0 fits),
        ap (λ t. length t.0) e ∙ length-tone_bytes c tone w.1 frames_played 0 ∙ regroup,
        ap (λ t. t.1) e,
      )
