-- ===== src/Tools/A2dp/Feed/Toned.antt =====
-- What `write_test_tone` of src/bin/floss_audio_smoke.rs has fed.
use dorsche.Base.{
  ℕ, zero, suc, ◌+◌, ◌-◌, ◌*◌, ◌/◌, ◌^◌, ◌<◌, ◌≡◌, inl, inr, refl, sym, ap, ap₂, ◌∙◌, false, List,
  ◌∷◌, ◌++◌, some, Result, ok, err, ◌>>◌, leb, min, replicate, length-replicate, append-nil, ℤ,
  arith,
}
use dorsche.Tools.LeAudio.Samples.Decoded.{encode_all}
use dorsche.Tools.LeAudio.Tone.{Sent, after_write, after_loop}
use dorsche.Tools.LeAudio.Tone.Played.{
  frames_of, intervals_written, first_error, write_intervals_lem,
}
use dorsche.Tools.LeAudio.Tone.Heard.{after_loop_lem}
use dorsche.Tools.A2dp.Feed.{
  sbc_pcm, frames_per_tick, tick_bytes, then_sent, write_silence, write_test_tone,
}
use dorsche.Tools.A2dp.Feed.Counted.{
  counted, first_error-add, intervals_written-add, intervals_written-cut,
}

replicate-add : (m n : ℕ) → replicate {A = ℕ} m 0 ++ replicate n 0 ≡ replicate (m + n) 0
replicate-add zero n = let e : n ≡ 0 + n = omega arith in ap (λ k. replicate k 0) e
replicate-add (suc m) n =
    let e : suc (m + n) ≡ suc m + n = omega arith in
    ap (λ r. 0 ∷ r) (replicate-add m n) ∙ ap (λ k. replicate k 0) e

module _ (written : ℕ → Result (Unit {0})) (size : ℕ) where
  silenced :
      (a : Result (Unit {0})) (k : ℕ) (ending : Result (Unit {0}))
      (later : List ℕ → Sent (Unit {0}))
      → later (replicate size 0) ≡ (replicate (k * size) 0, some ending)
      → after_write later (replicate size 0) a ≡ (
        replicate (elim a [ ok _ ↦ suc k | err e ↦ 0 ] * size) 0,
        some (elim a [ ok _ ↦ ending | err e ↦ err e ]),
      )
  silenced (err e) k ending later h =
      let nothing : 0 * size ≡ 0 = omega arith in
      ap (λ m. (replicate m 0, some (err e))) (sym nothing)
  silenced (ok done) k ending later h =
      let more : size + k * size ≡ suc k * size = omega arith in
      ap (λ (t : Sent (Unit {0})). (replicate size 0 ++ t.0, t.1)) h
      ∙ ap (λ b. (b, some ending)) (replicate-add size (k * size))
      ∙ ap (λ m. (replicate m 0, some ending)) more

  write_silence_lem :
      (n i : ℕ)
      → write_silence written n i (replicate size 0)
        ≡ (replicate (intervals_written written n i * size) 0, some (first_error written n i))
  unfolding write_silence
  write_silence_lem zero i =
      let nothing : 0 * size ≡ 0 = omega arith in
      ap (λ m. (replicate m 0, some (ok tt))) (sym nothing)
  write_silence_lem (suc n) i =
      silenced (written i) (intervals_written written n (suc i)) (first_error written n (suc i))
        (write_silence written n (suc i)) (write_silence_lem n (suc i))

module _ (tone : ℕ → ℤ) (written : ℕ → Result (Unit {0})) where
  -- What has been fed after `n` writes of a tone of this many ticks.
  abbrev pub fed_after : ℕ → ℕ → List ℕ
  fed_after ticks n =
      encode_all 2 (frames_of 2 tone (min n ticks * frames_per_tick) 0)
      ++ replicate ((n - ticks) * tick_bytes) 0

  abbrev tone_and_silence : ℕ → ℕ → Result (Unit {0}) → Sent (Unit {0})
  tone_and_silence n m ending = (
    encode_all 2 (frames_of 2 tone (n * frames_per_tick) 0) ++ replicate (m * tick_bytes) 0,
    some ending,
  )

  together :
      {n n' m m' : ℕ} {e e' : Result (Unit {0})}
      → n ≡ n'
      → m ≡ m'
      → e ≡ e'
      → tone_and_silence n m e ≡ tone_and_silence n' m' e'
  together p q r = cc

  -- The two loops after one another are one sequence of writes.
  both_loops :
      (ticks : ℕ)
      → then_sent
          (
            encode_all 2 (frames_of 2 tone (intervals_written written ticks 0 * frames_per_tick) 0),
            some (first_error written ticks 0),
          )
          (
            replicate (intervals_written written 5 ticks * tick_bytes) 0,
            some (first_error written 5 ticks),
          )
        ≡ (
          fed_after ticks (intervals_written written (ticks + 5) 0),
          some (first_error written (ticks + 5) 0),
        )
  both_loops ticks =
      let start : 0 + ticks ≡ ticks = omega arith in
      let errors : first_error written (ticks + 5) 0
          ≡ (first_error written ticks 0 >> first_error written 5 ticks) =
        first_error-add written ticks 5 0
        ∙ ap (λ k. first_error written ticks 0 >> first_error written 5 k) start in
      elim (counted written ticks 0) [
        | inl (f, k) ↦
            let total : intervals_written written (ticks + 5) 0
                ≡ ticks + intervals_written written 5 ticks =
              intervals_written-add written ticks 5 0 f
              ∙ ap (λ j. ticks + intervals_written written 5 j) start in
            let whole : intervals_written written ticks 0
                ≡ min (intervals_written written (ticks + 5) 0) ticks =
              omega (arith, k, total) in
            let rest : intervals_written written 5 ticks
                ≡ intervals_written written (ticks + 5) 0 - ticks =
              omega (arith, total) in
            rw f (together whole rest (sym (errors ∙ rw f refl)))
        | inr (x, f, k) ↦
            let total : intervals_written written (ticks + 5) 0
                ≡ intervals_written written ticks 0 =
              intervals_written-cut written ticks 5 0 x f in
            let same : intervals_written written ticks 0
                ≡ min (intervals_written written (ticks + 5) 0) ticks =
              omega (arith, k, total) in
            let none_over : 0 ≡ intervals_written written (ticks + 5) 0 - ticks =
              omega (arith, k, total) in
            rw f (
              ap (λ b. (b, some (err x)))
                (sym (
                  append-nil (
                    encode_all 2
                      (frames_of 2 tone (intervals_written written ticks 0 * frames_per_tick) 0))))
              ∙ together same none_over (sym (errors ∙ rw f refl)))
      ]

-- Whatever the socket answers: after `n` writes, those before the first error, `write_test_tone` has fed
-- the tone from its first sample on, 960 stereo frames of `i16` samples a write, for all its ticks,
-- and then 3840 bytes of silence a write. It ends with the first error of its ticks and five silent
-- writes, then with that of the shutdown, and else reports all bytes. The two products of the code
-- fit 64 bits.
pub write_test_tone-fed_after :
    (tone : ℕ → ℤ) (written : ℕ → Result (Unit {0})) (closed : Result (Unit {0})) (seconds : ℕ)
    → seconds * 1_000 < 2 ^ 64
    → (seconds * 1_000 / 20 + 5) * tick_bytes < 2 ^ 64
    → let ticks = seconds * 1_000 / 20 in
      let n = intervals_written written (ticks + 5) 0 in
      write_test_tone tone written closed seconds ≡ (
        fed_after tone written ticks n,
        some (first_error written (ticks + 5) 0 >> (closed >> ok ((ticks + 5) * tick_bytes))),
      )
unfolding write_test_tone
write_test_tone-fed_after tone written closed seconds short total =
    let ticks = seconds * 1_000 / 20 in
    let fits : leb (2 ^ 64) (seconds * 1_000) ≡ false = ground arith in
    let played =
      write_intervals_lem sbc_pcm tone (omega arith) written frames_per_tick ticks 0 0
        (replicate tick_bytes 0) (length-replicate {A = ℕ} tick_bytes 0) in
    rw fits (
      ap₂ (λ a b. after_loop closed ((ticks + 5) * tick_bytes) (then_sent a b)) played
        (write_silence_lem written tick_bytes 5 ticks)
      ∙ ap (after_loop closed ((ticks + 5) * tick_bytes)) (both_loops tone written ticks)
      ∙ after_loop_lem closed (first_error written (ticks + 5) 0) ((ticks + 5) * tick_bytes)
          (fed_after tone written ticks (intervals_written written (ticks + 5) 0)) total)
