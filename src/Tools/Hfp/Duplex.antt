-- ===== src/Tools/Hfp/Duplex.antt =====
-- `exercise_full_duplex` of src/bin/floss_hfp_smoke.rs. The sine is the argument `tone`, scaled to integers, the
-- socket's answer to a write is `written`, by its number; `reads` are the answers to the reads before
-- the deadline. The pacing is left out, and so is what a write that fails has sent. The two halves are futures of one `try_join!`.
pub mod Played
pub mod Tests
use dorsche.Base.{
  ℕ, ◌*◌, ◌/◌, ◌%◌, ◌^◌, Bool, true, false, List, [], ◌∷◌, ◌++◌, Option, none, some, Error, Result,
  ok, err, ◌>>◌, replicate, take, not, leb, if◌then◌else◌, ℤ,
}
use dorsche.Wireless.Types.Pcm.{PcmConfiguration}
use dorsche.Tools.LeAudio.Tone.{Sent, write_intervals}
use dorsche.Tools.Hfp.{Codec, sample_rate}
use dorsche.Tools.Hfp.Stats.{CaptureStats, default_stats, account}

-- The samples of the call: one channel of `i16`.
abbrev pub sco_pcm : Codec → PcmConfiguration
sco_pcm codec = record {
  sample_rate_hz = sample_rate codec;
  bits_per_sample = 16;
  channels = 1;
  data_interval_us = 10_000;
}

abbrev pub samples_per_frame : Codec → ℕ
samples_per_frame codec = sample_rate codec / 100

-- `duration.as_millis() as usize / 10`
abbrev pub frame_ticks : ℕ → ℕ
frame_ticks seconds = seconds * 1_000 % 2 ^ 64 / 10

-- The end of the playback half. The bytes are counted in a `u64`.
abbrev pub after_frames : Result (Unit {0}) → ℕ → Sent (Unit {0}) → Sent ℕ
after_frames closed total (sent, none) = (sent, none)
after_frames closed total (sent, some (err e)) = (sent, some (err e))
after_frames closed total (sent, some (ok done)) = (sent, some (closed >> ok (total % 2 ^ 64)))

-- The playback half: each frame is filled and written as `write_tone` does it for one channel.
unfoldable pub play_tone :
    Codec → (ℕ → ℤ) → (ℕ → Result (Unit {0})) → Result (Unit {0}) → ℕ → Sent ℕ
play_tone codec tone written closed seconds =
    let size = samples_per_frame codec * 2 in
    after_frames closed (frame_ticks seconds * size) (
      write_intervals (sco_pcm codec) tone written (samples_per_frame codec) (frame_ticks seconds) 0
        0 (replicate size 0))

-- The capture half; at the end of the list the deadline has come.
unfoldable pub capture_reads :
    List (Result (List ℕ)) → CaptureStats → List ℕ → Result (CaptureStats × List ℕ)
capture_reads [] stats captured_pcm = ok (stats, captured_pcm)
capture_reads (err e ∷ reads) stats captured_pcm = err e
capture_reads (ok [] ∷ reads) stats captured_pcm = ok (stats, captured_pcm)
capture_reads (ok (x ∷ pcm) ∷ reads) stats captured_pcm =
    capture_reads reads (account (x ∷ pcm) stats) (captured_pcm ++ (x ∷ pcm))

-- `tokio::try_join!`: the error that comes first, in `left_first` that of the left.
abbrev pub both_halves : {A B : Type 0} → Bool → Result A → Result B → Result (A × B)
both_halves left_first (ok a) (ok b) = ok (a, b)
both_halves left_first (ok a) (err f) = err f
both_halves left_first (err e) (ok b) = err e
both_halves true (err e) (err f) = err e
both_halves false (err e) (err f) = err f

-- Whether the error of the right drops the left future, which may have ended before.
abbrev pub drops_left : {A B : Type 0} → Bool → Result A → Result B → Bool
drops_left left_first a (ok b) = false
drops_left left_first (ok a) (err f) = true
drops_left left_first (err e) (err f) = not left_first

-- What is sent, and the result. A playback half that is dropped has sent `cut` bytes, or all that it
-- sends.
abbrev pub joined :
    Bool → ℕ → Sent ℕ → Result (CaptureStats × List ℕ) → Sent (ℕ × (CaptureStats × List ℕ))
joined left_first cut (sent, none) captured = (sent, none)
joined left_first cut (sent, some played) captured = (
  if drops_left left_first played captured then take cut sent else sent,
  some (both_halves left_first played captured),
)

-- The size of `Vec::with_capacity` has to be below 2^63. That of the deadlines follows: an `Instant` has
-- as many seconds.
unfoldable pub exercise_full_duplex :
    Codec
    → (ℕ → ℤ)
    → (ℕ → Result (Unit {0}))
    → Result (Unit {0})
    → ℕ
    → List (Result (List ℕ))
    → Bool
    → ℕ
    → Sent (ℕ × (CaptureStats × List ℕ))
exercise_full_duplex codec tone written closed seconds reads left_first cut =
    if leb (2 ^ 63) (sample_rate codec * 2 * seconds)
    then ([], none)
    else joined left_first cut (play_tone codec tone written closed seconds)
        (capture_reads reads default_stats [])
