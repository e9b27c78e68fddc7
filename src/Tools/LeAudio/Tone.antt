-- ===== src/Tools/LeAudio/Tone.antt =====
-- `write_tone` of src/bin/floss_le_audio_smoke.rs. The sine is the argument `tone`, with the integer that
-- each sample is scaled to; the socket's answer to a write is `written`, by its interval. What a write
-- that fails has sent is left out, and so is the pacing.
pub mod Played
pub mod Heard
pub mod Tests
use dorsche.Base.{
  ℕ, zero, suc, ◌+◌, ◌*◌, ◌/◌, ◌^◌, Bool, List, [], ◌++◌, Option, none, some, Result, ok, err, leb,
  if◌then◌else◌, replicate, ℤ,
}
use dorsche.Wireless.Types.Pcm.{PcmConfiguration, bytes_per_interval}
use dorsche.Tools.LeAudio.Samples.{write_sample}

-- The bytes on the socket, and the result; `none` is a panic.
abbrev pub Sent : Type 0 → Type 0
Sent A = List ℕ × Option (Result A)

module _ (c : PcmConfiguration) (tone : ℕ → ℤ) where
  -- The loop over the frames of an interval, from `frame` on.
  unfoldable pub fill_frames : ℕ → ℕ → ℕ → Option (List ℕ) → Option (List ℕ)
  fill_frames zero frame sample_index buffer = buffer
  fill_frames (suc n) frame sample_index none = none
  fill_frames (suc n) frame sample_index (some buffer) =
      fill_frames n (suc frame) (suc sample_index)
        (write_sample buffer frame c.channels c.bits_per_sample (tone sample_index))

abbrev pub after_write : (List ℕ → Sent (Unit {0})) → List ℕ → Result (Unit {0}) → Sent (Unit {0})
after_write later buffer (err e) = ([], some (err e))
after_write later buffer (ok done) = let (sent, ending) = later buffer in (buffer ++ sent, ending)

abbrev pub after_fill :
    (List ℕ → Sent (Unit {0})) → Result (Unit {0}) → Option (List ℕ) → Sent (Unit {0})
after_fill later answer none = ([], none)
after_fill later answer (some buffer) = after_write later buffer answer

-- From the shutdown on. The product is a `u64`.
abbrev pub after_loop : Result (Unit {0}) → ℕ → Sent (Unit {0}) → Sent ℕ
after_loop closed total (sent, none) = (sent, none)
after_loop closed total (sent, some (err e)) = (sent, some (err e))
after_loop (err e) total (sent, some (ok done)) = (sent, some (err e))
after_loop (ok closed) total (sent, some (ok done)) =
    (sent, if leb (2 ^ 64) total then none else some (ok total))

module _ (c : PcmConfiguration) (tone : ℕ → ℤ) (written : ℕ → Result (Unit {0})) where
  -- The loop over the intervals, from `interval` on.
  unfoldable pub write_intervals : ℕ → ℕ → ℕ → ℕ → List ℕ → Sent (Unit {0})
  write_intervals frames zero interval sample_index buffer = ([], some (ok tt))
  write_intervals frames (suc n) interval sample_index buffer =
      after_fill (write_intervals frames n (suc interval) (sample_index + frames))
        (written interval) (fill_frames c tone frames 0 sample_index (some buffer))

  unfoldable pub after_size : Result (Unit {0}) → ℕ → Result ℕ → Sent ℕ
  after_size closed seconds (err e) = ([], some (err e))
  after_size closed seconds (ok bytes) =
      let frames = bytes / c.channels / (c.bits_per_sample / 8) in
      let intervals = seconds * 1_000_000 / c.data_interval_us in
      if leb (2 ^ 64) (seconds * 1_000_000)
      then ([], none)
      else after_loop closed (intervals * bytes)
          (write_intervals frames intervals 0 0 (replicate bytes 0))

  unfoldable pub write_tone : Result (Unit {0}) → ℕ → Sent ℕ
  write_tone closed seconds = after_size closed seconds (bytes_per_interval c)
