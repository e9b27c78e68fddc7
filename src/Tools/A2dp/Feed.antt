-- ===== src/Tools/A2dp/Feed.antt =====
-- What src/bin/floss_audio_smoke.rs feeds to Floss: `write_test_tone` and `write_pcm_file`. The sine is the
-- argument `tone`, the socket's answer to a write is `written`, by its number; the pacing is left out.
pub mod Counted
pub mod File
pub mod Toned
pub mod Tests
use dorsche.Base.{
  ℕ, zero, suc, ◌+◌, ◌*◌, ◌/◌, ◌%◌, ◌^◌, Bool, ◌||◌, not, List, [], ◌∷◌, ◌++◌, Option, none, some,
  Result, ok, err, ◌==◌, leb, if◌then◌else◌, is_empty, length, replicate, take, drop, ℤ,
  pcm_file_invalid,
}
use dorsche.Wireless.Types.Pcm.{PcmConfiguration}
use dorsche.Tools.LeAudio.Tone.{Sent, after_write, write_intervals, after_loop}

-- `SAMPLE_RATE`, `CHANNELS`, `FRAME_TIME` and the `i16` samples.
abbrev pub sbc_pcm : PcmConfiguration
sbc_pcm = record {
  sample_rate_hz = 48_000;
  bits_per_sample = 16;
  channels = 2;
  data_interval_us = 20_000;
}

abbrev pub frames_per_tick : ℕ
frames_per_tick = 960

abbrev pub tick_bytes : ℕ
tick_bytes = 3_840

-- What follows a loop that has ended well.
abbrev pub then_sent : {B : Type 0} → Sent (Unit {0}) → Sent B → Sent B
then_sent (sent, none) later = (sent, none)
then_sent (sent, some (err e)) later = (sent, some (err e))
then_sent (sent, some (ok done)) (more, ending) = (sent ++ more, ending)

-- Writes of one buffer, from number `i` on.
unfoldable pub write_silence : (ℕ → Result (Unit {0})) → ℕ → ℕ → List ℕ → Sent (Unit {0})
write_silence written zero i buffer = ([], some (ok tt))
write_silence written (suc n) i buffer =
    after_write (write_silence written n (suc i)) buffer (written i)

-- The ticks of the tone fill and write the buffer as `write_tone` does; then it is silenced. Both
-- products are `u64`s.
unfoldable pub write_test_tone : (ℕ → ℤ) → (ℕ → Result (Unit {0})) → Result (Unit {0}) → ℕ → Sent ℕ
write_test_tone tone written closed seconds =
    let ticks = seconds * 1_000 / 20 in
    if leb (2 ^ 64) (seconds * 1_000)
    then ([], none)
    else after_loop closed ((ticks + 5) * tick_bytes) (
        then_sent
          (write_intervals sbc_pcm tone written frames_per_tick ticks 0 0 (replicate tick_bytes 0))
          (write_silence written 5 ticks (replicate tick_bytes 0)))

-- `pcm.chunks(size)`, on fuel: a chunk takes a byte at least, and the last may be short.
unfoldable pub chunks : ℕ → ℕ → List ℕ → List (List ℕ)
chunks zero size pcm = []
chunks (suc fuel) size [] = []
chunks (suc fuel) size (b ∷ bs) = take size (b ∷ bs) ∷ chunks fuel size (drop size (b ∷ bs))

abbrev pub after_chunk : Sent ℕ → List ℕ → Result (Unit {0}) → Sent ℕ
after_chunk later chunk (err e) = ([], some (err e))
after_chunk (sent, ending) chunk (ok done) = (chunk ++ sent, ending)

-- The loop over the chunks, with the bytes counted so far.
unfoldable pub write_chunks : (ℕ → Result (Unit {0})) → ℕ → ℕ → List (List ℕ) → Sent ℕ
write_chunks written i bytes [] = ([], some (ok bytes))
write_chunks written i bytes (c ∷ cs) =
    after_chunk (write_chunks written (suc i) (bytes + length c) cs) c (written i)

abbrev pub after_chunks : Result (Unit {0}) → Sent ℕ → Sent ℕ
after_chunks closed (sent, none) = (sent, none)
after_chunks closed (sent, some (err e)) = (sent, some (err e))
after_chunks (err e) (sent, some (ok bytes)) = (sent, some (err e))
after_chunks (ok closed) (sent, some (ok bytes)) = (sent, some (ok bytes))

-- `read` is the content of the file.
unfoldable pub write_pcm_file :
    (ℕ → Result (Unit {0})) → Result (Unit {0}) → Result (List ℕ) → Sent ℕ
write_pcm_file written closed (err e) = ([], some (err e))
write_pcm_file written closed (ok pcm) =
    if is_empty pcm || not (length pcm % 4 == 0)
    then ([], some (err pcm_file_invalid))
    else after_chunks closed (write_chunks written 0 0 (chunks (length pcm) tick_bytes pcm))
