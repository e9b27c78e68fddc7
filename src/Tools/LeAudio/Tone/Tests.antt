-- ===== src/Tools/LeAudio/Tone/Tests.antt =====
-- Samples and a tone of src/bin/floss_le_audio_smoke.rs on concrete data.
use dorsche.Base.{
  ℕ, zero, suc, ◌*◌, ◌^◌, ◌≡◌, refl, [], ◌∷◌, none, some, Result, ok, err, external, length, ℤ, pos,
  negsuc, arith,
}
use dorsche.Wireless.Types.Pcm.{PcmConfiguration, validate, bytes_per_interval}
use dorsche.Tools.LeAudio.Samples.{
  write_channels, write_sample, chunks_exact, decode_sample, decode_samples,
}
use dorsche.Tools.LeAudio.Samples.Signed.{IsWithin}
use dorsche.Tools.LeAudio.Samples.Decoded.{all_ok}
use dorsche.Tools.LeAudio.Tone.{fill_frames, write_intervals, after_size, write_tone}
use dorsche.Tools.LeAudio.Tone.Played.{frames_of, intervals_written}
use dorsche.Tools.LeAudio.Tone.Heard.{frames_played, intervals, write_tone-decode_samples}

-- The second frame of a stereo buffer.
stereo_frame :
    write_sample (9 ∷ 9 ∷ 9 ∷ 9 ∷ 9 ∷ 9 ∷ 9 ∷ 9 ∷ []) 1 2 16 (negsuc 1)
    ≡ some (9 ∷ 9 ∷ 9 ∷ 9 ∷ 254 ∷ 255 ∷ 254 ∷ 255 ∷ [])
unfolding write_sample write_channels
stereo_frame = refl

beyond_buffer : write_sample (9 ∷ 9 ∷ []) 1 1 16 (pos 1) ≡ none
unfolding write_sample write_channels
beyond_buffer = refl

sign_extended : decode_sample 24 (255 ∷ 255 ∷ 255 ∷ []) ≡ ok (negsuc 0)
unfolding decode_sample
sign_extended = refl

incomplete_sample : decode_samples 16 (1 ∷ 1 ∷ 7 ∷ []) ≡ some (ok (pos 257) ∷ [])
unfolding decode_samples chunks_exact decode_sample
incomplete_sample = refl

abbrev narrow_band : PcmConfiguration
narrow_band = record {
  sample_rate_hz = 8_000;
  bits_per_sample = 16;
  channels = 2;
  data_interval_us = 500;
}

abbrev square_wave : ℕ → ℤ
square_wave zero = pos 100
square_wave (suc zero) = negsuc 99
square_wave (suc (suc n)) = square_wave n

square_wave_fits : (i : ℕ) → IsWithin (2 ^ 15) (square_wave i)
square_wave_fits zero = omega arith
square_wave_fits (suc zero) = omega arith
square_wave_fits (suc (suc n)) = square_wave_fits n

-- The socket breaks in the second interval.
abbrev breaking : ℕ → Result (Unit {0})
breaking zero = ok tt
breaking (suc n) = err (external 32)

narrow_size : bytes_per_interval narrow_band ≡ ok 16
unfolding bytes_per_interval validate
narrow_size = refl

broken_tone : (write_tone narrow_band square_wave breaking (ok tt) 1).1 ≡ some (err (external 32))
unfolding write_tone after_size bytes_per_interval validate write_intervals fill_frames write_sample
    write_channels
broken_tone = refl

write_tone-decode_samples_example :
    let (sent_bytes, ending) = write_tone narrow_band square_wave breaking (ok tt) 1 in
    (decode_samples 16 sent_bytes
      ≡ some (
          all_ok
            (frames_of 2 square_wave (frames_played narrow_band square_wave breaking (ok tt) 1) 0)))
    × (length sent_bytes
        ≡ intervals_written breaking (intervals narrow_band square_wave breaking (ok tt) 1) 0 * 16)
    × (ending ≡ some (err (external 32)))
write_tone-decode_samples_example =
    write_tone-decode_samples narrow_band square_wave breaking (ok tt) 1
      (record {
        rate_u32 = omega arith;
        bits_u8 = omega arith;
        channels_u8 = omega arith;
        interval_u32 = omega arith;
      })
      narrow_size square_wave_fits (omega arith) (omega arith)
