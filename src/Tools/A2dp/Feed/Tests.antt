-- ===== src/Tools/A2dp/Feed/Tests.antt =====
-- What src/bin/floss_audio_smoke.rs feeds, on concrete data.
use dorsche.Base.{
  ℕ, zero, suc, ◌*◌, ◌%◌, ◌≡◌, refl, List, [], ◌∷◌, some, Result, ok, err, external, ◌>>◌, take, ℤ,
  pos, pcm_file_invalid, arith,
}
use dorsche.Tools.LeAudio.Tone.Played.{intervals_written, first_error}
use dorsche.Tools.A2dp.Feed.{tick_bytes, chunks, write_chunks, write_test_tone, write_pcm_file}
use dorsche.Tools.A2dp.Feed.Toned.{fed_after, write_test_tone-fed_after}
use dorsche.Tools.A2dp.Feed.File.{write_pcm_file-feeds}

-- Two writes of any kind, then an error.
abbrev two_writes : ℕ → Result (Unit {0})
two_writes zero = ok tt
two_writes (suc zero) = ok tt
two_writes (suc (suc n)) = err (external 104)

abbrev ramp : ℕ → ℤ
ramp n = pos (n % 1_000)

last_chunk : chunks 5 2 (1 ∷ 2 ∷ 3 ∷ 4 ∷ 5 ∷ []) ≡ (1 ∷ 2 ∷ []) ∷ (3 ∷ 4 ∷ []) ∷ (5 ∷ []) ∷ []
unfolding chunks
last_chunk = refl

cut_chunks :
    write_chunks two_writes 0 0 ((1 ∷ 2 ∷ []) ∷ (3 ∷ 4 ∷ []) ∷ (5 ∷ []) ∷ [])
    ≡ (1 ∷ 2 ∷ 3 ∷ 4 ∷ [], some (err (external 104)))
unfolding write_chunks
cut_chunks = refl

half_frame : write_pcm_file two_writes (ok tt) (ok (1 ∷ 2 ∷ [])) ≡ ([], some (err pcm_file_invalid))
unfolding write_pcm_file
half_frame = refl

write_test_tone-fed_after_example : write_test_tone ramp two_writes (ok tt) 3 ≡ (
  fed_after ramp two_writes 150 (intervals_written two_writes 155 0),
  some (first_error two_writes 155 0 >> ok (155 * tick_bytes)),
)
write_test_tone-fed_after_example =
    write_test_tone-fed_after ramp two_writes (ok tt) 3 (omega arith) (omega arith)

abbrev stereo_frame : List ℕ
stereo_frame = 1 ∷ 0 ∷ 255 ∷ 255 ∷ []

write_pcm_file-feeds_example :
    write_pcm_file two_writes (ok tt) (ok stereo_frame)
    ≡ (take (intervals_written two_writes 1 0 * tick_bytes) stereo_frame, some (ok 4))
write_pcm_file-feeds_example = write_pcm_file-feeds two_writes (ok tt) stereo_frame
