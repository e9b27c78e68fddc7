-- ===== src/Tools/Hfp/Duplex/Played.antt =====
-- What a full-duplex test of src/bin/floss_hfp_smoke.rs has played and captured.
use dorsche.Base.{
  false, ℕ, ◌*◌, ◌/◌, ◌%◌, ◌^◌, ◌≡◌, ◌≤◌, ◌<◌, leb, take, if◌then◌else◌, refl, sym, ap, ap₂, ◌∙◌,
  Bool, List, [], ◌∷◌, ◌++◌, append-nil, append_assoc, some, Result, ok, err, ◌>>◌, replicate,
  length, length-replicate, ℤ, arith,
}
use dorsche.Tools.LeAudio.Samples.Decoded.{encode_all}
use dorsche.Tools.LeAudio.Tone.Played.{
  frames_of, intervals_written, first_error, write_intervals_lem,
}
use dorsche.Tools.Hfp.{Codec, sample_rate}
use dorsche.Tools.Hfp.Stats.{CaptureStats, default_stats, account, account_all}
use dorsche.Tools.Hfp.Duplex.{
  sco_pcm, samples_per_frame, frame_ticks, after_frames, play_tone, capture_reads, both_halves,
  drops_left, joined, exercise_full_duplex,
}

-- The reads before the first that fails or is empty.
abbrev pub heard : List (Result (List ℕ)) → List (List ℕ)
heard [] = []
heard (err e ∷ reads) = []
heard (ok [] ∷ reads) = []
heard (ok (x ∷ pcm) ∷ reads) = (x ∷ pcm) ∷ heard reads

-- The error of a read, unless one before it is empty.
abbrev pub read_error : List (Result (List ℕ)) → Result (Unit {0})
read_error [] = ok tt
read_error (err e ∷ reads) = err e
read_error (ok [] ∷ reads) = ok tt
read_error (ok (x ∷ pcm) ∷ reads) = read_error reads

abbrev pub all_bytes : List (List ℕ) → List ℕ
all_bytes [] = []
all_bytes (pcm ∷ rest) = pcm ++ all_bytes rest

capture_reads_lem :
    (reads : List (Result (List ℕ))) (stats : CaptureStats) (pcm : List ℕ)
    → capture_reads reads stats pcm
      ≡ (read_error reads >> ok (account_all (heard reads) stats, pcm ++ all_bytes (heard reads)))
unfolding capture_reads
capture_reads_lem [] stats pcm = ap (λ l. ok (stats, l)) (sym (append-nil pcm))
capture_reads_lem (err e ∷ reads) stats pcm = refl
capture_reads_lem (ok [] ∷ reads) stats pcm = ap (λ l. ok (stats, l)) (sym (append-nil pcm))
capture_reads_lem (ok (x ∷ block) ∷ reads) stats pcm =
    let all = account_all (heard reads) (account (x ∷ block) stats) in
    capture_reads_lem reads (account (x ∷ block) stats) (pcm ++ (x ∷ block))
    ∙ ap (λ l. read_error reads >> ok (all, l))
        (append_assoc pcm (x ∷ block) (all_bytes (heard reads)))

after_frames_lem :
    (closed r : Result (Unit {0})) (total : ℕ) (sent : List ℕ)
    → after_frames closed total (sent, some r) ≡ (sent, some (r >> (closed >> ok (total % 2 ^ 64))))
after_frames_lem closed (ok _) total sent = refl
after_frames_lem closed (err e) total sent = refl

-- How the playback half ends.
abbrev pub played : (ℕ → Result (Unit {0})) → Result (Unit {0}) → Codec → ℕ → Result ℕ
played written closed codec seconds =
    first_error written (frame_ticks seconds) 0
    >> (closed >> ok (frame_ticks seconds * (samples_per_frame codec * 2) % 2 ^ 64))

-- How the capture half ends.
abbrev pub captured : List (Result (List ℕ)) → Result (CaptureStats × List ℕ)
captured reads =
    read_error reads >> ok (account_all (heard reads) default_stats, all_bytes (heard reads))

play_tone_lem :
    (codec : Codec) (tone : ℕ → ℤ) (written : ℕ → Result (Unit {0})) (closed : Result (Unit {0}))
    (seconds : ℕ)
    → play_tone codec tone written closed seconds ≡ (
      encode_all 2 (
          frames_of 1 tone
            (intervals_written written (frame_ticks seconds) 0 * samples_per_frame codec)
            0),
      some (played written closed codec seconds),
    )
unfolding play_tone
play_tone_lem codec tone written closed seconds =
    let size = samples_per_frame codec * 2 in
    let narrow : 16 / 8 ≤ 8 = omega arith in
    let whole : length (replicate {A = ℕ} size 0) ≡ samples_per_frame codec * (1 * (16 / 8)) =
      length-replicate size 0 ∙ omega arith in
    ap (after_frames closed (frame_ticks seconds * size)) (
      write_intervals_lem (sco_pcm codec) tone narrow written (samples_per_frame codec)
        (frame_ticks seconds) 0 0 (replicate size 0) whole)
    ∙ after_frames_lem closed (first_error written (frame_ticks seconds) 0)
        (frame_ticks seconds * size)
        (encode_all 2 (
          frames_of 1 tone
            (intervals_written written (frame_ticks seconds) 0 * samples_per_frame codec) 0))

-- The tone of so many frames, one channel of `i16` samples.
abbrev pub tone_of : Codec → (ℕ → ℤ) → ℕ → List ℕ
tone_of codec tone frames = encode_all 2 (frames_of 1 tone (frames * samples_per_frame codec) 0)

-- If the buffer of the capture can be reserved: the test gives all bytes of its frames, and the bytes of the
-- reads before the first that is empty with their statistics, or the error of a write, of the shutdown or of a
-- read, that which comes first. It sends the tone from its first sample on, a hundredth of a second
-- a write, before the first write that fails, and no more than `cut` bytes of that where the error of a
-- read drops the playback half.
pub exercise_full_duplex_lem :
    (codec : Codec) (tone : ℕ → ℤ) (written : ℕ → Result (Unit {0})) (closed : Result (Unit {0}))
    (seconds : ℕ) (reads : List (Result (List ℕ))) (left_first : Bool) (cut : ℕ)
    → sample_rate codec * 2 * seconds < 2 ^ 63
    → let all = tone_of codec tone (intervals_written written (frame_ticks seconds) 0) in
      exercise_full_duplex codec tone written closed seconds reads left_first cut ≡ (
        if drops_left left_first (played written closed codec seconds) (captured reads)
            then take cut all
            else all,
        some (both_halves left_first (played written closed codec seconds) (captured reads)),
      )
unfolding exercise_full_duplex
exercise_full_duplex_lem codec tone written closed seconds reads left_first cut fits =
    let small : leb (2 ^ 63) (sample_rate codec * 2 * seconds) ≡ false = ground arith in
    rw small (
      ap₂ (joined left_first cut) (play_tone_lem codec tone written closed seconds)
        (capture_reads_lem reads default_stats []))
