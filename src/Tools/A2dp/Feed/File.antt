-- ===== src/Tools/A2dp/Feed/File.antt =====
-- What `write_pcm_file` of src/bin/floss_audio_smoke.rs has fed.
use dorsche.Base.{
  ℕ, zero, suc, ◌+◌, ◌-◌, ◌*◌, ◌/◌, ◌%◌, ◌≤◌, ◌<◌, ◌≡◌, inl, inr, refl, sym, ap, ap₂, ◌∙◌, List, [],
  ◌∷◌, ◌++◌, some, Result, ok, err, ◌>>◌, ◌||◌, not, ◌==◌, is_empty, if◌then◌else◌, length,
  length-drop, length-take, take, drop, Bool-cases, pcm_file_invalid, arith,
}
use dorsche.Tools.LeAudio.Tone.{Sent}
use dorsche.Tools.LeAudio.Tone.Played.{intervals_written, first_error}
use dorsche.Tools.A2dp.Feed.{
  tick_bytes, chunks, after_chunk, write_chunks, after_chunks, write_pcm_file,
}

take_add : (m n : ℕ) (xs : List ℕ) → take m xs ++ take n (drop m xs) ≡ take (m + n) xs
take_add zero n xs = let e : n ≡ 0 + n = omega arith in ap (λ k. take k xs) e
take_add (suc m) n [] = nothing n ∙ sym (nothing (suc m + n))
  where
    nothing : (k : ℕ) → take {A = ℕ} k [] ≡ []
    nothing zero = refl
    nothing (suc k) = refl
take_add (suc m) n (x ∷ xs) =
    let e : suc (m + n) ≡ suc m + n = omega arith in
    ap (λ r. x ∷ r) (take_add m n xs) ∙ ap (λ k. take k (x ∷ xs)) e

-- Bytes as a number of chunks, the last one short.
abbrev pub chunk_count : ℕ → ℕ → ℕ
chunk_count size bytes = (bytes + (size - 1)) / size

abbrev Steps : ℕ → Type 0
Steps size = (n : ℕ) → chunk_count size (suc n) ≡ suc (chunk_count size (suc n - size))

module _ (written : ℕ → Result (Unit {0})) (size : ℕ) (some_size : 0 < size)
    (no_chunks : chunk_count size 0 ≡ 0) (steps : Steps size) where
  -- What a stretch of the file comes to.
  abbrev fed : ℕ → ℕ → ℕ → List ℕ → Sent ℕ
  fed count i bytes xs = (
    take (intervals_written written count i * size) xs,
    some (first_error written count i >> ok (bytes + length xs)),
  )

  chunk_answered :
      (a : Result (Unit {0})) (k : ℕ) (ending : Result (Unit {0})) (total : ℕ) (xs : List ℕ)
      → after_chunk (take (k * size) (drop size xs), some (ending >> ok total)) (take size xs) a ≡ (
        take (elim a [ ok _ ↦ suc k | err e ↦ 0 ] * size) xs,
        some (elim a [ ok _ ↦ ending | err e ↦ err e ] >> ok total),
      )
  chunk_answered (err e) k ending total xs =
      let nothing : 0 * size ≡ 0 = omega arith in ap (λ m. (take m xs, some (err e))) (sym nothing)
  chunk_answered (ok done) k ending total xs =
      let more : size + k * size ≡ suc k * size = omega arith in
      ap (λ b. (b, some (ending >> ok total)))
        (take_add size (k * size) xs ∙ ap (λ m. take m xs) more)

  nothing_fed : (i bytes : ℕ) → fed 0 i bytes [] ≡ ([], some (ok bytes))
  nothing_fed i bytes =
      let e : bytes + 0 ≡ bytes = omega arith in
      let nothing : 0 * size ≡ 0 = omega arith in ap₂ (λ m n. (take m [], some (ok n))) nothing e

  write_chunks_lem :
      (fuel i bytes : ℕ) (xs : List ℕ)
      → length xs ≤ fuel
      → write_chunks written i bytes (chunks fuel size xs)
        ≡ fed (chunk_count size (length xs)) i bytes xs
  unfolding chunks write_chunks
  write_chunks_lem zero i bytes [] f =
      sym (ap (λ n. fed n i bytes []) no_chunks ∙ nothing_fed i bytes)
  write_chunks_lem zero i bytes (x ∷ xs) f = absurd (omega arith)
  write_chunks_lem (suc fuel) i bytes [] f =
      sym (ap (λ n. fed n i bytes []) no_chunks ∙ nothing_fed i bytes)
  write_chunks_lem (suc fuel) i bytes (x ∷ xs) f =
      let all = x ∷ xs in
      let rest = drop size all in
      let left : length rest ≡ suc (length xs) - size = length-drop size all in
      let later =
        write_chunks_lem fuel (suc i) (bytes + length (take size all)) rest
          (omega (arith, left, f, some_size)) in
      let sizes : bytes + length (take size all) + length rest ≡ bytes + length all =
        omega (arith, left, length-take size all) in
      let k = intervals_written written (chunk_count size (suc (length xs) - size)) (suc i) in
      let ending = first_error written (chunk_count size (suc (length xs) - size)) (suc i) in
      let same : fed (chunk_count size (length rest)) (suc i) (bytes + length (take size all)) rest
          ≡ (take (k * size) rest, some (ending >> ok (bytes + length all))) =
        ap₂
          (λ n t. (
            take (intervals_written written (chunk_count size n) (suc i) * size) rest,
            some (first_error written (chunk_count size n) (suc i) >> ok t),
          ))
          left sizes in
      ap (λ t. after_chunk t (take size all) (written i)) (later ∙ same)
      ∙ chunk_answered (written i) k ending (bytes + length all) all
      ∙ ap (λ n. fed n i bytes all) (sym (steps (length xs)))

after_chunks_lem :
    (closed ending : Result (Unit {0})) (total : ℕ) (sent : List ℕ)
    → after_chunks closed (sent, some (ending >> ok total))
      ≡ (sent, some (ending >> (closed >> ok total)))
after_chunks_lem closed (err e) total sent = refl
after_chunks_lem (err e) (ok done) total sent = refl
after_chunks_lem (ok tt) (ok done) total sent = refl

-- A file of whole stereo frames is fed as it is, in writes of 3840 bytes and a last short one, as far as
-- the writes succeed; the end is the first error of a write, then that of the shutdown, and else
-- the size of the file. An empty file and one with an incomplete frame are refused unwritten.
pub write_pcm_file-feeds :
    (written : ℕ → Result (Unit {0})) (closed : Result (Unit {0})) (pcm : List ℕ)
    → let count = chunk_count tick_bytes (length pcm) in
      write_pcm_file written closed (ok pcm) ≡ (
        if is_empty pcm || not (length pcm % 4 == 0) then ([], some (err pcm_file_invalid)) else (
          take (intervals_written written count 0 * tick_bytes) pcm,
          some (first_error written count 0 >> (closed >> ok (length pcm))),
        ))
unfolding write_pcm_file
write_pcm_file-feeds written closed [] = refl
write_pcm_file-feeds written closed (x ∷ xs) =
    let all = x ∷ xs in
    let count = chunk_count tick_bytes (length all) in
    let start : 0 + length all ≡ length all = omega arith in
    let looped =
      write_chunks_lem written tick_bytes (omega arith) (omega arith) (λ n. omega arith)
        (length all) 0 0 all (omega arith) in
    elim (Bool-cases (length all % 4 == 0)) [
      | inl whole ↦ rw whole (
          ap (after_chunks closed) looped
          ∙ after_chunks_lem closed (first_error written count 0) (0 + length all)
              (take (intervals_written written count 0 * tick_bytes) all)
          ∙ ap
              (λ n. (
                take (intervals_written written count 0 * tick_bytes) all,
                some (first_error written count 0 >> (closed >> ok n)),
              ))
              start)
      | inr part ↦ rw part refl
    ]
