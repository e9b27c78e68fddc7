-- ===== src/Tools/Hfp/Duplex/Tests.antt =====
-- The full-duplex test of src/bin/floss_hfp_smoke.rs on concrete data.
use dorsche.Base.{
  ℕ, zero, suc, ◌%◌, ◌≡◌, refl, false, List, [], ◌∷◌, some, Result, ok, err, external, ℤ, pos, take,
  arith,
}
use dorsche.Tools.LeAudio.Tone.Played.{intervals_written}
use dorsche.Tools.Hfp.{cvsd}
use dorsche.Tools.Hfp.Stats.{default_stats, account, account_samples}
use dorsche.Tools.Hfp.Duplex.{frame_ticks, capture_reads, both_halves, exercise_full_duplex}
use dorsche.Tools.Hfp.Duplex.Played.{played, captured, tone_of, exercise_full_duplex_lem}

abbrev ramp : ℕ → ℤ
ramp n = pos (n % 1_000)

-- One write, then the peer is gone.
abbrev one_write : ℕ → Result (Unit {0})
one_write zero = ok tt
one_write (suc n) = err (external 32)

-- Two reads, the end of the stream, and one that never happens.
abbrev two_reads : List (Result (List ℕ))
two_reads = ok (1 ∷ 0 ∷ []) ∷ ok (0 ∷ 0 ∷ 255 ∷ []) ∷ ok [] ∷ err (external 5) ∷ []

captured_bytes :
    capture_reads two_reads default_stats []
    ≡ ok (record { bytes = 5; samples = 2; sum_squares = 1; peak = 1 }, 1 ∷ 0 ∷ 0 ∷ 0 ∷ 255 ∷ [])
unfolding capture_reads account account_samples
captured_bytes = refl

both_fail :
    both_halves {A = ℕ} {B = ℕ} false (err (external 32)) (err (external 5)) ≡ err (external 5)
both_fail = refl

-- A read that fails.
abbrev no_reads : List (Result (List ℕ))
no_reads = err (external 5) ∷ []

exercise_full_duplex_lem_example :
    exercise_full_duplex cvsd ramp one_write (ok tt) 2 no_reads false 100 ≡ (
      take 100 (tone_of cvsd ramp (intervals_written one_write (frame_ticks 2) 0)),
      some (both_halves false (played one_write (ok tt) cvsd 2) (captured no_reads)),
    )
exercise_full_duplex_lem_example =
    exercise_full_duplex_lem cvsd ramp one_write (ok tt) 2 no_reads false 100 (omega arith)
