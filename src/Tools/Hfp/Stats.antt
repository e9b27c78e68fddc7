-- ===== src/Tools/Hfp/Stats.antt =====
-- `CaptureStats` of src/bin/floss_hfp_smoke.rs. `sum_squares` is the exact sum, which an `f64` holds
-- below 2^53.
pub mod Measured
use dorsche.Base.{
  ℕ, zero, suc, ◌+◌, ◌-◌, ◌*◌, ◌/◌, ◌≤◌, ◌<◌, ◌≡◌, ◌≢◌, ◌↔◌, ◌⊎◌, inl, inr, refl, max, Bool, true,
  false, List, [], ◌∷◌, length, ltb, ◌==◌, if◌then◌else◌, All, arith, not, ◌||◌, Result, ok, err,
  Error, ensure, ◌>>◌, ◌>>=◌, no_microphone_pcm, silent_microphone_pcm,
}

pub record CaptureStats : Type 0 where
  pub bytes : ℕ
  pub samples : ℕ
  pub sum_squares : ℕ
  pub peak : ℕ

abbrev pub default_stats : CaptureStats
default_stats = record { bytes = 0; samples = 0; sum_squares = 0; peak = 0 }

-- The distance from zero of the `i16` with these bytes, and `saturating_abs`.
abbrev pub magnitude : ℕ → ℕ → ℕ
magnitude lo hi = if ltb (lo + 256 * hi) 32_768 then lo + 256 * hi else 65_536 - (lo + 256 * hi)

abbrev pub saturating_abs : ℕ → ℕ → ℕ
saturating_abs lo hi = if magnitude lo hi == 32_768 then 32_767 else magnitude lo hi

-- The loop over `chunks_exact(2)`.
unfoldable pub account_samples : List ℕ → CaptureStats → CaptureStats
account_samples [] s = s
account_samples (x ∷ []) s = s
account_samples (lo ∷ hi ∷ rest) s = account_samples rest (record s {
  samples = s.samples + 1;
  sum_squares = s.sum_squares + magnitude lo hi * magnitude lo hi;
  peak = max s.peak (saturating_abs lo hi);
})

-- `CaptureStats::account`
unfoldable pub account : List ℕ → CaptureStats → CaptureStats
account pcm s = account_samples pcm (record s { bytes = s.bytes + length pcm })

-- The stats after all reads of a capture.
abbrev pub account_all : List (List ℕ) → CaptureStats → CaptureStats
account_all [] s = s
account_all (pcm ∷ rest) s = account_all rest (account pcm s)

abbrev pub total : List (List ℕ) → ℕ
total [] = 0
total (pcm ∷ rest) = length pcm + total rest

-- The whole samples in the reads: an odd last byte of a read is not one.
abbrev pub pairs : List (List ℕ) → ℕ
pairs [] = 0
pairs (pcm ∷ rest) = length pcm / 2 + pairs rest

-- The two checks of `main` on a capture.
unfoldable pub check_capture : CaptureStats → Result (Unit {0})
check_capture s =
    ensure (not (s.bytes == 0)) no_microphone_pcm
    >> ensure (not (s.samples == 0 || s.peak == 0)) silent_microphone_pcm

abbrev pub Silence : List ℕ → Type 0
Silence [] = Unit
Silence (x ∷ []) = Unit
Silence (lo ∷ hi ∷ rest) = (lo ≡ 0) × (hi ≡ 0) × Silence rest

abbrev pub IsByte : ℕ → Type 0
IsByte b = b < 256
