-- ===== src/Tools/Hfp/Stats/Measured.antt =====
-- What `CaptureStats` of src/bin/floss_hfp_smoke.rs has measured after the reads of a capture.
use dorsche.Base.{
  ℕ, ◌+◌, ◌*◌, ◌/◌, ◌≤◌, ◌≡◌, ◌≢◌, ◌↔◌, refl, max, List, [], ◌∷◌, length, All, arith, ok,
}
use dorsche.Tools.Hfp.Stats.{
  CaptureStats, default_stats, magnitude, saturating_abs, account_samples, account, account_all,
  total, pairs, check_capture, Silence, IsByte,
}

-- What the samples of one read do to the stats.
pub record Counted (pcm : List ℕ) (s t : CaptureStats) : Type 0 where
  pub bytes : t.bytes ≡ s.bytes
  pub samples : t.samples ≡ s.samples + length pcm / 2
  pub below : s.peak ≤ 32_767 → t.peak ≤ 32_767
  pub quiet : (t.peak ≡ 0) ↔ ((s.peak ≡ 0) × Silence pcm)

saturating_abs_le : (lo hi : ℕ) → IsByte lo → IsByte hi → saturating_abs lo hi ≤ 32_767
saturating_abs_le lo hi a b = ground arith

saturating_abs_zero :
    (lo hi : ℕ) → IsByte lo → IsByte hi → (saturating_abs lo hi ≡ 0) ↔ ((lo ≡ 0) × (hi ≡ 0))
saturating_abs_zero lo hi a b = ((λ e. (ground arith, ground arith)), (λ (x, y). ground arith))

account_samples-Counted :
    (pcm : List ℕ) (s : CaptureStats) → All IsByte pcm → Counted pcm s (account_samples pcm s)
unfolding account_samples
account_samples-Counted [] s h = record {
  bytes = refl;
  samples = omega arith;
  below = λ b. b;
  quiet = ((λ q. (q, tt)), (λ q. q.0));
}
account_samples-Counted (x ∷ []) s h = record {
  bytes = refl;
  samples = omega arith;
  below = λ b. b;
  quiet = ((λ q. (q, tt)), (λ q. q.0));
}
account_samples-Counted (lo ∷ hi ∷ rest) s (a, h') =
    let (b, h) = h' in
    let next : CaptureStats = record s {
      samples = s.samples + 1;
      sum_squares = s.sum_squares + magnitude lo hi * magnitude lo hi;
      peak = max s.peak (saturating_abs lo hi);
    } in
    let later = account_samples-Counted rest next h in
    let bound = saturating_abs_le lo hi a b in
    let zero_iff = saturating_abs_zero lo hi a b in
    record {
      bytes = later.bytes;
      samples = omega (arith, later.samples);
      below = λ p. later.below (omega arith);
      quiet = (
        (λ q.
            let (p, z) = later.quiet.0 q in
            let (x, y) = zero_iff.0 (omega arith) in (omega arith, (x, y, z))),
        (λ (p, (x, y, z)). later.quiet.1 (omega (arith, zero_iff.1 (x, y)), z)),
      );
    }

-- What the reads of a capture add up to.
pub record Measured (reads : List (List ℕ)) (s t : CaptureStats) : Type 0 where
  pub bytes : t.bytes ≡ s.bytes + total reads
  pub samples : t.samples ≡ s.samples + pairs reads
  pub below : s.peak ≤ 32_767 → t.peak ≤ 32_767
  pub quiet : (t.peak ≡ 0) ↔ ((s.peak ≡ 0) × All Silence reads)

account_all-Measured :
    (reads : List (List ℕ)) (s : CaptureStats)
    → All (All IsByte) reads
    → Measured reads s (account_all reads s)
unfolding account
account_all-Measured [] s h = record {
  bytes = omega arith;
  samples = omega arith;
  below = λ b. b;
  quiet = ((λ q. (q, tt)), (λ q. q.0));
}
account_all-Measured (pcm ∷ reads) s (h, hs) =
    let start : CaptureStats = record s { bytes = s.bytes + length pcm } in
    let one = account_samples-Counted pcm start h in
    let all = account_all-Measured reads (account pcm s) hs in
    record {
      bytes = omega (arith, one.bytes, all.bytes);
      samples = omega (arith, one.samples, all.samples);
      below = λ b. all.below (one.below b);
      quiet = (
        (λ q. let (p, later) = all.quiet.0 q in let (z, now) = one.quiet.0 p in (z, (now, later))),
        (λ (z, (now, later)). all.quiet.1 (one.quiet.1 (z, now), later)),
      );
    }

Silence-short : (pcm : List ℕ) → length pcm / 2 ≡ 0 → Silence pcm
Silence-short [] h = tt
Silence-short (x ∷ []) h = tt
Silence-short (lo ∷ hi ∷ rest) h = absurd (omega arith)

pairs_zero : (reads : List (List ℕ)) → pairs reads ≡ 0 → All Silence reads
pairs_zero [] h = tt
pairs_zero (pcm ∷ reads) h = (Silence-short pcm (omega arith), pairs_zero reads (omega arith))

pairs_le : (reads : List (List ℕ)) → pairs reads ≤ total reads
pairs_le [] = omega arith
pairs_le (pcm ∷ reads) = omega (arith, pairs_le reads)

check_capture_iff :
    (s : CaptureStats)
    → (check_capture s ≡ ok tt) ↔ ((s.bytes ≢ 0) × (s.samples ≢ 0) × (s.peak ≢ 0))
unfolding check_capture
check_capture_iff s = ((λ h. ground arith), (λ (b, n, p). ground arith))

-- Whatever is read from the microphone, the statistics have its exact numbers of bytes and of whole
-- samples per read, the peak is an `i16`, and the two checks pass exactly when some whole sample is
-- not zero.
pub account-check_capture :
    (reads : List (List ℕ))
    → All (All IsByte) reads
    → let s = account_all reads default_stats in
      (s.bytes ≡ total reads)
      × (s.samples ≡ pairs reads)
      × (s.peak ≤ 32_767)
      × ((check_capture s ≡ ok tt) ↔ (¬ All Silence reads))
account-check_capture reads h =
    let s = account_all reads default_stats in
    let m = account_all-Measured reads default_stats h in
    let loud : (¬ All Silence reads) → s.peak ≢ 0 = λ n e. n (m.quiet.0 e).1 in
    let some : (¬ All Silence reads) → pairs reads ≢ 0 = λ n e. n (pairs_zero reads e) in
    (
      omega (arith, m.bytes),
      omega (arith, m.samples),
      m.below (omega arith),
      (
        (λ c z. ((check_capture_iff s).0 c).2 (m.quiet.1 (refl, z))),
        (λ n. (check_capture_iff s).1 (
          (λ e. some n (omega (arith, e, m.bytes, pairs_le reads))),
          (λ e. some n (omega (arith, e, m.samples))),
          loud n,
        )),
      ),
    )
