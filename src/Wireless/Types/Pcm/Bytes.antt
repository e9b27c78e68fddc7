-- ===== src/Wireless/Types/Pcm/Bytes.antt =====
-- The size of one interval of PCM: `PcmConfiguration::bytes_per_interval`.
use dorsche.Base.{
  ℕ, ◌*◌, ◌/◌, ◌%◌, ◌^◌, ◌<◌, ◌≤◌, ◌≡◌, subst, sym, ok, err, ◌==◌, if◌then◌else◌, arith, IsAnyOf,
  inl, inr, Bool-cases, pcm_fraction, ltb_iff,
}
use dorsche.Wireless.Types.Pcm.{
  PcmConfiguration, IsInRange, IsSupported, sample_rates, sample_widths, validate_iff, mul_u64,
  bytes_per_interval,
}

mul_le : (a b m n : ℕ) → a ≤ m → b ≤ n → a * b ≤ m * n
mul_le a b m n p q = grind arith

-- Sample frames times a million: what the overflow check looks at.
abbrev pub scaled_frames : PcmConfiguration → ℕ
scaled_frames c = c.sample_rate_hz * c.data_interval_us

abbrev pub interval_bytes : PcmConfiguration → ℕ
interval_bytes c = scaled_frames c / 1_000_000 * c.channels * (c.bits_per_sample / 8)

rate_le : (x : ℕ) → IsAnyOf sample_rates x → x ≤ 48_000
rate_le x h = ground arith

width_le : (x : ℕ) → IsAnyOf sample_widths x → x / 8 ≤ 4
width_le x h = ground arith

width_exact : (x : ℕ) → IsAnyOf sample_widths x → x / 8 * 8 ≡ x
width_exact x h = ground arith

module _ (c : PcmConfiguration) (s : IsSupported c) (r : IsInRange c) where
  scaled_le : scaled_frames c ≤ 48_000 * 2 ^ 32
  scaled_le = mul_le _ _ 48_000 (2 ^ 32) (rate_le _ s.rate) (omega (arith, r.interval_u32))

  channel_frames_le : scaled_frames c / 1_000_000 * c.channels ≤ 206_158_431 * 8
  channel_frames_le = mul_le _ _ 206_158_431 8 (omega (arith, scaled_le)) s.channels_high

  bytes_le : interval_bytes c ≤ 206_158_431 * 8 * 4
  bytes_le = mul_le _ _ (206_158_431 * 8) 4 channel_frames_le (width_le _ s.width)

  unwrapped :
      mul_u64 (mul_u64 (scaled_frames c / 1_000_000) c.channels) (c.bits_per_sample / 8)
      ≡ interval_bytes c
  unwrapped =
      let inner : mul_u64 (scaled_frames c / 1_000_000) c.channels
          ≡ scaled_frames c / 1_000_000 * c.channels =
        omega (arith, channel_frames_le) in
      rw inner (omega (arith, bytes_le))

  -- On a supported configuration no step overflows: the size is exact, or the interval holds a
  -- fraction of a frame and that is the error.
  pub bytes_per_interval_lem :
      bytes_per_interval c
      ≡ (if scaled_frames c % 1_000_000 == 0 then ok (interval_bytes c) else err pcm_fraction)
  unfolding bytes_per_interval
  bytes_per_interval_lem =
      rw
        (
          (validate_iff c).1 s,
          (ltb_iff (scaled_frames c) (2 ^ 64)).1 (omega (arith, scaled_le)),
          unwrapped,
          (ltb_iff (interval_bytes c) (2 ^ 64)).1 (omega (arith, bytes_le)),
        )
        (elim (Bool-cases (scaled_frames c % 1_000_000 == 0)) [ inl e ↦ rw e | inr e ↦ rw e ])

eight_millions :
    (x n w b : ℕ) → x % 1_000_000 ≡ 0 → w * 8 ≡ b → x / 1_000_000 * n * w * 8_000_000 ≡ x * n * b
eight_millions x n w b e f =
    let whole : x ≡ x / 1_000_000 * 1_000_000 = omega arith in
    subst (λ y. x / 1_000_000 * n * w * 8_000_000 ≡ y * n * b) (sym whole) (rw (← f) (omega arith))

both_positive : (x y : ℕ) → 0 < x → 0 < y → 0 < x * y
both_positive x y p q = grind arith

positive : (x y z : ℕ) → 0 < x → 0 < y → 0 < z → 0 < x * y * z
positive x y z p q r = both_positive _ _ (both_positive x y p q) r

width_positive : (x : ℕ) → IsAnyOf sample_widths x → 0 < x / 8
width_positive x h = ground arith

rate_positive : (x : ℕ) → IsAnyOf sample_rates x → 0 < x
rate_positive x h = ground arith

supported_of_ok : (c : PcmConfiguration) {n : ℕ} → bytes_per_interval c ≡ ok n → IsSupported c
unfolding bytes_per_interval
supported_of_ok c h = (validate_iff c).0 (ground arith)

-- What the program computes is the exact size: eight million times the bytes are the sample rate
-- times the interval in microseconds times the bits of all channels. A configuration that is not
-- supported has no size, and a size is not zero and below 2^33.
pub bytes_per_interval-exact :
    (c : PcmConfiguration) {n : ℕ}
    → IsInRange c
    → bytes_per_interval c ≡ ok n
    → IsSupported c
      × (n * 8_000_000 ≡ scaled_frames c * c.channels * c.bits_per_sample)
      × (0 < n)
      × (n < 2 ^ 33)
bytes_per_interval-exact c {n} r h = (s, exact, lower, upper)
  where
    s : IsSupported c
    s = supported_of_ok c h

    computed : (scaled_frames c % 1_000_000 ≡ 0) × (interval_bytes c ≡ n)
    computed = ground (arith, bytes_per_interval_lem c s r)

    exact : n * 8_000_000 ≡ scaled_frames c * c.channels * c.bits_per_sample
    exact = rw (← computed.1) (
        eight_millions (scaled_frames c) c.channels (c.bits_per_sample / 8) c.bits_per_sample
          computed.0 (width_exact _ s.width))

    some_frames : 0 < scaled_frames c
    some_frames = both_positive _ _ (rate_positive _ s.rate) s.interval

    lower : 0 < n
    lower = rw (← computed.1) (
        positive _ _ _ (omega (arith, computed, some_frames)) s.channels_low
          (width_positive _ s.width))

    upper : n < 2 ^ 33
    upper = omega (arith, computed, bytes_le c s r)
