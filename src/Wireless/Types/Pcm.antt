-- ===== src/Wireless/Types/Pcm.antt =====
-- `PcmConfiguration` of src/wireless/types.rs. Its `u32` and `u8` fields are natural numbers; their
-- ranges are `IsInRange`. `usize` has 64 bits.
pub mod Bytes
use dorsche.Base.{
  ℕ, ◌*◌, ◌/◌, ◌%◌, ◌^◌, ◌<◌, ◌&&◌, Error, Result, ok, err, ◌>>◌, ◌>>=◌, ensure, contains, ltb, leb,
  ◌==◌, if◌then◌else◌, List, [], ◌∷◌, IsAnyOf, ◌≤◌, ◌↔◌, ◌≡◌, arith, contains_iff, Bool, true,
  false, pcm_rate, pcm_width, pcm_channels, pcm_interval, pcm_overflow, pcm_fraction, pcm_convert,
}

pub record PcmConfiguration : Type 0 where
  pub sample_rate_hz : ℕ
  pub bits_per_sample : ℕ
  pub channels : ℕ
  pub data_interval_us : ℕ

-- What the field types of the struct guarantee.
pub record IsInRange (c : PcmConfiguration) : Type 0 where
  pub rate_u32 : c.sample_rate_hz < 2 ^ 32
  pub bits_u8 : c.bits_per_sample < 2 ^ 8
  pub channels_u8 : c.channels < 2 ^ 8
  pub interval_u32 : c.data_interval_us < 2 ^ 32

abbrev pub sample_rates : List ℕ
sample_rates = 8_000 ∷ 16_000 ∷ 24_000 ∷ 32_000 ∷ 44_100 ∷ 48_000 ∷ []

abbrev pub sample_widths : List ℕ
sample_widths = 16 ∷ 24 ∷ 32 ∷ []

unfoldable pub validate : PcmConfiguration → Result (Unit {0})
validate c = do
  ensure (contains sample_rates c.sample_rate_hz) pcm_rate
  ensure (contains sample_widths c.bits_per_sample) pcm_width
  ensure (leb 1 c.channels && leb c.channels 8) pcm_channels
  ensure (ltb 0 c.data_interval_us) pcm_interval
  ok tt

-- `u64::checked_mul`
abbrev pub checked_mul : ℕ → ℕ → Error → Result ℕ
checked_mul a b e = if ltb (a * b) (2 ^ 64) then ok (a * b) else err e

-- `u64` multiplication, which wraps in release builds.
abbrev pub mul_u64 : ℕ → ℕ → ℕ
mul_u64 a b = a * b % 2 ^ 64

-- `usize::try_from`
abbrev pub usize_try_from : ℕ → Error → Result ℕ
usize_try_from n e = if ltb n (2 ^ 64) then ok n else err e

unfoldable pub bytes_per_interval : PcmConfiguration → Result ℕ
bytes_per_interval c = do
  validate c
  frames ← checked_mul c.sample_rate_hz c.data_interval_us pcm_overflow
  ensure (frames % 1_000_000 == 0) pcm_fraction
  usize_try_from (mul_u64 (mul_u64 (frames / 1_000_000) c.channels) (c.bits_per_sample / 8))
      pcm_convert

-- A configuration that the ABI supports.
pub record IsSupported (c : PcmConfiguration) : Type 0 where
  pub rate : IsAnyOf sample_rates c.sample_rate_hz
  pub width : IsAnyOf sample_widths c.bits_per_sample
  pub channels_low : 1 ≤ c.channels
  pub channels_high : c.channels ≤ 8
  pub interval : 0 < c.data_interval_us

-- `validate` accepts exactly the supported configurations: one of the six sample rates, a width of
-- 16, 24 or 32 bits, one to eight channels, and an interval that is not zero.
pub validate_iff : (c : PcmConfiguration) → (validate c ≡ ok tt) ↔ IsSupported c
unfolding validate
validate_iff c = (
  (λ h. ground (
    arith,
    contains_iff sample_rates c.sample_rate_hz,
    contains_iff sample_widths c.bits_per_sample,
  )),
  (λ h. ground arith),
)
