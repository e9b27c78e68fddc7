-- ===== src/Wireless/Types/Lc3.antt =====
-- `Lc3Configuration` of src/wireless/types.rs.
use dorsche.Base.{
  ℕ, ◌<◌, ◌≡◌, ◌↔◌, ◌&&◌, Bool, true, List, [], ◌∷◌, Result, ok, ◌>>◌, ensure, contains, ltb, ◌==◌,
  IsAnyOf, contains_iff, arith, lc3_rate, lc3_duration, lc3_empty, sdu_empty,
}
use dorsche.Wireless.Types.Pcm.{sample_rates}

pub record Lc3Configuration : Type 0 where
  pub sampling_frequency_hz : ℕ
  pub frame_duration_us : ℕ
  pub octets_per_codec_frame : ℕ
  pub codec_frames_per_sdu : ℕ
  pub audio_channel_allocation : ℕ

abbrev pub frame_durations : List ℕ
frame_durations = 7_500 ∷ 10_000 ∷ []

unfoldable pub validate : Lc3Configuration → Result (Unit {0})
validate c = do
  ensure (contains sample_rates c.sampling_frequency_hz) lc3_rate
  ensure (contains frame_durations c.frame_duration_us) lc3_duration
  ensure (ltb 0 c.octets_per_codec_frame) lc3_empty
  ensure (ltb 0 c.codec_frames_per_sdu) sdu_empty
  ok tt

-- The derived `PartialEq`.
unfoldable pub equal : Lc3Configuration → Lc3Configuration → Bool
equal a b =
    a.sampling_frequency_hz == b.sampling_frequency_hz
    && (a.frame_duration_us == b.frame_duration_us
        && (a.octets_per_codec_frame == b.octets_per_codec_frame
            && (a.codec_frames_per_sdu == b.codec_frames_per_sdu
                && a.audio_channel_allocation == b.audio_channel_allocation)))

pub record IsSupported (c : Lc3Configuration) : Type 0 where
  pub rate : IsAnyOf sample_rates c.sampling_frequency_hz
  pub duration : IsAnyOf frame_durations c.frame_duration_us
  pub octets : 0 < c.octets_per_codec_frame
  pub frames : 0 < c.codec_frames_per_sdu

pub validate_iff : (c : Lc3Configuration) → (validate c ≡ ok tt) ↔ IsSupported c
unfolding validate
validate_iff c = (
  (λ h. ground (
    arith,
    contains_iff sample_rates c.sampling_frequency_hz,
    contains_iff frame_durations c.frame_duration_us,
  )),
  (λ h. ground arith),
)

pub equal_iff : (a b : Lc3Configuration) → (equal a b ≡ true) ↔ (a ≡ b)
unfolding equal
equal_iff a b = ((λ h. ground arith), (λ h. ground arith))
