-- ===== src/Wireless/Provider/Software.antt =====
-- What the software LC3 provider of Floss's host stack accepts.
use dorsche.Base.{◌≤◌, ◌≡◌, ◌↔◌, ◌⊎◌, refl, true, ok, arith, bit_and-zero, IsAnyOf, contains_iff}
use dorsche.Wireless.Types.Kinds.{
  SessionType, le_unicast_software_encoding, le_unicast_software_decoding, same_session_type,
}
use dorsche.Wireless.Types.Lc3.{Lc3Configuration, frame_durations}
use dorsche.Wireless.Types.Pcm.{sample_rates}
use dorsche.Wireless.Provider.{
  SessionRequest, new, register, find, select, supports_codec, software_codec,
  software_capabilities, software_lc3_provider,
}

abbrev pub IsSoftwareUnicast : SessionType → Type 0
IsSoftwareUnicast t = (t ≡ le_unicast_software_encoding) ⊎ (t ≡ le_unicast_software_decoding)

-- What the host encoder takes.
pub record IsHostLc3 (c : Lc3Configuration) : Type 0 where
  pub rate : IsAnyOf sample_rates c.sampling_frequency_hz
  pub duration : IsAnyOf frame_durations c.frame_duration_us
  pub octets_low : 20 ≤ c.octets_per_codec_frame
  pub octets_high : c.octets_per_codec_frame ≤ 400
  pub frames : c.codec_frames_per_sdu ≤ 4

supports_codec_iff : (c : Lc3Configuration) → (supports_codec software_codec c ≡ true) ↔ IsHostLc3 c
unfolding supports_codec
supports_codec_iff c = (
  (λ h. ground (
    arith,
    contains_iff sample_rates c.sampling_frequency_hz,
    contains_iff frame_durations c.frame_duration_us,
  )),
  (λ h. ground (
    arith,
    (contains_iff sample_rates c.sampling_frequency_hz).1 h.rate,
    (contains_iff frame_durations c.frame_duration_us).1 h.duration,
    bit_and-zero c.audio_channel_allocation,
  )),
)

accepts_iff :
    (r : SessionRequest)
    → (software_lc3_provider.accepts r ≡ true)
      ↔ (IsSoftwareUnicast r.session_type × IsHostLc3 r.codec)
unfolding software_lc3_provider same_session_type
accepts_iff r = (
  (λ h. ground (arith, supports_codec_iff r.codec)),
  (λ h. ground (arith, (supports_codec_iff r.codec).1 h.1)),
)

capabilities_lem : software_lc3_provider.capabilities ≡ software_capabilities
unfolding software_lc3_provider
capabilities_lem = refl

-- A registry with the software provider alone serves exactly the unicast software requests whose
-- LC3 configuration the host encoder takes, in every direction, context and channel allocation,
-- multidirectional or not.
pub software_serves :
    (r : SessionRequest)
    → (select (register new software_lc3_provider) r ≡ ok software_capabilities)
      ↔ (IsSoftwareUnicast r.session_type × IsHostLc3 r.codec)
unfolding select register new find
software_serves r = (
  (λ h. ground (arith, accepts_iff r)),
  (λ h. ground (arith, (accepts_iff r).1 h, capabilities_lem)),
)
