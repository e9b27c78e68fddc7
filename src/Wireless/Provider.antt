-- ===== src/Wireless/Provider.antt =====
-- src/wireless/provider.rs: capabilities, and the registry that selects a provider for a request.
pub mod Selection
pub mod Software
pub mod Tests
use dorsche.Base.{
  ℕ, ◌-◌, ◌≤◌, ◌^◌, bit_and, Bool, true, false, not, ◌&&◌, ◌||◌, List, [], ◌∷◌, ◌++◌, Option, none,
  some, Result, ok, err, String, any, contains, leb, ◌==◌, if◌then◌else◌, no_provider, no_fallback,
}
use dorsche.Wireless.Types.Kinds.{
  SessionType, same_session_type, StreamDirection, AudioContext, le_unicast_software_encoding,
  le_unicast_software_decoding,
}
use dorsche.Wireless.Types.Lc3.{Lc3Configuration}

pub record CodecCapability : Type 0 where
  pub sampling_frequencies_hz : List ℕ
  pub frame_durations_us : List ℕ
  pub octets_per_frame_min : ℕ
  pub octets_per_frame_max : ℕ
  pub max_codec_frames_per_sdu : ℕ
  pub channel_allocations : ℕ

-- `!x` on a `u32`
abbrev pub not_u32 : ℕ → ℕ
not_u32 x = 2 ^ 32 - 1 - x

-- `CodecCapability::supports`
unfoldable pub supports_codec : CodecCapability → Lc3Configuration → Bool
supports_codec k codec =
    contains k.sampling_frequencies_hz codec.sampling_frequency_hz
    && (contains k.frame_durations_us codec.frame_duration_us
        && ((leb k.octets_per_frame_min codec.octets_per_codec_frame
              && leb codec.octets_per_codec_frame k.octets_per_frame_max)
            && (leb codec.codec_frames_per_sdu k.max_codec_frames_per_sdu
                && bit_and codec.audio_channel_allocation (not_u32 k.channel_allocations) == 0)))

pub record ProviderCapabilities : Type 0 where
  pub name : String
  pub session_types : List SessionType
  pub codecs : List CodecCapability
  pub max_streams : ℕ
  pub supports_asymmetric : Bool
  pub supports_multidirectional : Bool
  pub supports_transparent_iso : Bool
  pub supports_controller_codec : Bool

pub record SessionRequest : Type 0 where
  pub session_type : SessionType
  pub direction : StreamDirection
  pub context : AudioContext
  pub codec : Lc3Configuration
  pub require_multidirectional : Bool

-- `ProviderCapabilities::supports`
unfoldable pub supports : ProviderCapabilities → SessionRequest → Bool
unfolding supports_codec same_session_type
supports p r =
    any (same_session_type r.session_type) p.session_types
    && any (λ k. supports_codec k r.codec) p.codecs

-- The trait: `accepts` may be overridden by an implementation.
pub record CapabilityProvider : Type 0 where
  pub capabilities : ProviderCapabilities
  pub accepts : SessionRequest → Bool

-- The default body of `accepts`.
unfoldable pub default_accepts : ProviderCapabilities → SessionRequest → Bool
unfolding supports
default_accepts p r =
    supports p r && (not r.require_multidirectional || p.supports_multidirectional)

pub record CapabilityRegistry : Type 0 where
  pub providers : List CapabilityProvider

unfoldable pub new : CapabilityRegistry
new = record { providers = [] }

unfoldable pub register : CapabilityRegistry → CapabilityProvider → CapabilityRegistry
register g p = record { providers = g.providers ++ (p ∷ []) }

-- `iter().find(..).map(..)`
unfoldable pub find : List CapabilityProvider → SessionRequest → Option ProviderCapabilities
find [] r = none
find (p ∷ ps) r = if p.accepts r then some p.capabilities else find ps r

unfoldable pub select : CapabilityRegistry → SessionRequest → Result ProviderCapabilities
select g r = elim (find g.providers r) [ some c ↦ ok c | none ↦ err no_provider ]

unfoldable pub require_explicit_fallback :
    CapabilityRegistry → SessionRequest → Option SessionRequest → Result ProviderCapabilities
require_explicit_fallback g preferred fallback = elim (select g preferred) [
  | ok c ↦ ok c
  | err _ ↦ elim fallback [ some r ↦ select g r | none ↦ err no_fallback ]
]

-- `SoftwareLc3Provider::new`
abbrev pub software_codec : CodecCapability
software_codec = record {
  sampling_frequencies_hz = 8_000 ∷ 16_000 ∷ 24_000 ∷ 32_000 ∷ 44_100 ∷ 48_000 ∷ [];
  frame_durations_us = 7_500 ∷ 10_000 ∷ [];
  octets_per_frame_min = 20;
  octets_per_frame_max = 400;
  max_codec_frames_per_sdu = 4;
  channel_allocations = 2 ^ 32 - 1;
}

abbrev pub software_capabilities : ProviderCapabilities
software_capabilities = record {
  name = "floss-host-lc3";
  session_types = le_unicast_software_encoding ∷ le_unicast_software_decoding ∷ [];
  codecs = software_codec ∷ [];
  max_streams = 31;
  supports_asymmetric = true;
  supports_multidirectional = true;
  supports_transparent_iso = true;
  supports_controller_codec = false;
}

-- It keeps the default `accepts`.
unfoldable pub software_lc3_provider : CapabilityProvider
unfolding default_accepts
software_lc3_provider = record {
  capabilities = software_capabilities;
  accepts = default_accepts software_capabilities;
}
