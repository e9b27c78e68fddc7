-- ===== src/Wireless/Types/Frame.antt =====
-- `PresentationPosition` and `FrameDescriptor` of src/wireless/types.rs.
use dorsche.Base.{ℕ}
use dorsche.Wireless.Types.Kinds.{PayloadKind, payload_kind_code, iso_status_code, valid}

abbrev pub wireless_audio_abi_version : ℕ
wireless_audio_abi_version = 1

-- `size_of::<FrameDescriptor>()`, which the source asserts to be 64.
abbrev pub descriptor_size : ℕ
descriptor_size = 64

pub record PresentationPosition : Type 0 where
  pub remote_delay_ns : ℕ
  pub transmitted_octets : ℕ
  pub monotonic_time_ns : ℕ

-- The derived `Default`.
abbrev pub default_position : PresentationPosition
default_position = record { remote_delay_ns = 0; transmitted_octets = 0; monotonic_time_ns = 0 }

pub record FrameDescriptor : Type 0 where
  pub abi_version : ℕ
  pub header_bytes : ℕ
  pub payload_kind : ℕ
  pub iso_status : ℕ
  pub flags : ℕ
  pub payload_bytes : ℕ
  pub sequence : ℕ
  pub stream_handle : ℕ
  pub sample_rate_hz : ℕ
  pub channels : ℕ
  pub bits_per_sample : ℕ
  pub capture_time_ns : ℕ
  pub presentation_time_ns : ℕ
  pub deadline_ns : ℕ

unfoldable pub new : PayloadKind → ℕ → FrameDescriptor
new kind sequence = record {
  abi_version = wireless_audio_abi_version;
  header_bytes = descriptor_size;
  payload_kind = payload_kind_code kind;
  iso_status = iso_status_code valid;
  flags = 0;
  payload_bytes = 0;
  sequence = sequence;
  stream_handle = 0;
  sample_rate_hz = 0;
  channels = 0;
  bits_per_sample = 0;
  capture_time_ns = 0;
  presentation_time_ns = 0;
  deadline_ns = 0;
}
