-- ===== src/Wireless/Types/Tests.antt =====
-- The unit tests of src/wireless/types.rs, and the examples of the theorems about it.
use dorsche.Base.{
  ℕ, ◌*◌, ◌^◌, ◌<◌, ◌≡◌, refl, List, [], ◌∷◌, none, ok, err, true, false, pos, arith, bis_duplicate,
  pcm_fraction,
}
use dorsche.Wireless.Types.Kinds.{
  le_unicast_software_encoding, is_broadcast, sink, media, unframed, le_2m, sequential,
}
use dorsche.Wireless.Types.Pcm
use dorsche.Wireless.Types.Pcm.{PcmConfiguration, bytes_per_interval}
use dorsche.Wireless.Types.Pcm.Bytes.{scaled_frames, bytes_per_interval-exact}
use dorsche.Wireless.Types.Lc3
use dorsche.Wireless.Types.Lc3.{Lc3Configuration}
use dorsche.Wireless.Types.Iso
use dorsche.Wireless.Types.Iso.{
  IsoQos, DataPathConfiguration, AseConfiguration, validate_qos, ase_validate_iff,
}
use dorsche.Wireless.Types.Broadcast
use dorsche.Wireless.Types.Broadcast.{
  BisConfiguration, BroadcastSubgroup, BroadcastConfiguration, validate_one, validate_bis,
  validate_subgroup, validate_subgroups, collect_bis,
}
use dorsche.Wireless.Types.Broadcast.Indices.{IsUsable, broadcast_validate_iff}
use dorsche.Wireless.Types.Audio.{
  LeAudioConfiguration, le_audio, validate_ases, validate_for, Suits, validate_for_iff,
}

-- 48 kHz stereo, 16 bits, 10 ms
abbrev pub stereo : PcmConfiguration
stereo = record {
  sample_rate_hz = 48_000;
  bits_per_sample = 16;
  channels = 2;
  data_interval_us = 10_000;
}

abbrev cd_fraction : PcmConfiguration
cd_fraction = record {
  sample_rate_hz = 44_100;
  bits_per_sample = 16;
  channels = 2;
  data_interval_us = 7_500;
}

abbrev pub codec : Lc3Configuration
codec = record {
  sampling_frequency_hz = 48_000;
  frame_duration_us = 10_000;
  octets_per_codec_frame = 100;
  codec_frames_per_sdu = 1;
  audio_channel_allocation = 1;
}

abbrev transparent_path : DataPathConfiguration
transparent_path = record {
  data_path_id = 0;
  transparent = true;
  controller_delay_us = 0;
  codec_configuration = [];
  vendor_configuration = [];
}

abbrev qos : IsoQos
qos = record {
  sdu_interval_us = 10_000;
  framing = unframed;
  phys = le_2m ∷ [];
  max_sdu = 120;
  retransmission_number = 5;
  max_transport_latency_ms = 20;
  presentation_delay_min_us = 20_000;
  presentation_delay_max_us = 40_000;
}

abbrev endpoint : AseConfiguration
endpoint = record {
  ase_id = 1;
  direction = sink;
  cis_handle = none;
  lc3 = codec;
  qos = qos;
  data_path = transparent_path;
}

abbrev bis : ℕ → BisConfiguration
bis i = record { bis_index = i; stream_handle = none; lc3 = codec; data_path = transparent_path }

abbrev subgroup : List BisConfiguration → BroadcastSubgroup
subgroup bs = record { codec = codec; metadata = []; bis = bs }

abbrev broadcast : List BroadcastSubgroup → BroadcastConfiguration
broadcast gs = record {
  broadcast_id = 0x12_3456;
  encrypted = false;
  presentation_delay_us = 40_000;
  pcm = stereo;
  subgroups = gs;
}

abbrev two_subgroups : List BroadcastSubgroup
two_subgroups = subgroup (bis 1 ∷ bis 2 ∷ []) ∷ subgroup (bis 3 ∷ []) ∷ []

abbrev pub unicast : LeAudioConfiguration
unicast = record {
  group_id = pos 0;
  context = media;
  packing = sequential;
  pcm = stereo;
  ases = endpoint ∷ [];
}

bytes_of_stereo : bytes_per_interval stereo ≡ ok 1_920
unfolding bytes_per_interval Pcm.validate
bytes_of_stereo = refl

bytes_of_cd_fraction : bytes_per_interval cd_fraction ≡ err pcm_fraction
unfolding bytes_per_interval Pcm.validate
bytes_of_cd_fraction = refl

duplicate_bis :
    Broadcast.validate (broadcast (subgroup (bis 1 ∷ []) ∷ subgroup (bis 1 ∷ []) ∷ []))
    ≡ err (bis_duplicate 1)
unfolding Broadcast.validate validate_one validate_bis validate_subgroup validate_subgroups
    collect_bis Lc3.validate Lc3.equal Pcm.validate
duplicate_bis = refl

broadcast_accepted : Broadcast.validate (broadcast two_subgroups) ≡ ok tt
unfolding Broadcast.validate validate_one validate_bis validate_subgroup validate_subgroups
    collect_bis Lc3.validate Lc3.equal Pcm.validate
broadcast_accepted = refl

pub unicast_accepted : validate_for (le_audio unicast) le_unicast_software_encoding ≡ ok tt
unfolding validate_for validate_ases Iso.validate validate_qos Lc3.validate Pcm.validate
    is_broadcast
unicast_accepted = refl

bytes_per_interval-exact_example :
    Pcm.IsSupported stereo
    × (1_920 * 8_000_000 ≡ scaled_frames stereo * 2 * 16)
    × (0 < 1_920)
    × (1_920 < 2 ^ 33)
bytes_per_interval-exact_example =
    bytes_per_interval-exact stereo
      (record {
        rate_u32 = omega arith;
        bits_u8 = omega arith;
        channels_u8 = omega arith;
        interval_u32 = omega arith;
      })
      bytes_of_stereo

broadcast_validate_iff_example : IsUsable (broadcast two_subgroups)
broadcast_validate_iff_example =
    (broadcast_validate_iff (broadcast two_subgroups)).0 broadcast_accepted

ase_accepted : Iso.validate endpoint ≡ ok tt
unfolding Iso.validate validate_qos Lc3.validate
ase_accepted = refl

tidy_ase : Iso.IsUsable endpoint
tidy_ase = (ase_validate_iff endpoint).0 ase_accepted

audio_config_checked : Suits (le_audio unicast) le_unicast_software_encoding
audio_config_checked =
    (validate_for_iff (le_audio unicast) le_unicast_software_encoding).0 unicast_accepted
