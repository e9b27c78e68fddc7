-- ===== src/Wireless/Types/Kinds.antt =====
-- The enums of src/wireless/types.rs.
use dorsche.Base.{ℕ, ◌≡◌, ◌↔◌, Bool, true, false, not, ◌==◌, arith}

pub data SessionType : Type 0 where
  le_unicast_software_encoding le_unicast_software_decoding : SessionType
  le_unicast_hardware_encoding le_unicast_hardware_decoding : SessionType
  le_broadcast_software_encoding le_broadcast_hardware_encoding : SessionType

-- `#[repr(u8)]`; the derived `PartialEq` compares these.
abbrev pub session_type_code : SessionType → ℕ
session_type_code le_unicast_software_encoding = 1
session_type_code le_unicast_software_decoding = 2
session_type_code le_unicast_hardware_encoding = 3
session_type_code le_unicast_hardware_decoding = 4
session_type_code le_broadcast_software_encoding = 5
session_type_code le_broadcast_hardware_encoding = 6

unfoldable pub same_session_type : SessionType → SessionType → Bool
same_session_type t u = session_type_code t == session_type_code u

pub same_session_type_iff : (t u : SessionType) → (same_session_type t u ≡ true) ↔ (t ≡ u)
unfolding same_session_type
same_session_type_iff t u = ((λ h. ground arith), (λ h. ground arith))

unfoldable pub is_offloaded : SessionType → Bool
is_offloaded le_unicast_hardware_encoding = true
is_offloaded le_unicast_hardware_decoding = true
is_offloaded le_broadcast_hardware_encoding = true
is_offloaded _ = false

unfoldable pub carries_host_payload : SessionType → Bool
unfolding is_offloaded
carries_host_payload session_type = not (is_offloaded session_type)

-- The `matches!` on the two broadcast session types.
unfoldable pub is_broadcast : SessionType → Bool
is_broadcast le_broadcast_software_encoding = true
is_broadcast le_broadcast_hardware_encoding = true
is_broadcast _ = false

pub data StreamDirection : Type 0 where
  sink source : StreamDirection

pub data AudioContext : Type 0 where
  unspecified conversational media game live : AudioContext
  sound_effects notifications emergency_alarm : AudioContext

pub data Framing : Type 0 where
  unframed framed : Framing

pub data Phy : Type 0 where
  le_1m le_2m le_coded : Phy

pub data Packing : Type 0 where
  sequential interleaved : Packing

pub data PayloadKind : Type 0 where
  pcm lc3_sdu : PayloadKind

-- `kind as u8`
abbrev pub payload_kind_code : PayloadKind → ℕ
payload_kind_code pcm = 1
payload_kind_code lc3_sdu = 2

pub data IsoStatus : Type 0 where
  valid possibly_invalid lost late : IsoStatus

-- `status as u8`
abbrev pub iso_status_code : IsoStatus → ℕ
iso_status_code valid = 0
iso_status_code possibly_invalid = 1
iso_status_code lost = 2
iso_status_code late = 3
