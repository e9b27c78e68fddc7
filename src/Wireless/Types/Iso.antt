-- ===== src/Wireless/Types/Iso.antt =====
-- `IsoQos`, `DataPathConfiguration` and `AseConfiguration` of src/wireless/types.rs.
use dorsche.Base.{
  ℕ, ◌*◌, ◌<◌, ◌≤◌, ◌≡◌, ◌≢◌, ◌↔◌, Bool, true, not, List, [], Option, Result, ok, ◌>>◌, ensure,
  is_empty, ltb, leb, ◌==◌, if◌then◌else◌, arith, sdu_interval, no_phy, max_sdu_zero, delay_range,
  ase_zero, sdu_too_large, transparent_codec,
}
use dorsche.Wireless.Types.Kinds.{StreamDirection, Framing, Phy}
use dorsche.Wireless.Types.Lc3
use dorsche.Wireless.Types.Lc3.{Lc3Configuration}

pub record IsoQos : Type 0 where
  pub sdu_interval_us : ℕ
  pub framing : Framing
  pub phys : List Phy
  pub max_sdu : ℕ
  pub retransmission_number : ℕ
  pub max_transport_latency_ms : ℕ
  pub presentation_delay_min_us : ℕ
  pub presentation_delay_max_us : ℕ

unfoldable pub validate_qos : IsoQos → Result (Unit {0})
validate_qos q = do
  ensure (ltb 0 q.sdu_interval_us) sdu_interval
  ensure (not (is_empty q.phys)) no_phy
  ensure (ltb 0 q.max_sdu) max_sdu_zero
  ensure (leb q.presentation_delay_min_us q.presentation_delay_max_us) delay_range
  ok tt

pub record DataPathConfiguration : Type 0 where
  pub data_path_id : ℕ
  pub transparent : Bool
  pub controller_delay_us : ℕ
  pub codec_configuration : List ℕ
  pub vendor_configuration : List ℕ

pub record AseConfiguration : Type 0 where
  pub ase_id : ℕ
  pub direction : StreamDirection
  pub cis_handle : Option ℕ
  pub lc3 : Lc3Configuration
  pub qos : IsoQos
  pub data_path : DataPathConfiguration

-- A `u16` times a `u8` stays below 2^32, so the `u32` product does not wrap.
unfoldable pub validate : AseConfiguration → Result (Unit {0})
validate a = do
  ensure (not (a.ase_id == 0)) ase_zero
  Lc3.validate a.lc3
  validate_qos a.qos
  ensure (leb (a.lc3.octets_per_codec_frame * a.lc3.codec_frames_per_sdu) a.qos.max_sdu)
      sdu_too_large
  if a.data_path.transparent
      then ensure (is_empty a.data_path.codec_configuration) transparent_codec
      else ok tt
  ok tt

pub record IsUsableQos (q : IsoQos) : Type 0 where
  pub interval : 0 < q.sdu_interval_us
  pub some_phy : q.phys ≢ []
  pub max_sdu : 0 < q.max_sdu
  pub delays : q.presentation_delay_min_us ≤ q.presentation_delay_max_us

pub record IsUsable (a : AseConfiguration) : Type 0 where
  pub id : a.ase_id ≢ 0
  pub codec : Lc3.IsSupported a.lc3
  pub qos : IsUsableQos a.qos
  pub fits : a.lc3.octets_per_codec_frame * a.lc3.codec_frames_per_sdu ≤ a.qos.max_sdu
  pub transparent : a.data_path.transparent ≡ true → a.data_path.codec_configuration ≡ []

pub validate_qos_iff : (q : IsoQos) → (validate_qos q ≡ ok tt) ↔ IsUsableQos q
unfolding validate_qos
validate_qos_iff q = ((λ h. ground arith), (λ h. ground arith))

-- `AseConfiguration::validate` accepts exactly the usable endpoints: an id, a supported codec, a
-- usable quality of service, codec frames that fit the largest SDU, and no controller codec
-- configuration on a transparent path.
pub ase_validate_iff : (a : AseConfiguration) → (validate a ≡ ok tt) ↔ IsUsable a
unfolding validate
ase_validate_iff a = (
  (λ h. ground (arith, Lc3.validate_iff a.lc3, validate_qos_iff a.qos)),
  (λ h. ground (arith, Lc3.validate_iff a.lc3, validate_qos_iff a.qos)),
)
