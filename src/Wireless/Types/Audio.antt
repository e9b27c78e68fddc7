-- ===== src/Wireless/Types/Audio.antt =====
-- `AudioConfiguration` of src/wireless/types.rs: what a session may be configured with.
use dorsche.Base.{
  ◌≡◌, ◌≢◌, ◌↔◌, refl, true, false, not, List, [], ◌∷◌, Result, ok, ◌>>◌, ensure, is_empty, ℤ,
  is_nonneg, All, arith, offload_needs_le, unicast_in_broadcast, group_negative, no_ase,
  broadcast_needs_session,
}
use dorsche.Wireless.Types.Kinds.{SessionType, is_offloaded, is_broadcast, AudioContext, Packing}
use dorsche.Wireless.Types.Pcm
use dorsche.Wireless.Types.Pcm.{PcmConfiguration}
use dorsche.Wireless.Types.Iso
use dorsche.Wireless.Types.Iso.{AseConfiguration}
use dorsche.Wireless.Types.Broadcast
use dorsche.Wireless.Types.Broadcast.{BroadcastConfiguration}
use dorsche.Wireless.Types.Broadcast.Indices

pub record LeAudioConfiguration : Type 0 where
  pub group_id : ℤ
  pub context : AudioContext
  pub packing : Packing
  pub pcm : PcmConfiguration
  pub ases : List AseConfiguration

pub data AudioConfiguration : Type 0 where
  pcm : PcmConfiguration → AudioConfiguration
  le_audio : LeAudioConfiguration → AudioConfiguration
  le_broadcast : BroadcastConfiguration → AudioConfiguration

-- `for ase in &le.ases { ase.validate()?; }`
unfoldable pub validate_ases : List AseConfiguration → Result (Unit {0})
validate_ases [] = ok tt
validate_ases (a ∷ rest) = Iso.validate a >> validate_ases rest

unfoldable pub validate_for : AudioConfiguration → SessionType → Result (Unit {0})
validate_for (pcm c) session_type = do
  Pcm.validate c
  ensure (not (is_offloaded session_type)) offload_needs_le
  ok tt
validate_for (le_audio le) session_type = do
  ensure (not (is_broadcast session_type)) unicast_in_broadcast
  ensure (is_nonneg le.group_id) group_negative
  Pcm.validate le.pcm
  ensure (not (is_empty le.ases)) no_ase
  validate_ases le.ases
  ok tt
validate_for (le_broadcast b) session_type = do
  ensure (is_broadcast session_type) broadcast_needs_session
  Broadcast.validate b
  ok tt

-- What a session of a type can be configured with.
pub record IsUnicast (le : LeAudioConfiguration) : Type 0 where
  pub group : is_nonneg le.group_id ≡ true
  pub pcm : Pcm.IsSupported le.pcm
  pub some_ase : le.ases ≢ []
  pub all_ases : All Iso.IsUsable le.ases

abbrev pub Suits : AudioConfiguration → SessionType → Type 0
Suits (pcm c) t = (is_offloaded t ≡ false) × Pcm.IsSupported c
Suits (le_audio le) t = (is_broadcast t ≡ false) × IsUnicast le
Suits (le_broadcast b) t = (is_broadcast t ≡ true) × Broadcast.Indices.IsUsable b

validate_ases_iff :
    (ases : List AseConfiguration) → (validate_ases ases ≡ ok tt) ↔ All Iso.IsUsable ases
unfolding validate_ases
validate_ases_iff [] = ((λ h. tt), (λ h. refl))
validate_ases_iff (a ∷ rest) = (
  (λ h. ground (arith, Iso.ase_validate_iff a, validate_ases_iff rest)),
  (λ h. ground (arith, Iso.ase_validate_iff a, validate_ases_iff rest)),
)

-- `validate_for` accepts exactly what suits the session type: supported PCM alone on a session that
-- is not offloaded, a unicast configuration (a group, supported PCM, at least one endpoint, all of
-- them usable) on a session that is not a broadcast, a usable broadcast configuration on one that is.
pub validate_for_iff :
    (c : AudioConfiguration) (t : SessionType) → (validate_for c t ≡ ok tt) ↔ Suits c t
unfolding validate_for
validate_for_iff (pcm c) t =
    ((λ h. ground (arith, Pcm.validate_iff c)), (λ h. ground (arith, (Pcm.validate_iff c).1 h.1)))
validate_for_iff (le_audio le) t = (
  (λ h. ground (arith, Pcm.validate_iff le.pcm, validate_ases_iff le.ases)),
  (λ h. ground (
    arith,
    (Pcm.validate_iff le.pcm).1 h.1.pcm,
    (validate_ases_iff le.ases).1 h.1.all_ases,
    h.1.some_ase,
    h.1.group,
  )),
)
validate_for_iff (le_broadcast b) t = (
  (λ h. ground (arith, Broadcast.Indices.broadcast_validate_iff b)),
  (λ h. ground (arith, (Broadcast.Indices.broadcast_validate_iff b).1 h.1)),
)
