-- ===== src/Wireless/Types/Broadcast.antt =====
-- `BroadcastConfiguration` of src/wireless/types.rs. The two nested loops of `validate` are
-- `validate_bis` and `validate_subgroups`; the array `seen_bis` goes through them.
pub mod Seen
pub mod Indices
use dorsche.Base.{
  ℕ, ◌<◌, ◌≤◌, ◌≡◌, Bool, true, false, not, ◌&&◌, List, [], ◌∷◌, Option, Result, ok, ◌>>◌, ◌>>=◌,
  ensure, is_empty, ltb, leb, get_or, set, replicate, broadcast_id_range, broadcast_delay,
  no_subgroup, no_bis, bis_range, bis_codec, bis_duplicate,
}
use dorsche.Wireless.Types.Pcm
use dorsche.Wireless.Types.Pcm.{PcmConfiguration}
use dorsche.Wireless.Types.Lc3
use dorsche.Wireless.Types.Lc3.{Lc3Configuration}
use dorsche.Wireless.Types.Iso.{DataPathConfiguration}

pub record BisConfiguration : Type 0 where
  pub bis_index : ℕ
  pub stream_handle : Option ℕ
  pub lc3 : Lc3Configuration
  pub data_path : DataPathConfiguration

pub record BroadcastSubgroup : Type 0 where
  pub codec : Lc3Configuration
  pub metadata : List ℕ
  pub bis : List BisConfiguration

pub record BroadcastConfiguration : Type 0 where
  pub broadcast_id : ℕ
  pub encrypted : Bool
  pub presentation_delay_us : ℕ
  pub pcm : PcmConfiguration
  pub subgroups : List BroadcastSubgroup

-- The body of the inner loop: the new `seen_bis`, or the error.
unfoldable pub validate_one : Lc3Configuration → BisConfiguration → List Bool → Result (List Bool)
validate_one codec b seen = do
  ensure (leb 1 b.bis_index && leb b.bis_index 31) bis_range
  ensure (not (get_or seen b.bis_index false)) (bis_duplicate b.bis_index)
  Lc3.validate b.lc3
  ensure (Lc3.equal b.lc3 codec) bis_codec
  ok (set seen b.bis_index true)

unfoldable pub validate_bis :
    Lc3Configuration → List BisConfiguration → List Bool → Result (List Bool)
validate_bis codec [] seen = ok seen
validate_bis codec (b ∷ bs) seen = validate_one codec b seen >>= validate_bis codec bs

unfoldable pub validate_subgroup : BroadcastSubgroup → List Bool → Result (List Bool)
validate_subgroup g seen = do
  Lc3.validate g.codec
  ensure (not (is_empty g.bis)) no_bis
  validate_bis g.codec g.bis seen

unfoldable pub validate_subgroups : List BroadcastSubgroup → List Bool → Result (List Bool)
validate_subgroups [] seen = ok seen
validate_subgroups (g ∷ gs) seen = validate_subgroup g seen >>= validate_subgroups gs

-- The loops from the fresh array on.
unfoldable pub collect_bis : List BroadcastSubgroup → Result (List Bool)
collect_bis gs = validate_subgroups gs (replicate 32 false)

unfoldable pub validate : BroadcastConfiguration → Result (Unit {0})
validate b = do
  ensure (leb b.broadcast_id 0x00ff_ffff) broadcast_id_range
  ensure (ltb 0 b.presentation_delay_us) broadcast_delay
  Pcm.validate b.pcm
  ensure (not (is_empty b.subgroups)) no_subgroup
  seen ← collect_bis b.subgroups
  ok tt
