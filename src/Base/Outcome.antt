-- ===== src/Base/Outcome.antt =====
-- Results of fallible code: `anyhow::Result`, with a constructor of `Error` for each message.
use Prim.Native.Nat.{ℕ}
use mathlib.Core.Path.{◌≡◌, refl}
use mathlib.Core.Logic.{◌↔◌, ◌⊎◌, inl, inr}
use mathlib.Core.Bool.{Bool, true, false}

-- The messages of `ensure!`, `bail!`, `anyhow!` and `context`, by the file that raises them.
pub data Error : Type 0 where
  -- wireless/types.rs
  pcm_rate pcm_width pcm_channels pcm_interval pcm_overflow pcm_fraction pcm_convert : Error
  lc3_rate lc3_duration lc3_empty sdu_empty : Error
  sdu_interval no_phy max_sdu_zero delay_range : Error
  ase_zero sdu_too_large transparent_codec : Error
  broadcast_id_range broadcast_delay no_subgroup no_bis bis_range bis_codec : Error
  bis_duplicate : ℕ → Error
  offload_needs_le unicast_in_broadcast group_negative no_ase broadcast_needs_session : Error
  -- wireless/session.rs
  session_stopped reply_dropped cannot_configure no_configuration cannot_start : Error
  cannot_suspend cannot_stop update_outside_streaming clock_backwards octets_backwards : Error
  offload_octets consumer_stopped : Error
  -- wireless/provider.rs
  no_provider no_fallback : Error
  -- wireless/data_plane.rs
  two_slots capacity_zero slot_overflow ring_overflow stride_abi : Error
  payload_too_large payload_abi frame_abi frame_size frame_length : Error
  ring_magic ring_abi ring_header ring_slots ring_alignment ring_length mmap_alignment : Error
  -- wireless/floss.rs
  no_direction source_rejected sink_rejected host_rejected peer_rejected : Error
  start_timeout pcm_missing stream_taken : Error
  -- topshim/frame.rs
  null_frame pcm_length_overflow invalid_buffer invalid_fence short_mapping unaligned_mapping :
      Error
  -- bin/floss_hfp_smoke.rs
  sco_rejected wrong_codec no_microphone_pcm silent_microphone_pcm bad_stop_status : Error
  -- topshim/actors.rs
  proxy_stopped capture_reply_dropped playback_reply_dropped : Error
  -- bin/dorsche_pipewire.rs
  no_pcm non_pcm_frame peer_overrun : Error
  -- wireless/pipewire.rs
  stride_overflow stride_zero : Error
  -- bin/floss_le_audio_smoke.rs
  capture_overrun frame_invisible pcm_width_unsupported : Error
  -- the argument parsers of bin
  missing_value unknown_argument unknown_direction unknown_mode unknown_codec : Error
  group_missing direction_missing address_missing not_positive volume_range : Error
  gain_range frequency_missing delay_range_exceeded delay_without_loopback : Error
  -- bin/floss_audio_smoke.rs
  pcm_file_invalid state_timeout config_rejected audio_rejected start_failed bad_prior_stop : Error
  -- the message of an operating system or D-Bus failure
  external : ℕ → Error

pub data Result {ℓ} (A : Type ℓ) : Type ℓ where
  ok : A → Result A
  err : Error → Result A

-- `ensure!(test, message)`
abbrev pub ensure : Bool → Error → Result (Unit {0})
ensure true e = ok tt
ensure false e = err e

abbrev pub is_ok {ℓ} : {A : Type ℓ} → Result A → Bool
is_ok (ok a) = true
is_ok (err e) = false

-- The `?` operator: an error leaves the function.
infixl 5 ◌>>◌ ◌>>=◌
abbrev pub ◌>>=◌ {ℓ₁ ℓ₂} :
    {From : Type ℓ₁} {To : Type ℓ₂} → Result From → (From → Result To) → Result To
err x >>= next = err x
ok v >>= next = next v

abbrev pub ◌>>◌ {ℓ₁} : {To : Type ℓ₁} → Result (Unit {0}) → Result To → Result To
check >> later = check >>= (λ _. later)

-- A chain of checks passes exactly when each of them does.
pub ensure-then_iff :
    (b : Bool) (e : Error) (rest : Result (Unit {0}))
    → ((ensure b e >> rest) ≡ ok tt) ↔ ((b ≡ true) × (rest ≡ ok tt))
ensure-then_iff true e rest = ((λ h. (refl, h)), (λ h. h.1))
ensure-then_iff false e rest = ((λ h. cc), (λ h. cc))

pub then_iff : (m rest : Result (Unit {0})) → ((m >> rest) ≡ ok tt) ↔ ((m ≡ ok tt) × (rest ≡ ok tt))
then_iff (ok tt) rest = ((λ h. (refl, h)), (λ h. h.1))
then_iff (err e) rest = ((λ h. cc), (λ h. cc))

-- What a chain that succeeds has passed through.
pub bind_passed {ℓ₁ ℓ₂} :
    {From : Type ℓ₁} {To : Type ℓ₂} {w : To} (r : Result From) (next : From → Result To)
    → (r >>= next) ≡ ok w
    → (v : From) × (r ≡ ok v) × (next v ≡ ok w)
bind_passed (err x) next e = cc
bind_passed (ok v) next e = (v, refl, e)

-- To split on a computed result and keep the equation.
pub Result-cases {ℓ} :
    {A : Type ℓ} (r : Result A) → ((a : A) × (r ≡ ok a)) ⊎ ((e : Error) × (r ≡ err e))
Result-cases (ok a) = inl (a, refl)
Result-cases (err e) = inr (e, refl)
