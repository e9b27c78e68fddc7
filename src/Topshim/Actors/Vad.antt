-- ===== src/Topshim/Actors/Vad.antt =====
-- `run_vad_ai` of src/topshim/actors.rs, a round of its loop at a time. Whether the residual of a frame
-- against an echo is speech is a test on floats, here a parameter `speaks`.
use dorsche.Base.{ℕ, ◌-◌, ◌&&◌, Bool, true, false, not, leb, if◌then◌else◌, Option, none, some}
use dorsche.Topshim.Actors.{Inbox, message, waiting, gone, Shutdown, shutdown_taken, EchoReference}

-- What the actor reads of an `AudioFrame` besides its samples.
pub record Microphone : Type 0 where
  pub frame_sequence : ℕ
  pub capture_time_ns : ℕ

pub record Vad : Type 0 where
  pub latest_echo : Option EchoReference
  pub speech_active : Bool

abbrev pub new_vad : Vad
new_vad = record { latest_echo = none; speech_active = false }

pub record Listening : Type 0 where
  pub shutdown : Shutdown
  pub echo : Inbox EchoReference
  pub microphone : Inbox Microphone

-- The branch that the biased `select!` takes, or none while it waits.
pub data Heed : Type 0 where
  heeds_shutdown : Bool → Heed
  heeds_echo : EchoReference → Heed
  heeds_frame : Microphone → Heed
  heeds_nothing : Heed

abbrev pub frame_heed : Inbox Microphone → Heed
frame_heed (message frame) = heeds_frame frame
frame_heed waiting = heeds_nothing
frame_heed gone = heeds_nothing

abbrev pub echo_heed : Inbox EchoReference → Heed → Heed
echo_heed (message echo) later = heeds_echo echo
echo_heed waiting later = later
echo_heed gone later = later

abbrev pub shutdown_heed : Option Bool → Heed → Heed
shutdown_heed (some stop) later = heeds_shutdown stop
shutdown_heed none later = later

unfoldable pub select_vad : Listening → Heed
select_vad r =
    shutdown_heed (shutdown_taken r.shutdown) (echo_heed r.echo (frame_heed r.microphone))

abbrev pub abs_diff : ℕ → ℕ → ℕ
abs_diff a b = if leb a b then b - a else a - b

-- The echo that was to be heard within 50 ms of the frame.
unfoldable pub aligned : Microphone → Option EchoReference → Option EchoReference
aligned frame none = none
aligned frame (some echo) =
    if leb (abs_diff frame.capture_time_ns echo.presentation_time_ns) 50_000_000
    then some echo
    else none

abbrev pub has_some : Option EchoReference → Bool
has_some none = false
has_some (some echo) = true

-- The body of the microphone branch: the actor after it, and whether it sends a `BargeIn`.
unfoldable pub hear : (Microphone → Option EchoReference → Bool) → Microphone → Vad → Vad × Bool
hear speaks frame v =
    let aligned_echo = aligned frame v.latest_echo in
    let speaking = speaks frame aligned_echo in
    (
      record v { speech_active = speaking },
      speaking && (not v.speech_active && has_some aligned_echo),
    )
