-- ===== src/Tools/Hfp/Capture.antt =====
-- The capture half of `exercise_loopback` in src/bin/floss_hfp_smoke.rs, an event of its loop at a
-- time. An instant is a number. A failed read ends the loop with its error and is not an event.
pub mod Recorded
use dorsche.Base.{ℕ, Bool, true, false, List, [], ◌∷◌, ◌++◌, ltb, leb, ◌&&◌, if◌then◌else◌}
use dorsche.Tools.Hfp.Stats.{CaptureStats, default_stats, account}

-- How the inner `select!` ends: the frame is sent, the deadline passes first, the receiver is gone.
pub data Sending : Type 0 where
  sent timed_out closed : Sending

-- `elapsed now`: the deadline of the phase has passed. `arrived pcm now sending after`: a read returns
-- at `now`, and if its frame is to be sent, that ends at `after`.
pub data Event : Type 0 where
  elapsed : ℕ → Event
  arrived : List ℕ → ℕ → Sending → ℕ → Event

-- `sending` is `tx.is_some()`, `frames` is what was sent.
pub record Capture : Type 0 where
  pub sending : Bool
  pub stats : CaptureStats
  pub captured_pcm : List ℕ
  pub frames : List (List ℕ)

abbrev pub new_capture : Capture
new_capture = record { sending = true; stats = default_stats; captured_pcm = []; frames = [] }

-- The loop goes on, is left, or has panicked at its `expect`.
pub data Progress : Type 0 where
  proceeds finishes : Capture → Progress
  panics : Progress

unfoldable pub on_elapsed : ℕ → ℕ → Capture → Progress
on_elapsed capture_deadline drain_deadline s =
    let phase_deadline = if s.sending then capture_deadline else drain_deadline in
    if s.sending && ltb phase_deadline drain_deadline
    then proceeds (record s { sending = false })
    else finishes (record s { sending = false })

-- A recorded frame is sent, if there is a sender.
unfoldable pub send_frame : List ℕ → Sending → Bool → Capture → Progress
send_frame pcm r false s = panics
send_frame pcm sent true s = proceeds (record s { frames = s.frames ++ (pcm ∷ []) })
send_frame pcm timed_out true s = proceeds (record s { sending = false })
send_frame pcm closed true s = finishes s

abbrev pub recorded : List ℕ → Capture → Capture
recorded pcm s = record s { stats = account pcm s.stats; captured_pcm = s.captured_pcm ++ pcm }

unfoldable pub on_read : ℕ → List ℕ → ℕ → Sending → Capture → Progress
on_read capture_deadline [] now r s = finishes s
on_read capture_deadline (x ∷ pcm) now r s =
    if leb capture_deadline now
    then proceeds (record s { sending = false })
    else send_frame (x ∷ pcm) r s.sending (recorded (x ∷ pcm) s)

unfoldable pub capture_step : ℕ → ℕ → Event → Capture → Progress
capture_step capture_deadline drain_deadline (elapsed now) s =
    on_elapsed capture_deadline drain_deadline s
capture_step capture_deadline drain_deadline (arrived pcm now r after) s =
    on_read capture_deadline pcm now r s

-- A loop that was left takes no more events.
abbrev pub resume : ℕ → ℕ → Event → Progress → Progress
resume c d e (proceeds s) = capture_step c d e s
resume c d e (finishes s) = finishes s
resume c d e panics = panics

abbrev pub run_capture : ℕ → ℕ → List Event → Progress → Progress
run_capture c d [] p = p
run_capture c d (e ∷ es) p = run_capture c d es (resume c d e p)
