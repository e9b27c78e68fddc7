-- ===== src/Topshim/Actors/Microphone.antt =====
-- `run_microphone_capture` of src/topshim/actors.rs on `SharedPcmFrame::from_cpp`, by the branches that its
-- `select!` takes. The two lists of descriptors are those of `from_cpp`; a frame that cannot be sent is
-- dropped, and its buffer closed.
pub mod Ledger
pub mod Tests
use dorsche.Base.{
  ℕ, Bool, true, false, List, [], ◌∷◌, ◌++◌, Option, none, some, Result, ok, err, ℤ, if◌then◌else◌,
  is_ok, proxy_stopped, capture_reply_dropped,
}
use dorsche.Topshim.Frame.{HardwareFrame, SharedPcmFrame, Kernel, Handover, from_cpp}

-- What becomes of a request for a frame.
pub record Captured : Type 0 where
  pub is_taken : Bool
  pub reply : Option (Result HardwareFrame)

abbrev pub capture_reply : Option (Result HardwareFrame) → Result HardwareFrame
capture_reply none = err capture_reply_dropped
capture_reply (some (err message)) = err message
capture_reply (some (ok raw)) = ok raw

-- `ProxyHandle::capture`
unfoldable pub proxy_capture : Captured → Result HardwareFrame
proxy_capture c = if c.is_taken then capture_reply c.reply else err proxy_stopped

-- A round of the clock, with what the proxy, the kernel and the channel of frames answer.
pub record Tick : Type 0 where
  pub captured : Captured
  pub kernel : Kernel
  pub is_sent : Bool

-- The branch that is taken: the shutdown, with the value that is read, or the clock.
pub data MicEvent : Type 0 where
  stops : Bool → MicEvent
  ticks : Tick → MicEvent

-- `hangs` waits for a fence for ever.
pub data MicState : Type 0 where
  runs hangs : MicState
  ends : Result (Unit {0}) → MicState

pub record CaptureTask : Type 0 where
  pub sent : List SharedPcmFrame
  pub taken : List ℤ
  pub closed : List ℤ
  pub state : MicState

abbrev pub new_microphone : CaptureTask
new_microphone = record { sent = []; taken = []; closed = []; state = runs }

-- `frame_tx.send`
abbrev pub send_downstream : Bool → SharedPcmFrame → CaptureTask → CaptureTask
send_downstream true frame m = record m { sent = frame ∷ m.sent }
send_downstream false frame m = record m { closed = frame.buffer ∷ m.closed; state = ends (ok tt) }

abbrev pub after_result : Bool → Result SharedPcmFrame → CaptureTask → CaptureTask
after_result is_sent (err e) m = record m { state = ends (err e) }
after_result is_sent (ok frame) m = send_downstream is_sent frame m

abbrev pub after_handover : Bool → Option Handover → CaptureTask → CaptureTask
after_handover is_sent none m = record m { state = hangs }
after_handover is_sent (some h) m =
    after_result is_sent h.result
      (record m { taken = h.taken ++ m.taken; closed = h.closed ++ m.closed })

abbrev pub after_capture : Tick → Result HardwareFrame → CaptureTask → CaptureTask
after_capture t (err e) m = record m { state = ends (err e) }
after_capture t (ok raw) m = after_handover t.is_sent (from_cpp t.kernel raw) m

unfoldable pub mic_step : MicEvent → CaptureTask → CaptureTask
mic_step (stops true) m = record m { state = ends (ok tt) }
mic_step (stops false) m = m
mic_step (ticks t) m = after_capture t (proxy_capture t.captured) m

abbrev pub is_running : MicState → Bool
is_running runs = true
is_running hangs = false
is_running (ends r) = false

-- The task, while it runs.
unfoldable pub run_microphone : List MicEvent → CaptureTask → CaptureTask
run_microphone [] m = m
run_microphone (e ∷ es) m =
    let rest = run_microphone es (mic_step e m) in if is_running m.state then rest else m
