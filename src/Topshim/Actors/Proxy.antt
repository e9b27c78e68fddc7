-- ===== src/Topshim/Actors/Proxy.antt =====
-- `run_controller_proxy` of src/topshim/actors.rs: two inboxes and the one owner of the C++ controller. The
-- controller is a parameter with a state of its own; a reply channel is a number. A sender that finds
-- its inbox full waits, so that nothing happens. `else => break` needs the shutdown branch to be disabled,
-- which its pattern never does.
pub mod Served
pub mod Tests
use dorsche.Base.{
  ℕ, Bool, true, false, List, [], ◌∷◌, ◌++◌, Option, none, some, Result, ltb, if◌then◌else◌, length,
}
use dorsche.Topshim.Actors.{Shutdown, shutdown_taken, PlaybackReceipt}

-- `HardwarePlaybackRequest`
pub record PlaybackRequest : Type 0 where
  pub pcm : ℕ
  pub sequence : ℕ
  pub reply : ℕ

-- `CaptureRequest`
pub record CaptureRequest : Type 0 where
  pub reply : ℕ

-- The controller of the C++ core. A frame is a number.
pub record Controller (C : Type 0) : Type 0 where
  pub play_pcm : C → ℕ → ℕ → PlaybackReceipt × C
  pub capture_next : C → Result ℕ × C

-- What enters an inbox, and what is answered.
pub data Entry : Type 0 where
  took_playback : PlaybackRequest → Entry
  took_capture : CaptureRequest → Entry
  played : PlaybackRequest → PlaybackReceipt → Entry
  captured : CaptureRequest → Result ℕ → Entry

-- `log` has the last entry first.
pub record Proxy (C : Type 0) : Type 0 where
  pub controller : C
  pub playback_rx : List PlaybackRequest
  pub capture_rx : List CaptureRequest
  pub log : List Entry
  pub ended : Bool

pub data ProxyEvent : Type 0 where
  sends_playback : PlaybackRequest → ProxyEvent
  sends_capture : CaptureRequest → ProxyEvent
  turn : Shutdown → ProxyEvent

module _ {C : Type 0} where
  -- `request.reply.send(receipt)`
  abbrev pub reply_playback :
      Proxy C → PlaybackRequest → List PlaybackRequest → PlaybackReceipt × C → Proxy C
  reply_playback p request rest (receipt, c) = record p {
    controller = c;
    playback_rx = rest;
    log = played request receipt ∷ p.log;
  }

  abbrev pub reply_capture : Proxy C → CaptureRequest → List CaptureRequest → Result ℕ × C → Proxy C
  reply_capture p request rest (result, c) = record p {
    controller = c;
    capture_rx = rest;
    log = captured request result ∷ p.log;
  }

  abbrev pub capture_branch : Controller C → Proxy C → List CaptureRequest → Proxy C
  capture_branch k p [] = p
  capture_branch k p (request ∷ rest) = reply_capture p request rest (k.capture_next p.controller)

  -- A playback request wins over a capture request.
  abbrev pub playback_branch : Controller C → Proxy C → List PlaybackRequest → Proxy C
  playback_branch k p [] = capture_branch k p p.capture_rx
  playback_branch k p (request ∷ rest) =
      reply_playback p request rest (k.play_pcm p.controller request.pcm request.sequence)

  abbrev pub stop_branch : Proxy C → Option Bool → Proxy C → Proxy C
  stop_branch p none later = later
  stop_branch p (some true) later = record p { ended = true }
  stop_branch p (some false) later = p

  -- What a clone of the handle sends, or a round of the task.
  unfoldable pub proxy_step : Controller C → Proxy C → ProxyEvent → Proxy C
  proxy_step k p (sends_playback request) =
      if ltb (length p.playback_rx) 8
      then record p {
        playback_rx = p.playback_rx ++ (request ∷ []);
        log = took_playback request ∷ p.log;
      }
      else p
  proxy_step k p (sends_capture request) =
      if ltb (length p.capture_rx) 2
      then record p {
        capture_rx = p.capture_rx ++ (request ∷ []);
        log = took_capture request ∷ p.log;
      }
      else p
  proxy_step k p (turn shutdown) =
      stop_branch p (shutdown_taken shutdown) (playback_branch k p p.playback_rx)

  -- The task until it has ended.
  unfoldable pub run_proxy : Controller C → Proxy C → List ProxyEvent → Proxy C
  run_proxy k p [] = p
  run_proxy k p (e ∷ es) =
      let rest = run_proxy k (proxy_step k p e) es in if p.ended then p else rest

  abbrev pub new_proxy : C → Proxy C
  new_proxy c = record {
    controller = c;
    playback_rx = [];
    capture_rx = [];
    log = [];
    ended = false;
  }
