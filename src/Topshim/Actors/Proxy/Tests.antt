-- ===== src/Topshim/Actors/Proxy/Tests.antt =====
-- The controller proxy of src/topshim/actors.rs on a concrete controller.
use dorsche.Base.{ℕ, ◌+◌, ◌*◌, ◌≡◌, refl, true, List, [], ◌∷◌, ok}
use dorsche.Topshim.Actors.{unchanged, changed}
use dorsche.Topshim.Actors.Proxy.{
  PlaybackRequest, CaptureRequest, Controller, took_playback, took_capture, played, captured,
  ProxyEvent, sends_playback, sends_capture, turn, proxy_step, run_proxy, new_proxy,
}
use dorsche.Topshim.Actors.Proxy.Served.{IsServed, run_proxy-IsServed}

-- Counts its calls; each takes 10 ms.
abbrev counting : Controller ℕ
counting = record {
  play_pcm = λ n pcm sequence.
      (record { sequence = sequence; presentation_time_ns = n * 10_000_000 }, n + 1);
  capture_next = λ n. (ok n, n + 1);
}

abbrev speech : PlaybackRequest
speech = record { pcm = 4_096; sequence = 7; reply = 2 }

abbrev listening : CaptureRequest
listening = record { reply = 1 }

-- The capture is asked for first, and served last.
abbrev both_ask : List ProxyEvent
both_ask =
    sends_capture listening
    ∷ sends_playback speech
    ∷ turn unchanged
    ∷ turn unchanged
    ∷ turn (changed true)
    ∷ turn unchanged
    ∷ []

playback_wins :
    (run_proxy counting (new_proxy 0) both_ask).log
    ≡ captured listening (ok 1)
      ∷ played speech (record { sequence = 7; presentation_time_ns = 0 })
      ∷ took_playback speech
      ∷ took_capture listening
      ∷ []
unfolding run_proxy proxy_step
playback_wins = refl

run_proxy-IsServed_example : IsServed (run_proxy counting (new_proxy 0) both_ask)
run_proxy-IsServed_example = run_proxy-IsServed counting 0 both_ask
