-- ===== src/Tools/A2dp/Cleanup.antt =====
-- What src/bin/floss_audio_smoke.rs leaves requested at Floss.
use dorsche.Base.{
  ℕ, Bool-cases, inl, inr, config_rejected, bad_prior_stop, ◌≡◌, ◌∙◌, ap, Bool, true, false, not,
  List, [], ◌∷◌, any, Error, Result, ok, err, is_ok, ◌==◌, ◌&&◌, ◌||◌, if◌then◌else◌, arith,
}
use dorsche.Tools.A2dp.{
  Asked, start_audio_request, stop_audio_request, set_volume, Meets, try_then, asking, stop_audio,
  feed, check_start, after_accept, start_audio, configure_audio, after_prior_status,
  after_prior_stop, stop_existing_stream, run_a2dp,
}

-- Whether a start that Floss has accepted is left without a stop request that succeeds; `on` says so before
-- the requests. Whether the stream then runs is for Floss to say.
abbrev pub unstopped : Bool → List Asked → Bool
unstopped on [] = on
unstopped on (start_audio_request accepted ∷ log) = unstopped (accepted || on) log
unstopped on (stop_audio_request succeeds ∷ log) = unstopped (on && not succeeds) log
unstopped on (a ∷ log) = unstopped on log

abbrev pub has : Result Bool → Bool
has (ok b) = b
has (err e) = false

abbrev pub has_status : ℕ → Result ℕ → Bool
has_status n (ok m) = m == n
has_status n (err e) = false

-- Everything succeeds from the accepted start through the request to stop.
abbrev pub stops_well : Meets → Bool
stops_well e =
    is_ok e.start_status
    && (has_status 1 e.start_status
        && (has e.started
            && (is_ok e.connected && (is_ok e.fed && (is_ok e.stop_pair && is_ok e.stop)))))

abbrev pub is_accepted_start : Asked → Bool
is_accepted_start (start_audio_request accepted) = accepted
is_accepted_start a = false

-- What a run of `main`, with its result, has done to the stream.
abbrev Leaves : Meets → Result (Unit {0}) × List Asked → Type 0
Leaves e (r, log) =
    ((on : Bool) → any is_accepted_start log ≡ true → unstopped on log ≡ not (stops_well e))
    × (r ≡ ok tt → (any is_accepted_start log ≡ true) × (stops_well e ≡ true))

feed-unstopped :
    (e : Meets)
    → let (r, log) = feed e in
      (unstopped true log
        ≡ not (is_ok e.connected && (is_ok e.fed && (is_ok e.stop_pair && is_ok e.stop))))
      × (r ≡ ok tt
          → is_ok e.connected && (is_ok e.fed && (is_ok e.stop_pair && is_ok e.stop)) ≡ true)
unfolding feed stop_audio
feed-unstopped e = ground arith

module _ (e : Meets) where
  failed-Leaves : (x : Error) → Leaves e (err x, [])
  failed-Leaves x = ((λ on h. cc), (λ h. cc))

  try_then-Leaves :
      {A : Type 0} (a : Result A) (next : A → Result (Unit {0}) × List Asked)
      → ((v : A) → Leaves e (next v))
      → Leaves e (try_then a next)
  try_then-Leaves (err x) next h = failed-Leaves x
  try_then-Leaves (ok v) next h = h v

  start_audio-Leaves : (r : Result Bool) → Leaves e (start_audio e r)
  unfolding start_audio after_accept check_start
  start_audio-Leaves (err x) = ((λ on h. cc), (λ h. cc))
  start_audio-Leaves (ok false) = ((λ on h. cc), (λ h. cc))
  start_audio-Leaves (ok true) =
      ((λ on h. ground (arith, feed-unstopped e)), (λ h. ground (arith, feed-unstopped e)))

  configure_audio-Leaves : Leaves e (configure_audio e)
  unfolding configure_audio
  configure_audio-Leaves = try_then-Leaves e.config _ configured
    where
      configured :
          (accepted : Bool)
          → Leaves e (
              if accepted
              then try_then e.idle (λ _.
                asking set_volume
                  (try_then e.volume (λ _. try_then e.start_pair (λ _. start_audio e e.start))))
              else (err config_rejected, []))
      configured true = try_then-Leaves e.idle _ (λ _.
          try_then-Leaves e.volume _
            (λ _. try_then-Leaves e.start_pair _ (λ _. start_audio-Leaves e.start)))
      configured false = failed-Leaves config_rejected

  after_prior_status-Leaves : (status : ℕ) → Leaves e (after_prior_status e status)
  unfolding after_prior_status
  after_prior_status-Leaves status = elim (Bool-cases (status == 0)) [
    | inl good ↦ rw good (try_then-Leaves e.prior_idle _ (λ _. configure_audio-Leaves))
    | inr bad ↦ rw bad (failed-Leaves bad_prior_stop)
  ]

  after_prior_stop-Leaves : Leaves e (after_prior_stop e)
  unfolding after_prior_stop
  after_prior_stop-Leaves =
      try_then-Leaves e.prior_stop _
        (λ _. try_then-Leaves e.prior_status _ (λ status. after_prior_status-Leaves status))

  prior-Leaves : (on : Bool) → Leaves e (stop_existing_stream e on)
  unfolding stop_existing_stream
  prior-Leaves false = configure_audio-Leaves
  prior-Leaves true = try_then-Leaves e.prior_pair _ (λ _. (
    (λ on h. after_prior_stop-Leaves.0 (on && not (is_ok e.prior_stop)) h),
    after_prior_stop-Leaves.1,
  ))

run_a2dp-Leaves : (e : Meets) → Leaves e (run_a2dp e)
unfolding run_a2dp
run_a2dp-Leaves e = try_then-Leaves e e.proxy _ (λ _.
    try_then-Leaves e e.active _
      (λ _. try_then-Leaves e e.prior_started _ (λ on. prior-Leaves e on)))

-- If Floss accepts a start of `main`, then whatever was requested before, the run leaves the start without a
-- successful stop request exactly if something fails up to that request: the status, which has to be 1, the
-- question whether the stream has started, the data socket, the feeding, the socket pair or the request itself.
-- A run that succeeds leaves it so in no case.
pub unstopped-run_a2dp :
    (e : Meets) (on : Bool)
    → any is_accepted_start (run_a2dp e).1 ≡ true
    → (unstopped on (run_a2dp e).1 ≡ not (stops_well e))
      × ((run_a2dp e).0 ≡ ok tt → unstopped on (run_a2dp e).1 ≡ false)
unstopped-run_a2dp e on h =
    let left = (run_a2dp-Leaves e).0 on h in
    (left, (λ good. left ∙ ap not ((run_a2dp-Leaves e).1 good).1))
