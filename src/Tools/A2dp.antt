-- ===== src/Tools/A2dp.antt =====
-- src/bin/floss_audio_smoke.rs: `main` after its arguments. What D-Bus and the sockets answer is a record; so
-- is what `write_pcm_file` or `write_test_tone` (Feed) and the wait for the state (Polls) come to.
pub mod Cleanup
pub mod Feed
pub mod Polls
pub mod Tests
use dorsche.Base.{
  ℕ, Bool, true, false, List, [], ◌∷◌, ◌++◌, Error, Result, ok, err, is_ok, ◌>>◌, ensure, ◌==◌,
  ◌&&◌, if◌then◌else◌, config_rejected, audio_rejected, start_failed, bad_prior_stop,
}

-- The requests that change the stream, a start with whether Floss accepts it, a stop with whether the
-- request succeeds.
pub data Asked : Type 0 where
  start_audio_request stop_audio_request : Bool → Asked
  set_audio_config set_volume : Asked

-- `prior_` is what `stop_existing_stream` meets; `idle` and `prior_idle` are its wait and the later
-- one for a stopped stream.
pub record Meets : Type 0 where
  pub proxy : Result (Unit {0})
  pub active : Result (Unit {0})
  pub prior_started : Result Bool
  pub prior_pair : Result (Unit {0})
  pub prior_stop : Result (Unit {0})
  pub prior_status : Result ℕ
  pub prior_idle : Result (Unit {0})
  pub config : Result Bool
  pub idle : Result (Unit {0})
  pub volume : Result (Unit {0})
  pub start_pair : Result (Unit {0})
  pub start : Result Bool
  pub start_status : Result ℕ
  pub started : Result Bool
  pub connected : Result (Unit {0})
  pub fed : Result (Unit {0})
  pub stop_pair : Result (Unit {0})
  pub stop : Result (Unit {0})
  pub stop_status : Result ℕ

-- `?` on an answer, before what else is done and asked.
abbrev pub try_then {ℓ} :
    {A : Type ℓ} → Result A → (A → Result (Unit {0}) × List Asked) → Result (Unit {0}) × List Asked
try_then (err e) next = (err e, [])
try_then (ok a) next = next a

abbrev pub asking : Asked → Result (Unit {0}) × List Asked → Result (Unit {0}) × List Asked
asking a (r, log) = (r, a ∷ log)

-- From the second socket pair on. The status is only printed.
unfoldable pub stop_audio : Meets → Result (Unit {0}) × List Asked
stop_audio e = try_then e.stop_pair (λ _.
    asking (stop_audio_request (is_ok e.stop))
      (try_then e.stop (λ _. try_then e.stop_status (λ status. (ok tt, [])))))

-- From the data socket on.
unfoldable pub feed : Meets → Result (Unit {0}) × List Asked
feed e = try_then e.connected (λ _. try_then e.fed (λ _. stop_audio e))

-- The test of the start: the second question is asked only after a good status.
unfoldable pub check_start : Meets → ℕ → Result (Unit {0}) × List Asked
check_start e status =
    if status == 1
    then try_then e.started (λ on. if on then feed e else (err start_failed, []))
    else (err start_failed, [])

unfoldable pub after_accept : Meets → Bool → Result (Unit {0}) × List Asked
after_accept e false = (err audio_rejected, [])
after_accept e true = try_then e.start_status (λ status. check_start e status)

-- What the request to start answers.
unfoldable pub start_audio : Meets → Result Bool → Result (Unit {0}) × List Asked
start_audio e (err x) = (err x, start_audio_request false ∷ [])
start_audio e (ok accepted) = asking (start_audio_request accepted) (after_accept e accepted)

-- From the configuration on.
unfoldable pub configure_audio : Meets → Result (Unit {0}) × List Asked
configure_audio e = asking set_audio_config (
    try_then e.config (λ accepted.
      if accepted
      then try_then e.idle (λ _.
        asking set_volume
          (try_then e.volume (λ _. try_then e.start_pair (λ _. start_audio e e.start))))
      else (err config_rejected, [])))

-- The end of `stop_existing_stream`, and what follows it.
unfoldable pub after_prior_status : Meets → ℕ → Result (Unit {0}) × List Asked
after_prior_status e status =
    if status == 0 then try_then e.prior_idle (λ _. configure_audio e) else (err bad_prior_stop, [])

unfoldable pub after_prior_stop : Meets → Result (Unit {0}) × List Asked
after_prior_stop e =
    try_then e.prior_stop (λ _. try_then e.prior_status (λ status. after_prior_status e status))

-- `stop_existing_stream`, by whether a stream runs.
unfoldable pub stop_existing_stream : Meets → Bool → Result (Unit {0}) × List Asked
stop_existing_stream e false = configure_audio e
stop_existing_stream e true =
    try_then e.prior_pair
      (λ _. asking (stop_audio_request (is_ok e.prior_stop)) (after_prior_stop e))

unfoldable pub run_a2dp : Meets → Result (Unit {0}) × List Asked
run_a2dp e =
    try_then e.proxy
      (λ _. try_then e.active (λ _. try_then e.prior_started (λ on. stop_existing_stream e on)))
