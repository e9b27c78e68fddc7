-- ===== src/Tools/A2dp/Tests.antt =====
-- src/bin/floss_audio_smoke.rs on concrete answers, and the example of the theorem about it.
use dorsche.Base.{◌≡◌, refl, true, false, [], ◌∷◌, ok, err, external}
use dorsche.Tools.A2dp.{
  start_audio_request, stop_audio_request, set_audio_config, set_volume, Meets, stop_audio, feed,
  check_start, after_accept, start_audio, configure_audio, after_prior_status, after_prior_stop,
  stop_existing_stream, run_a2dp,
}
use dorsche.Tools.A2dp.Cleanup.{unstopped, unstopped-run_a2dp}

abbrev clean : Meets
clean = record {
  proxy = ok tt;
  active = ok tt;
  prior_started = ok true;
  prior_pair = ok tt;
  prior_stop = ok tt;
  prior_status = ok 0;
  prior_idle = ok tt;
  config = ok true;
  idle = ok tt;
  volume = ok tt;
  start_pair = ok tt;
  start = ok true;
  start_status = ok 1;
  started = ok true;
  connected = ok tt;
  fed = ok tt;
  stop_pair = ok tt;
  stop = ok tt;
  stop_status = ok 0;
}

-- The data socket breaks.
abbrev broken : Meets
broken = record clean { fed = err (external 32) }

played : run_a2dp clean ≡ (
  ok tt,
  stop_audio_request true
      ∷ set_audio_config
      ∷ set_volume
      ∷ start_audio_request true
      ∷ stop_audio_request true
      ∷ [],
)
unfolding run_a2dp stop_existing_stream after_prior_stop after_prior_status configure_audio
    start_audio after_accept check_start feed stop_audio
played = refl

left_unstopped : run_a2dp broken ≡ (
  err (external 32),
  stop_audio_request true ∷ set_audio_config ∷ set_volume ∷ start_audio_request true ∷ [],
)
unfolding run_a2dp stop_existing_stream after_prior_stop after_prior_status configure_audio
    start_audio after_accept check_start feed
left_unstopped = refl

unstopped-run_a2dp_example :
    (unstopped false (run_a2dp broken).1 ≡ true)
    × ((run_a2dp broken).0 ≡ ok tt → unstopped false (run_a2dp broken).1 ≡ false)
unfolding run_a2dp stop_existing_stream after_prior_stop after_prior_status configure_audio
    start_audio after_accept check_start feed
unstopped-run_a2dp_example = unstopped-run_a2dp broken false refl
