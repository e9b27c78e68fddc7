-- ===== src/Tools/Hfp/Tests.antt =====
-- The hands-free tool on concrete inputs, and the examples of the theorems about it.
use dorsche.Base.{
  bit_and, ◌+◌, ℕ, zero, suc, ◌/◌, subst, ◌*◌, ◌≡◌, ◌↔◌, refl, true, false, List, [], ◌∷◌, ◌++◌,
  Result, ok, err, replicate, All, ◌≤◌, arith, external,
}
use dorsche.Tools.Hfp.{Codec, expected_bit, disabled_codecs, msbc, cvsd}
use dorsche.Tools.Hfp.Delay.{play_back, attenuate, delay_frame, echo_frames}
use dorsche.Tools.Hfp.Delay.Echo.{flat, play_back_delays}
use dorsche.Tools.Hfp.Stats.{
  account_all, account, account_samples, default_stats, check_capture, Silence, IsByte,
}
use dorsche.Tools.Hfp.Stats.Measured.{account-check_capture}
use dorsche.Tools.Hfp.Capture.{
  Event, elapsed, arrived, sent, timed_out, proceeds, finishes, new_capture, capture_step,
  on_elapsed, on_read, send_frame, run_capture,
}
use dorsche.Tools.Hfp.Capture.Recorded.{IsClocked, IsRecorded, Settles, run_capture-Settles}
use dorsche.Tools.Hfp.Call.{
  Answers, Request, start_sco_call, stop_sco_call, set_hfp_active_device,
  get_hfp_audio_final_codecs, connect_sco_uipc, after_attempt, run_main, after_proxy, after_active,
  after_pair, after_answer, after_status, stop_sco,
}
use dorsche.Tools.Hfp.Call.Connecting.{Connects, connect_sco_uipc_iff}
use dorsche.Tools.Hfp.Call.Passing.{Passes, run_main-Passes}

-- The codecs that the call disables are those that it does not want.
wanted_alone :
    (c : Codec)
    → (bit_and (expected_bit c) (disabled_codecs c) ≡ 0) × (expected_bit c + disabled_codecs c ≡ 7)
wanted_alone cvsd = (refl, refl)
wanted_alone msbc = (refl, refl)

abbrev quarter : ℕ → ℕ
quarter n = n / 4

-- Two samples of 1,024 and one odd byte.
abbrev heard : List (List ℕ)
heard = (0 ∷ 4 ∷ 0 ∷ 4 ∷ []) ∷ (7 ∷ []) ∷ []

echoed : play_back quarter 100 0 heard ≡ (0 ∷ 1 ∷ 0 ∷ 1 ∷ []) ∷ (7 ∷ []) ∷ []
unfolding play_back attenuate delay_frame echo_frames
echoed = refl

play_back_delays_example :
    flat (play_back quarter 100 1 heard) ≡ replicate 200 0 ++ (0 ∷ 1 ∷ 0 ∷ 1 ∷ 7 ∷ [])
unfolding attenuate
play_back_delays_example = play_back_delays quarter 100 1 heard (omega arith)

heard_bytes : All (All IsByte) heard
heard_bytes = ground arith

heard_capture_accounted :
    ((account_all heard default_stats).bytes ≡ 5)
    × ((account_all heard default_stats).samples ≡ 2)
    × ((account_all heard default_stats).peak ≤ 32_767)
    × ((check_capture (account_all heard default_stats) ≡ ok tt) ↔ (¬ All Silence heard))
heard_capture_accounted = account-check_capture heard heard_bytes

-- The data socket is there at the third attempt.
abbrev connects : ℕ → Result (Unit {0})
connects zero = err (external 2)
connects (suc zero) = err (external 2)
connects (suc (suc n)) = ok tt

abbrev answers : Answers
answers = record {
  proxy = ok tt;
  active = ok tt;
  start_pair = ok tt;
  start_call = ok true;
  start_status = ok 2;
  final_codecs = ok 2;
  connect = connects;
  clock = λ n. n * 21;
  exchange = ok heard;
  write_capture = ok tt;
  stop_pair = ok tt;
  stop_call = ok tt;
  stop_status = ok 0;
}

abbrev requests : List Request
requests = set_hfp_active_device ∷ start_sco_call ∷ get_hfp_audio_final_codecs ∷ stop_sco_call ∷ []

-- The rounds of the loop are the same with less fuel.
abbrev few : Result (Unit {0})
few = connect_sco_uipc 3 0 answers

connected : few ≡ ok tt
unfolding connect_sco_uipc after_attempt
connected = refl

socket_found : (connect_sco_uipc 150 0 answers ≡ ok tt) ↔ Connects answers 0
socket_found = connect_sco_uipc_iff answers (λ n. omega arith)

-- Without a socket pair there is no stop.
abbrev unpaired : Answers
unpaired = record answers { stop_pair = err (external 24) }

left_connected :
    (run_main cvsd unpaired).1
    ≡ set_hfp_active_device ∷ start_sco_call ∷ get_hfp_audio_final_codecs ∷ []
unfolding run_main after_proxy after_active after_pair after_answer after_status stop_sco
left_connected = refl

read_back : (reads : List (List ℕ)) → answers.exchange ≡ ok reads → heard ≡ reads
read_back reads q = cc

call_is_fine : ((run_main msbc answers).0 ≡ ok tt) ↔ Passes msbc answers
call_is_fine =
    run_main-Passes msbc answers
      (λ reads q. subst (All (All IsByte)) (read_back reads q) heard_bytes)

-- The deadline passes while the second frame is being sent.
abbrev events : List Event
events =
    arrived (0 ∷ 4 ∷ []) 5 sent 6
    ∷ arrived (8 ∷ 0 ∷ []) 9 timed_out 10
    ∷ arrived (1 ∷ 1 ∷ []) 12 sent 12
    ∷ elapsed 30
    ∷ []

events-IsClocked : IsClocked 10 0 events
events-IsClocked = (
  (omega arith, omega arith, λ q. cc),
  (
    (omega arith, omega arith, λ q. omega arith),
    ((omega arith, omega arith, λ q. cc), ((omega arith, omega arith), tt)),
  ),
)

-- The second frame is recorded and not sent, the third is neither.
recorded_twice :
    run_capture 10 30 events (proceeds new_capture)
    ≡ finishes (record {
      sending = false;
      stats = record { bytes = 4; samples = 2; sum_squares = 1_048_640; peak = 1_024 };
      captured_pcm = 0 ∷ 4 ∷ 8 ∷ 0 ∷ [];
      frames = (0 ∷ 4 ∷ []) ∷ [];
    })
unfolding capture_step on_elapsed on_read send_frame account account_samples
recorded_twice = refl

run_capture-Settles_example :
    Settles IsRecorded IsRecorded (run_capture 10 30 events (proceeds new_capture))
run_capture-Settles_example = run_capture-Settles 10 30 events events-IsClocked
