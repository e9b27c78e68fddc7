-- ===== src/Tools/A2dp/Polls/Tests.antt =====
-- The wait of src/bin/floss_audio_smoke.rs on a concrete stream.
use dorsche.Base.{ℕ, zero, suc, ◌*◌, ◌≡◌, refl, Bool, true, false, some, ok, arith}
use dorsche.Tools.A2dp.Polls.{Looks, after_look, wait_for_audio_state}
use dorsche.Tools.A2dp.Polls.Waiting.{Comes, wait_for_audio_state-Comes}

-- The stream stops with the third question, and later starts again.
abbrev stopping : ℕ → Bool
stopping zero = true
stopping (suc zero) = true
stopping (suc (suc zero)) = false
stopping (suc (suc (suc n))) = true

abbrev quick : Looks
quick = record { started = λ n. ok (stopping n); clock = λ n. n * 25 }

stopped_in_time : wait_for_audio_state 151 0 false quick ≡ some (ok tt)
unfolding wait_for_audio_state after_look
stopped_in_time = refl

quick_stream_in_time : Comes false quick 0 (wait_for_audio_state 151 0 false quick)
quick_stream_in_time = wait_for_audio_state-Comes false quick (λ n. omega arith)
