-- ===== src/Tools/Hfp/Call.antt =====
-- The call of src/bin/floss_hfp_smoke.rs: `main` with its test body and its clean-up, and the polling
-- loop of `connect_sco_uipc`. What the rest of the system answers is a record. An instant is a number
-- of milliseconds from the start of the loop.
pub mod Cleanup
pub mod Passing
pub mod Connecting
use dorsche.Base.{
  ℕ, zero, suc, ◌+◌, Bool, true, false, List, [], ◌∷◌, ◌++◌, ltb, ◌==◌, ◌&&◌, if◌then◌else◌, Result,
  ok, err, Error, ensure, ◌>>◌, ◌>>=◌, sco_rejected, wrong_codec, bad_stop_status, is_ok,
}
use dorsche.Tools.Hfp.{Codec, expected_bit}
use dorsche.Tools.Hfp.Stats.{account_all, default_stats, check_capture}

pub data Request : Type 0 where
  set_hfp_active_device start_sco_call get_hfp_audio_final_codecs stop_sco_call : Request

-- `connect` and `clock` are the outcome of an attempt to connect and the time right after it, by its
-- number; `exchange` has the reads of the microphone in a transfer that came to its end in time;
-- `write_capture` is well if no file is wanted.
pub record Answers : Type 0 where
  pub proxy : Result (Unit {0})
  pub active : Result (Unit {0})
  pub start_pair : Result (Unit {0})
  pub start_call : Result Bool
  pub start_status : Result ℕ
  pub final_codecs : Result ℕ
  pub connect : ℕ → Result (Unit {0})
  pub clock : ℕ → ℕ
  pub exchange : Result (List (List ℕ))
  pub write_capture : Result (Unit {0})
  pub stop_pair : Result (Unit {0})
  pub stop_call : Result (Unit {0})
  pub stop_status : Result ℕ

-- What follows attempt `n`, where `rest` is the result of the attempts after it.
unfoldable pub after_attempt :
    ℕ → Answers → Result (Unit {0}) → Result (Unit {0}) → Result (Unit {0})
after_attempt n e rest (ok stream) = ok stream
after_attempt n e rest (err x) = if ltb (e.clock n) 3_000 then rest else err x

-- `connect_sco_uipc` from attempt `n` on, with at most `fuel` repetitions.
unfoldable pub connect_sco_uipc : ℕ → ℕ → Answers → Result (Unit {0})
connect_sco_uipc zero n e = e.connect n
connect_sco_uipc (suc fuel) n e =
    let rest = connect_sco_uipc fuel (suc n) e in after_attempt n e rest (e.connect n)

-- What `main` does from a connected call to the end of the test body.
unfoldable pub exchange_pcm : Answers → Result (Unit {0})
exchange_pcm e =
    e.exchange >>= (λ reads. check_capture (account_all reads default_stats) >> e.write_capture)

-- The test body, with the requests to Floss in it. `reported` and `codec` are the two codec bits.
unfoldable pub after_codecs : Codec → Answers → ℕ → Result ℕ → Result (Unit {0})
after_codecs wanted e codec (err x) = err x
after_codecs wanted e codec (ok reported) =
    ensure (codec == expected_bit wanted && reported == expected_bit wanted) wrong_codec
    >> (connect_sco_uipc 150 0 e >> exchange_pcm e)

unfoldable pub after_status : Codec → Answers → Result ℕ → Result (Unit {0}) × List Request
after_status wanted e (err x) = (err x, [])
after_status wanted e (ok codec) =
    (after_codecs wanted e codec e.final_codecs, get_hfp_audio_final_codecs ∷ [])

-- `stop_sco`
unfoldable pub stop_sco : Answers → Result (Unit {0}) → Result ℕ × List Request
stop_sco e (err x) = (err x, [])
stop_sco e (ok pair) = ((e.stop_call >>= (λ _. e.stop_status)), stop_sco_call ∷ [])

-- The last `match` of `main`. An added context does not change the error.
unfoldable pub finish : Result (Unit {0}) → Result ℕ → Result (Unit {0})
finish (ok done) (ok status) = ensure (status == 0) bad_stop_status
finish (ok done) (err x) = err x
finish (err x) stopped = err x

-- `main` from the answer to StartScoCall on.
unfoldable pub after_answer : Codec → Answers → Result Bool → Result (Unit {0}) × List Request
after_answer wanted e (err x) = (err x, [])
after_answer wanted e (ok false) = (err sco_rejected, [])
after_answer wanted e (ok true) =
    let (tested, during) = after_status wanted e e.start_status in
    let (stopped, after) = stop_sco e e.stop_pair in (finish tested stopped, during ++ after)

unfoldable pub after_pair : Codec → Answers → Result (Unit {0}) → Result (Unit {0}) × List Request
after_pair wanted e (err x) = (err x, [])
after_pair wanted e (ok pair) =
    let (result, later) = after_answer wanted e e.start_call in (result, start_sco_call ∷ later)

unfoldable pub after_active : Codec → Answers → Result (Unit {0}) → Result (Unit {0}) × List Request
after_active wanted e (err x) = (err x, [])
after_active wanted e (ok active) = after_pair wanted e e.start_pair

-- `main` after its arguments.
unfoldable pub after_proxy : Codec → Answers → Result (Unit {0}) → Result (Unit {0}) × List Request
after_proxy wanted e (err x) = (err x, [])
after_proxy wanted e (ok proxy) =
    let (result, later) = after_active wanted e e.active in (result, set_hfp_active_device ∷ later)

unfoldable pub run_main : Codec → Answers → Result (Unit {0}) × List Request
run_main wanted e = after_proxy wanted e e.proxy
