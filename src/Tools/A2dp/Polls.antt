-- ===== src/Tools/A2dp/Polls.antt =====
-- The polling loop `wait_for_audio_state` of src/bin/floss_audio_smoke.rs. An instant is a number of
-- milliseconds from the start of the loop.
pub mod Waiting
pub mod Tests
use dorsche.Base.{
  ℕ, zero, suc, Bool, true, false, Option, none, some, Error, Result, ok, err, leb, if◌then◌else◌,
  state_timeout,
}

-- The answer to the question with this number, and the time right after it.
pub record Looks : Type 0 where
  pub started : ℕ → Result Bool
  pub clock : ℕ → ℕ

abbrev pub same : Bool → Bool → Bool
same true b = b
same false true = false
same false false = true

-- What follows question `n`, where `rest` is the result of the questions after it.
unfoldable pub after_look :
    Bool → ℕ → Looks → Option (Result (Unit {0})) → Result Bool → Option (Result (Unit {0}))
after_look expected n e rest (err x) = some (err x)
after_look expected n e rest (ok b) =
    if same b expected
    then some (ok tt)
    else if leb 3_000 (e.clock n)
    then some (err state_timeout)
    else rest

-- `wait_for_audio_state` from question `n` on; `none` is out of fuel.
unfoldable pub wait_for_audio_state : ℕ → ℕ → Bool → Looks → Option (Result (Unit {0}))
wait_for_audio_state zero n expected e = none
wait_for_audio_state (suc fuel) n expected e =
    let rest = wait_for_audio_state fuel (suc n) expected e in
    after_look expected n e rest (e.started n)
