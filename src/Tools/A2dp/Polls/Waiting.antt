-- ===== src/Tools/A2dp/Polls/Waiting.antt =====
-- `wait_for_audio_state` of src/bin/floss_audio_smoke.rs.
use dorsche.Base.{
  ℕ, zero, suc, ◌+◌, ◌*◌, ◌≤◌, ◌<◌, ◌≡◌, ◌⊎◌, inl, inr, refl, sym, ap, ◌∙◌, Bool, true, false, not,
  Option, none, some, Error, Result, ok, err, leb, leb_iff, Bool-cases, arith, state_timeout,
}
use dorsche.Tools.A2dp.Polls.{Looks, same, after_look, wait_for_audio_state}

-- Each question is answered at least 20 ms after the one before.
abbrev pub IsPaced : Looks → Type 0
IsPaced e = (n : ℕ) → e.clock n + 20 ≤ e.clock (suc n)

-- Before this answer, Floss has given the other one each time, and before the deadline.
abbrev pub IsAwaited : Bool → Looks → ℕ → ℕ → Type 0
IsAwaited expected e n k =
    (j : ℕ) → n ≤ j → j < k → (e.started j ≡ ok (not expected)) × (e.clock j < 3_000)

-- How the loop may end at answer `k`: as wanted, with an error of D-Bus, or past the deadline.
abbrev pub Ends : Bool → Looks → ℕ → Result (Unit {0}) → Type 0
Ends expected e k r =
    ((r ≡ ok tt) × (e.started k ≡ ok expected))
    ⊎ (((x : Error) × (r ≡ err x) × (e.started k ≡ err x))
        ⊎ ((r ≡ err state_timeout) × (e.started k ≡ ok (not expected)) × (3_000 ≤ e.clock k)))

abbrev pub Comes : Bool → Looks → ℕ → Option (Result (Unit {0})) → Type 0
Comes expected e n none = ⊥
Comes expected e n (some r) = (k : ℕ) × (n ≤ k) × IsAwaited expected e n k × Ends expected e k r

IsPaced-le : (e : Looks) → IsPaced e → (n : ℕ) → n * 20 ≤ e.clock n
IsPaced-le e h zero = omega arith
IsPaced-le e h (suc n) = omega (arith, h n, IsPaced-le e h n)

same-true : (b c : Bool) → same b c ≡ true → b ≡ c
same-true true c h = sym h
same-true false true h = cc
same-true false false h = refl

same-false : (b c : Bool) → same b c ≡ false → b ≡ not c
same-false true true h = cc
same-false true false h = refl
same-false false true h = refl
same-false false false h = cc

module _ (expected : Bool) (e : Looks) where
  at_once : (n : ℕ) (r : Result (Unit {0})) → Ends expected e n r → Comes expected e n (some r)
  at_once n r h = (n, omega arith, λ j a b. absurd (omega arith), h)

  later_Comes :
      (n : ℕ) (r : Option (Result (Unit {0})))
      → e.started n ≡ ok (not expected)
      → e.clock n < 3_000
      → Comes expected e (suc n) r
      → Comes expected e n r
  later_Comes n none s c h = h
  later_Comes n (some r) s c (k, a, before, ends) = (
    k,
    omega arith,
    λ j b l. elim (first j b) [ inl q ↦ rw (← q) (s, c) | inr less ↦ before j less l ],
    ends,
  )
    where
      first : (j : ℕ) → n ≤ j → (n ≡ j) ⊎ (suc n ≤ j)
      first j b = ground arith

  after_look-Comes :
      (n : ℕ) (rest : Option (Result (Unit {0}))) (r : Result Bool)
      → e.started n ≡ r
      → (e.clock n < 3_000 → Comes expected e (suc n) rest)
      → Comes expected e n (after_look expected n e rest r)
  unfolding after_look
  after_look-Comes n rest (err x) q later = at_once n (err x) (inr (inl (x, refl, q)))
  after_look-Comes n rest (ok b) q later = elim (Bool-cases (same b expected)) [
    | inl s ↦ rw s (at_once n (ok tt) (inl (refl, q ∙ ap ok (same-true b expected s))))
    | inr d ↦
        let other = q ∙ ap ok (same-false b expected d) in
        elim (Bool-cases (leb 3_000 (e.clock n))) [
          | inl l ↦
              rw (d, l)
                (at_once n (err state_timeout)
                  (inr (inr (refl, other, (leb_iff 3_000 (e.clock n)).0 l))))
          | inr early ↦
              let c : e.clock n < 3_000 = ground arith in
              rw (d, early) (later_Comes n rest other c (later c))
        ]
  ]

  wait_from :
      (fuel n : ℕ)
      → IsPaced e
      → 151 ≤ n + fuel
      → n ≤ 150
      → Comes expected e n (wait_for_audio_state fuel n expected e)
  unfolding wait_for_audio_state
  wait_from zero n h f m = absurd (omega arith)
  wait_from (suc fuel) n h f m =
      after_look-Comes n (wait_for_audio_state fuel (suc n) expected e) (e.started n) refl
        (λ c. wait_from fuel (suc n) h (omega arith) (omega (arith, IsPaced-le e h n)))

-- With at least 20 ms from one answer to the next, 151 questions are enough: `wait_for_audio_state` ends
-- at some answer, all before which were the other one and in time, and it ends well if that answer
-- is the expected one, with the error of D-Bus, or past the three seconds with a timeout.
pub wait_for_audio_state-Comes :
    (expected : Bool) (e : Looks)
    → IsPaced e
    → Comes expected e 0 (wait_for_audio_state 151 0 expected e)
wait_for_audio_state-Comes expected e h = wait_from expected e 151 0 h (omega arith) (omega arith)
