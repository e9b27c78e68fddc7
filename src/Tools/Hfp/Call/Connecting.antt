-- ===== src/Tools/Hfp/Call/Connecting.antt =====
-- `connect_sco_uipc` of src/bin/floss_hfp_smoke.rs.
use dorsche.Base.{
  ℕ, zero, suc, ◌+◌, ◌*◌, ◌≤◌, ◌<◌, ◌≡◌, ◌↔◌, ◌⊎◌, inl, inr, refl, false, Result, ok, err, ltb,
  ltb_iff, Bool-cases, arith,
}
use dorsche.Tools.Hfp.Call.{Answers, after_attempt, connect_sco_uipc}

-- Each attempt ends at least 20 ms after the one before.
abbrev pub IsPaced : Answers → Type 0
IsPaced e = (n : ℕ) → e.clock n + 20 ≤ e.clock (suc n)

-- An attempt that succeeds, after failures that all came before the deadline.
abbrev pub Connects : Answers → ℕ → Type 0
Connects e n =
    (k : ℕ) × (n ≤ k) × (e.connect k ≡ ok tt) × ((j : ℕ) → n ≤ j → j < k → e.clock j < 3_000)

IsPaced-le : (e : Answers) → IsPaced e → (n : ℕ) → n * 20 ≤ e.clock n
IsPaced-le e h zero = omega arith
IsPaced-le e h (suc n) = omega (arith, h n, IsPaced-le e h n)

after_attempt-Connects :
    (n : ℕ) (e : Answers) (rest r : Result (Unit {0}))
    → e.connect n ≡ r
    → (rest ≡ ok tt) ↔ Connects e (suc n)
    → (after_attempt n e rest r ≡ ok tt) ↔ Connects e n
unfolding after_attempt
after_attempt-Connects n e rest (ok stream) q later =
    ((λ c. (n, omega arith, q, λ j a b. absurd (omega arith))), (λ c. refl))
after_attempt-Connects n e rest (err x) q later = elim (Bool-cases (ltb (e.clock n) 3_000)) [
  | inl early ↦ rw early (
    (λ c.
        let (k, a, d, before) = later.0 c in
        (
          k,
          omega arith,
          d,
          λ j b l. elim (first b) [
            | inl same ↦ rw (← same) ((ltb_iff (e.clock n) 3_000).0 early)
            | inr less ↦ before j (omega arith) l
          ],
        )),
    (λ (k, a, d, before). elim (first a) [
      | inl same ↦ cc
      | inr less ↦ later.1 (k, omega arith, d, λ j b l. before j (omega arith) l)
    ]),
  )
  | inr late ↦ rw late (
    (λ c. cc),
    (λ (k, a, d, before). elim (first a) [
      | inl same ↦ cc
      | inr less ↦ absurd (ltb_false late (before n (omega arith) less))
    ]),
  )
]
  where
    first : {j : ℕ} → n ≤ j → (n ≡ j) ⊎ (n < j)
    first a = ground arith

    ltb_false : ltb (e.clock n) 3_000 ≡ false → e.clock n < 3_000 → ⊥
    ltb_false l b = ground arith

connect_from :
    (fuel n : ℕ) (e : Answers)
    → IsPaced e
    → 150 ≤ n + fuel
    → (connect_sco_uipc fuel n e ≡ ok tt) ↔ Connects e n
unfolding connect_sco_uipc
connect_from zero n e h f = (
  (λ c. (n, omega arith, c, λ j a b. absurd (omega arith))),
  (λ (k, a, c, before). elim (first a) [
    | inl same ↦ rw same c
    | inr less ↦ absurd (omega (arith, before n (omega arith) less, IsPaced-le e h n))
  ]),
)
  where
    first : {k : ℕ} → n ≤ k → (n ≡ k) ⊎ (n < k)
    first a = ground arith
connect_from (suc fuel) n e h f =
    after_attempt-Connects n e (connect_sco_uipc fuel (suc n) e) (e.connect n) refl
      (connect_from fuel (suc n) e h (omega arith))

-- The fuel of 150 repetitions is enough: with at least 20 ms from one attempt to the next,
-- `connect_sco_uipc` returns a stream exactly when some attempt succeeds and all attempts before it
-- end within the three seconds.
pub connect_sco_uipc_iff :
    (e : Answers) → IsPaced e → (connect_sco_uipc 150 0 e ≡ ok tt) ↔ Connects e 0
connect_sco_uipc_iff e h = connect_from 150 0 e h (omega arith)
