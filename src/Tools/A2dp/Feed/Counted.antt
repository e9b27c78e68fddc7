-- ===== src/Tools/A2dp/Feed/Counted.antt =====
-- Counting the writes before the first error, over two stretches of writes.
use dorsche.Base.{
  ℕ, zero, suc, ◌+◌, ◌≤◌, ◌≡◌, ◌⊎◌, inl, inr, refl, ap, ◌∙◌, Error, Result, ok, err, ◌>>◌,
  Result-cases, arith,
}
use dorsche.Tools.LeAudio.Tone.Played.{intervals_written, first_error}

refused : {x : Error} → ◌≡◌ {A = Result (Unit {0})} (err x) (ok tt) → ⊥
refused q = cc

module _ (written : ℕ → Result (Unit {0})) where
  -- All of the writes succeed, or fewer do and there is an error.
  pub counted :
      (n i : ℕ)
      → ((first_error written n i ≡ ok tt) × (intervals_written written n i ≡ n))
        ⊎ ((e : Error) × (first_error written n i ≡ err e)
            × (suc (intervals_written written n i) ≤ n))
  counted zero i = inl (refl, refl)
  counted (suc n) i = elim (Result-cases (written i)) [
    | inl (done, e) ↦ elim (counted n (suc i)) [
      | inl (f, k) ↦ inl (rw (e, first_error) f, rw (e, intervals_written) (ap suc k))
      | inr (x, f, k) ↦ inr (x, rw (e, first_error) f, rw (e, intervals_written) (omega (arith, k)))
    ]
    | inr (x, e) ↦ inr (x, rw (e, first_error) refl, rw (e, intervals_written) (omega arith))
  ]

  pub first_error-add :
      (a b i : ℕ)
      → first_error written (a + b) i ≡ (first_error written a i >> first_error written b (i + a))
  first_error-add zero b i =
      let n : 0 + b ≡ b = omega arith in
      let j : i ≡ i + 0 = omega arith in
      ap (λ k. first_error written k i) n ∙ ap (first_error written b) j
  first_error-add (suc a) b i =
      let n : suc a + b ≡ suc (a + b) = omega arith in
      let j : suc i + a ≡ i + suc a = omega arith in
      ap (λ k. first_error written k i) n ∙ elim (Result-cases (written i)) [
        | inl (done, e) ↦
            rw (e, first_error)
              (first_error-add a b (suc i)
                ∙ ap (λ k. first_error written a (suc i) >> first_error written b k) j)
        | inr (x, e) ↦ rw (e, first_error) refl
      ]

  pub intervals_written-add :
      (a b i : ℕ)
      → first_error written a i ≡ ok tt
      → intervals_written written (a + b) i ≡ a + intervals_written written b (i + a)
  intervals_written-add zero b i h =
      let n : 0 + b ≡ b = omega arith in
      let j : i ≡ i + 0 = omega arith in
      let back : (k : ℕ) → k ≡ 0 + k = λ k. omega arith in
      ap (λ k. intervals_written written k i) n ∙ ap (intervals_written written b) j ∙ back _
  intervals_written-add (suc a) b i h =
      let n : suc a + b ≡ suc (a + b) = omega arith in
      let j : suc i + a ≡ i + suc a = omega arith in
      let up : (k : ℕ) → suc (a + k) ≡ suc a + k = λ k. omega arith in
      ap (λ k. intervals_written written k i) n ∙ elim (Result-cases (written i)) [
        | inl (done, e) ↦
            rw (e, intervals_written)
              (ap suc (
                  intervals_written-add a b (suc i) (rw (e, first_error) at h)
                  ∙ ap (λ k. a + intervals_written written b k) j)
                ∙ up _)
        | inr (x, e) ↦ absurd (refused (rw (e, first_error) at h))
      ]

  pub intervals_written-cut :
      (a b i : ℕ) (x : Error)
      → first_error written a i ≡ err x
      → intervals_written written (a + b) i ≡ intervals_written written a i
  intervals_written-cut zero b i x h = cc
  intervals_written-cut (suc a) b i x h =
      let n : suc a + b ≡ suc (a + b) = omega arith in
      ap (λ k. intervals_written written k i) n ∙ elim (Result-cases (written i)) [
        | inl (done, e) ↦
            rw (e, intervals_written)
              (ap suc (intervals_written-cut a b (suc i) x (rw (e, first_error) at h)))
        | inr (y, e) ↦ rw (e, intervals_written) refl
      ]
