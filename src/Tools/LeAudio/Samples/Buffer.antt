-- ===== src/Tools/LeAudio/Samples/Buffer.antt =====
-- What `write_sample` of src/bin/floss_le_audio_smoke.rs leaves in its buffer.
use dorsche.Base.{
  ℕ, zero, suc, ◌+◌, ◌*◌, ◌≤◌, ◌≡◌, refl, sym, ap, ap₂, ◌∙◌, true, List, [], ◌∷◌, ◌++◌, some, leb,
  leb_iff, length, drop, length-append, length-drop, take-append, append_assoc, append-nil, ℤ,
  arith,
}
use dorsche.Tools.LeAudio.Samples.{splice, encoded, write_channels}
use dorsche.Tools.LeAudio.Samples.Signed.{length-encoded}

-- A byte string several times.
abbrev pub copies : ℕ → List ℕ → List ℕ
copies zero bytes = []
copies (suc n) bytes = bytes ++ copies n bytes

drop-append : (n : ℕ) (xs ys : List ℕ) → drop (length xs + n) (xs ++ ys) ≡ drop n ys
drop-append n [] ys = let e : 0 + n ≡ n = omega arith in ap (λ k. drop k ys) e
drop-append n (x ∷ xs) ys =
    let e : suc (length xs) + n ≡ suc (length xs + n) = omega arith in
    ap (λ k. drop k (x ∷ (xs ++ ys))) e ∙ drop-append n xs ys

drop-nil : (n : ℕ) → drop {A = ℕ} n [] ≡ []
drop-nil zero = refl
drop-nil (suc n) = refl

pub drop-drop : (m n : ℕ) (xs : List ℕ) → drop m (drop n xs) ≡ drop (n + m) xs
drop-drop m zero xs = let e : m ≡ 0 + m = omega arith in ap (λ k. drop k xs) e
drop-drop m (suc n) [] = drop-nil m ∙ sym (drop-nil (suc n + m))
drop-drop m (suc n) (x ∷ xs) =
    let e : suc (n + m) ≡ suc n + m = omega arith in drop-drop m n xs ∙ ap (λ k. drop k (x ∷ xs)) e

splice_lem :
    (done rest bytes : List ℕ)
    → splice (done ++ rest) (length done) bytes ≡ (done ++ bytes) ++ drop (length bytes) rest
splice_lem done rest bytes =
    ap₂ (λ a b. a ++ (bytes ++ b)) (take-append done rest) (drop-append (length bytes) done rest)
    ∙ sym (append_assoc done bytes (drop (length bytes) rest))

module _ (frame channels width : ℕ) (z : ℤ) (wide : width ≤ 8) where
  -- The channels of a frame stand side by side, and nothing else changes.
  pub write_channels_lem :
      (n channel : ℕ) (done rest : List ℕ)
      → length done ≡ (frame * channels + channel) * width
      → n * width ≤ length rest
      → write_channels frame channels width n z channel (done ++ rest)
        ≡ some ((done ++ copies n (encoded width z)) ++ drop (n * width) rest)
  unfolding write_channels
  write_channels_lem zero channel done rest here room =
      let none_left : 0 * width ≡ 0 = omega arith in
      sym (ap₂ (λ a k. some (a ++ drop k rest)) (append-nil done) none_left)
  write_channels_lem (suc n) channel done rest here room =
      let e = encoded width z in
      let size : length e ≡ width = length-encoded width z wide in
      let more : suc n * width ≡ width + n * width = omega arith in
      let inside : leb (length done + width) (length (done ++ rest)) ≡ true =
        (leb_iff _ _).1 (omega (arith, length-append done rest)) in
      let narrow : leb width 8 ≡ true = (leb_iff width 8).1 wide in
      let later : length (done ++ e) ≡ (frame * channels + suc channel) * width =
        omega (arith, length-append done e) in
      let left : n * width ≤ length (drop (length e) rest) =
        omega (arith, length-drop (length e) rest) in
      let sum : length e + n * width ≡ suc n * width = omega arith in
      let tail = drop-drop (n * width) (length e) rest ∙ ap (λ k. drop k rest) sum in
      rw (← here) (
        rw (inside, narrow, splice_lem done rest e)
          (write_channels_lem n (suc channel) (done ++ e) (drop (length e) rest) later left
            ∙ ap₂ (λ a b. some (a ++ b)) (append_assoc done e (copies n e)) tail))
