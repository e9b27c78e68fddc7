-- ===== src/Base/Bits.antt =====
-- Conjunction with a mask that clears the low bits of a machine word, and with zero.
use Prim.Native.Nat.{
  ℕ, zero, suc, ◌+◌, ◌-◌, ◌*◌, ◌/◌, ◌^◌, ◌<◌, ◌≤◌, min, bit_and, digits, bit_and-bitwise,
}
use mathlib.Core.Path.{◌≡◌, refl, ◌∙◌}
use native.Mathlib.Nat.{pow-suc}
use native.Mathlib.Omega.{arith}

-- `bit_and`, with the number of digits to look at.
abbrev and_up_to : ℕ → ℕ → ℕ → ℕ
and_up_to n a b = digits (λ _. zero) min n a b

bit_and-and_up_to : (a b : ℕ) → bit_and a b ≡ and_up_to a a b
bit_and-and_up_to a b = bit_and-bitwise a b

and_up_to-zero : (n a : ℕ) → and_up_to n a 0 ≡ 0
and_up_to-zero zero a = refl
and_up_to-zero (suc n) zero = refl
and_up_to-zero (suc n) (suc a) = omega (arith, and_up_to-zero n (suc a / 2))

pub bit_and-zero : (a : ℕ) → bit_and a 0 ≡ 0
bit_and-zero a = bit_and-and_up_to a 0 ∙ and_up_to-zero a a

-- `k` ones above `j` zeros, and the least number that does not fit.
abbrev mask : ℕ → ℕ → ℕ
mask zero zero = 0
mask zero (suc k) = mask zero k * 2 + 1
mask (suc j) k = mask j k * 2

abbrev bound : ℕ → ℕ → ℕ
bound zero k = 2 ^ k
bound (suc j) k = bound j k * 2

-- A number with its `j` low bits cleared.
abbrev clear : ℕ → ℕ → ℕ
clear zero a = a
clear (suc j) a = clear j (a / 2) * 2

clear-zero : (j : ℕ) → clear j 0 ≡ 0
clear-zero zero = refl
clear-zero (suc j) = omega (arith, clear-zero j)

and_up_to-ones : (k n a : ℕ) → a ≤ n → a < 2 ^ k → and_up_to n a (mask 0 k) ≡ a
and_up_to-ones k zero zero h f = refl
and_up_to-ones k zero (suc a) h f = absurd (omega arith)
and_up_to-ones k (suc n) zero h f = refl
and_up_to-ones zero (suc n) (suc a) h f = absurd (omega arith)
and_up_to-ones (suc k) (suc n) (suc a) h f =
    let half : (mask 0 k * 2 + 1) / 2 ≡ mask 0 k = omega arith in
    rw half
      (omega (arith, and_up_to-ones k n (suc a / 2) (omega arith) (omega (arith, pow-suc 2 k))))

and_up_to-mask : (j k n a : ℕ) → a ≤ n → a < bound j k → and_up_to n a (mask j k) ≡ clear j a
and_up_to-mask zero k n a h f = and_up_to-ones k n a h f
and_up_to-mask (suc j) k zero zero h f = omega (arith, clear-zero j)
and_up_to-mask (suc j) k zero (suc a) h f = absurd (omega arith)
and_up_to-mask (suc j) k (suc n) zero h f = omega (arith, clear-zero j)
and_up_to-mask (suc j) k (suc n) (suc a) h f =
    let half : mask j k * 2 / 2 ≡ mask j k = omega arith in
    rw half (omega (arith, and_up_to-mask j k n (suc a / 2) (omega arith) (omega arith)))

-- `x & !63` on 64 bits rounds down to a multiple of 64.
pub bit_and-clear_63 : (a : ℕ) → a < 2 ^ 64 → bit_and a (2 ^ 64 - 1 - 63) ≡ a / 64 * 64
bit_and-clear_63 a h =
    bit_and-and_up_to a (2 ^ 64 - 1 - 63)
    ∙ and_up_to-mask 6 58 a a (omega arith) (omega arith)
    ∙ omega arith
