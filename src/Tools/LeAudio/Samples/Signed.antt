-- ===== src/Tools/LeAudio/Samples/Signed.antt =====
-- One sample of src/bin/floss_le_audio_smoke.rs: what is encoded is decoded.
use dorsche.Base.{
  ℕ, zero, suc, ◌-◌, ◌/◌, ◌%◌, ◌^◌, ◌≤◌, ◌<◌, ◌≡◌, inl, inr, refl, ap, Bool, true, false, subst,
  sym, length-take, ok, ltb, ◌==◌, if◌then◌else◌, length, bit_and, ℤ, pos, negsuc, IsAnyOf, arith,
}
use dorsche.Wireless.Types.Pcm.{sample_widths}
use dorsche.Tools.LeAudio.Samples.{pattern_64, to_le_bytes, encoded, decode_sample}

-- An integer of a signed word whose upper half begins at `half`.
abbrev pub IsWithin : ℕ → ℤ → Type 0
IsWithin half (pos n) = n < half
IsWithin half (negsuc n) = n < half

-- Whether a test passes on the numbers under a bound, and at one of them.
passes : (ℕ → Bool) → ℕ → Bool
passes test zero = true
passes test (suc bound) = if test bound then passes test bound else false

passed_at : (test : ℕ → Bool) (bound n : ℕ) → n < bound → passes test bound ≡ true → test n ≡ true
unfolding passes
passed_at test zero n few all = elim few [ ]
passed_at test (suc bound) n few all = ground (arith, passed_at test bound n)

abbrev same : Bool → Bool → Bool
same true b = b
same false true = false
same false false = true

same_lem : (a b : Bool) → same a b ≡ true → a ≡ b
same_lem true b h = ground arith
same_lem false true h = ground arith
same_lem false false h = refl

signs_agree : passes (λ byte. same (bit_and byte 0x80 == 0) (ltb byte 0x80)) 256 ≡ true
unfolding passes
signs_agree = refl

sign_bit : (x : ℕ) → x < 256 → (bit_and x 0x80 == 0) ≡ ltb x 0x80
sign_bit x h = same_lem _ _ (passed_at _ 256 x h signs_agree)

pattern_in_range : (z : ℤ) → pattern_64 z < 2 ^ 64
pattern_in_range (pos n) = omega arith
pattern_in_range (negsuc n) = omega arith

decode_16 : (z : ℤ) → IsWithin (2 ^ 15) z → decode_sample 16 (encoded 2 z) ≡ ok z
unfolding decode_sample
decode_16 (pos n) h = ground arith
decode_16 (negsuc n) h = ground arith

decode_32 : (z : ℤ) → IsWithin (2 ^ 31) z → decode_sample 32 (encoded 4 z) ≡ ok z
unfolding decode_sample
decode_32 (pos n) h = ground arith
decode_32 (negsuc n) h = ground arith

decode_24 : (z : ℤ) → IsWithin (2 ^ 23) z → decode_sample 24 (encoded 3 z) ≡ ok z
unfolding decode_sample
decode_24 (pos n) h = ground (arith, sign_bit (n % 2 ^ 64 / 256 / 256 % 256) (omega arith))
decode_24 (negsuc n) h =
    ground (arith, sign_bit ((2 ^ 64 - 1 - n % 2 ^ 64) / 256 / 256 % 256) (omega arith))

-- At each of the widths that the program supports, the bytes of a sample in range are decoded to it.
pub decode_sample-encoded :
    (bits : ℕ) (z : ℤ)
    → IsAnyOf sample_widths bits
    → IsWithin (2 ^ (bits - 1)) z
    → decode_sample bits (encoded (bits / 8) z) ≡ ok z
decode_sample-encoded bits z (inl e) h =
    subst (λ b. IsWithin (2 ^ (b - 1)) z → decode_sample b (encoded (b / 8) z) ≡ ok z) (sym e)
      (decode_16 z) h
decode_sample-encoded bits z (inr (inl e)) h =
    subst (λ b. IsWithin (2 ^ (b - 1)) z → decode_sample b (encoded (b / 8) z) ≡ ok z) (sym e)
      (decode_24 z) h
decode_sample-encoded bits z (inr (inr (inl e))) h =
    subst (λ b. IsWithin (2 ^ (b - 1)) z → decode_sample b (encoded (b / 8) z) ≡ ok z) (sym e)
      (decode_32 z) h
decode_sample-encoded bits z (inr (inr (inr e))) h = absurd e

length-to_le_bytes : (n word : ℕ) → length (to_le_bytes n word) ≡ n
length-to_le_bytes zero word = refl
length-to_le_bytes (suc n) word = ap suc (length-to_le_bytes n (word / 256))

pub length-encoded : (width : ℕ) (z : ℤ) → width ≤ 8 → length (encoded width z) ≡ width
length-encoded width z h =
    omega
      (arith, length-take width (to_le_bytes 8 (pattern_64 z)), length-to_le_bytes 8 (pattern_64 z))
