-- ===== src/Tools/LeAudio/Samples/Decoded.antt =====
-- `decode_samples` of src/bin/floss_le_audio_smoke.rs on bytes that encode samples.
use dorsche.Base.{
  ℕ, zero, suc, ◌+◌, ◌-◌, ◌*◌, ◌/◌, ◌^◌, ◌≤◌, ◌<◌, ◌≡◌, refl, sym, ap, ap₂, ◌∙◌, true, false, List,
  [], ◌∷◌, ◌++◌, some, Result, ok, leb, ◌==◌, ltb_iff, leb_iff, length, take, drop, length-append,
  take-append, ℤ, All, IsAnyOf, arith,
}
use dorsche.Wireless.Types.Pcm.{sample_widths}
use dorsche.Tools.LeAudio.Samples.{encoded, chunks_exact, decode_chunks, decode_samples}
use dorsche.Tools.LeAudio.Samples.Signed.{IsWithin, decode_sample-encoded, length-encoded}

-- Samples one after the other.
abbrev pub encode_all : ℕ → List ℤ → List ℕ
encode_all width [] = []
encode_all width (z ∷ zs) = encoded width z ++ encode_all width zs

abbrev pub all_ok : List ℤ → List (Result ℤ)
all_ok [] = []
all_ok (z ∷ zs) = ok z ∷ all_ok zs

abbrev encode_each : ℕ → List ℤ → List (List ℕ)
encode_each width [] = []
encode_each width (z ∷ zs) = encoded width z ∷ encode_each width zs

drop_self : (xs ys : List ℕ) → drop (length xs) (xs ++ ys) ≡ ys
drop_self [] ys = refl
drop_self (x ∷ xs) ys = drop_self xs ys

pub length-encode_all :
    (width : ℕ) (zs : List ℤ) → width ≤ 8 → length (encode_all width zs) ≡ length zs * width
length-encode_all width [] h = omega arith
length-encode_all width (z ∷ zs) h =
    let more : suc (length zs) * width ≡ width + length zs * width = omega arith in
    omega (
      arith,
      more,
      length-append (encoded width z) (encode_all width zs),
      length-encoded width z h,
      length-encode_all width zs h,
    )

chunks_exact-encode_all :
    (fuel width : ℕ) (zs : List ℤ)
    → 0 < width
    → width ≤ 8
    → length zs ≤ fuel
    → chunks_exact fuel width (encode_all width zs) ≡ encode_each width zs
unfolding chunks_exact
chunks_exact-encode_all zero width [] p h f = refl
chunks_exact-encode_all zero width (z ∷ zs) p h f = absurd (omega arith)
chunks_exact-encode_all (suc fuel) width [] p h f = ground arith
chunks_exact-encode_all (suc fuel) width (z ∷ zs) p h f =
    let e = encoded width z in
    let rest = encode_all width zs in
    let size = length-encoded width z h in
    let room : leb width (length (e ++ rest)) ≡ true =
      (leb_iff _ _).1 (omega (arith, length-append e rest)) in
    let first : take width (e ++ rest) ≡ e =
      ap (λ n. take n (e ++ rest)) (sym size) ∙ take-append e rest in
    let later : drop width (e ++ rest) ≡ rest =
      ap (λ n. drop n (e ++ rest)) (sym size) ∙ drop_self e rest in
    rw ((ltb_iff 0 width).1 p, room, first, later)
      (ap (λ cs. e ∷ cs) (chunks_exact-encode_all fuel width zs p h (omega arith)))

decode_chunks-encode_each :
    (bits : ℕ) (zs : List ℤ)
    → IsAnyOf sample_widths bits
    → All (IsWithin (2 ^ (bits - 1))) zs
    → decode_chunks bits (encode_each (bits / 8) zs) ≡ all_ok zs
decode_chunks-encode_each bits [] w h = refl
decode_chunks-encode_each bits (z ∷ zs) w h =
    ap₂ (λ a b. a ∷ b) (decode_sample-encoded bits z w h.0)
      (decode_chunks-encode_each bits zs w h.1)

pub width_bounds : (bits : ℕ) → IsAnyOf sample_widths bits → (0 < bits / 8) × (bits / 8 ≤ 8)
width_bounds bits h = ground arith

times_width : (n width : ℕ) → 0 < width → n ≤ n * width
times_width n width h = grind arith

-- At a supported width, samples in range that are encoded one after the other are decoded again.
pub decode_samples-encode_all :
    (bits : ℕ) (zs : List ℤ)
    → IsAnyOf sample_widths bits
    → All (IsWithin (2 ^ (bits - 1))) zs
    → decode_samples bits (encode_all (bits / 8) zs) ≡ some (all_ok zs)
unfolding decode_samples
decode_samples-encode_all bits zs w h =
    let b = width_bounds bits w in
    let some_width : (bits / 8 == 0) ≡ false = ground arith in
    let enough : length zs ≤ length (encode_all (bits / 8) zs) =
      omega (arith, length-encode_all (bits / 8) zs b.1, times_width (length zs) (bits / 8) b.0) in
    rw some_width (
      ap (λ cs. some (decode_chunks bits cs))
        (chunks_exact-encode_all (length (encode_all (bits / 8) zs)) (bits / 8) zs b.0 b.1 enough)
      ∙ ap some (decode_chunks-encode_each bits zs w h))
