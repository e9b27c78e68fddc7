-- ===== src/Tools/LeAudio/Samples.antt =====
-- `write_sample` and `decode_samples` of src/bin/floss_le_audio_smoke.rs. A buffer is a list of bytes; the
-- `f64` in which a sample comes and goes is left out: `integer` is the `i64` that it is scaled to.
pub mod Signed
pub mod Buffer
pub mod Decoded
use dorsche.Base.{
  ℕ, zero, suc, ◌+◌, ◌-◌, ◌*◌, ◌/◌, ◌%◌, ◌^◌, Bool, true, false, List, [], ◌∷◌, ◌++◌, Option, none,
  some, Result, ok, err, ltb, leb, ◌==◌, ◌&&◌, if◌then◌else◌, length, take, drop, bit_and, ℤ, pos,
  negsuc, pcm_width_unsupported,
}

-- The 64-bit pattern of an `i64`.
abbrev pub pattern_64 : ℤ → ℕ
pattern_64 (pos n) = n % 2 ^ 64
pattern_64 (negsuc n) = 2 ^ 64 - 1 - n % 2 ^ 64

-- `to_le_bytes` of a word of this many bytes, and `from_le_bytes`.
abbrev pub to_le_bytes : ℕ → ℕ → List ℕ
to_le_bytes zero word = []
to_le_bytes (suc n) word = word % 256 ∷ to_le_bytes n (word / 256)

abbrev pub from_le_bytes : List ℕ → ℕ
from_le_bytes [] = 0
from_le_bytes (b ∷ bs) = b + 256 * from_le_bytes bs

-- The integer of a two's-complement word.
abbrev pub signed : ℕ → ℕ → ℤ
signed half word = if ltb word half then pos word else negsuc (2 * half - 1 - word)

-- `buffer[offset..offset + bytes.len()].copy_from_slice(bytes)`, where that is inside.
abbrev pub splice : List ℕ → ℕ → List ℕ → List ℕ
splice buffer offset bytes = take offset buffer ++ (bytes ++ drop (offset + length bytes) buffer)

abbrev pub encoded : ℕ → ℤ → List ℕ
encoded width integer = take width (to_le_bytes 8 (pattern_64 integer))

-- The loop over the channels, from `channel` on; `none` is the panic of a slice.
unfoldable pub write_channels : ℕ → ℕ → ℕ → ℕ → ℤ → ℕ → List ℕ → Option (List ℕ)
write_channels frame channels width zero integer channel buffer = some buffer
write_channels frame channels width (suc n) integer channel buffer =
    let offset = (frame * channels + channel) * width in
    let rest =
      write_channels frame channels width n integer (suc channel)
        (splice buffer offset (encoded width integer)) in
    if leb (offset + width) (length buffer) && leb width 8 then rest else none

unfoldable pub write_sample : List ℕ → ℕ → ℕ → ℕ → ℤ → Option (List ℕ)
write_sample buffer frame channels bits integer =
    write_channels frame channels (bits / 8) channels integer 0 buffer

-- The extension of three bytes to an `i32`.
abbrev pub extended : ℕ → ℕ
extended high = if bit_and high 0x80 == 0 then 0 else 0xff

abbrev pub at : List ℕ → ℕ → ℕ
at [] i = 0
at (b ∷ bs) zero = b
at (b ∷ bs) (suc i) = at bs i

-- The closure of `decode_samples` on one chunk.
unfoldable pub decode_sample : ℕ → List ℕ → Result ℤ
decode_sample bits s =
    if bits == 16
    then ok (signed (2 ^ 15) (from_le_bytes (at s 0 ∷ at s 1 ∷ [])))
    else if bits == 24
    then ok (signed (2 ^ 31) (from_le_bytes (at s 0 ∷ at s 1 ∷ at s 2 ∷ extended (at s 2) ∷ [])))
    else if bits == 32
    then ok (signed (2 ^ 31) (from_le_bytes (at s 0 ∷ at s 1 ∷ at s 2 ∷ at s 3 ∷ [])))
    else err pcm_width_unsupported

-- `chunks_exact(width)`, on fuel: a chunk takes a byte at least, and an incomplete one is left out.
unfoldable pub chunks_exact : ℕ → ℕ → List ℕ → List (List ℕ)
chunks_exact zero width bytes = []
chunks_exact (suc fuel) width bytes =
    let rest = take width bytes ∷ chunks_exact fuel width (drop width bytes) in
    if ltb 0 width && leb width (length bytes) then rest else []

abbrev pub decode_chunks : ℕ → List (List ℕ) → List (Result ℤ)
decode_chunks bits [] = []
decode_chunks bits (s ∷ ss) = decode_sample bits s ∷ decode_chunks bits ss

-- `none` is the panic of `chunks_exact(0)`.
unfoldable pub decode_samples : ℕ → List ℕ → Option (List (Result ℤ))
decode_samples bits bytes =
    if bits / 8 == 0
    then none
    else some (decode_chunks bits (chunks_exact (length bytes) (bits / 8) bytes))
