-- ===== src/Tools/Hfp/Delay.antt =====
-- The playback half of `exercise_loopback` in src/bin/floss_hfp_smoke.rs: each frame is attenuated,
-- goes through a circular delay line, and what is left in the line is drained at the end. A byte is
-- a number below 256. All writes succeed here: a failed one ends the playback with its error.
-- `gain` is the rounded `f32` product on the bit pattern of an `i16`.
pub mod Line
pub mod Echo
use dorsche.Base.{
  ℕ, zero, suc, ◌+◌, ◌-◌, ◌*◌, ◌/◌, ◌%◌, Bool, List, [], ◌∷◌, ◌++◌, length, get_or, set, replicate,
  is_empty, min, ◌==◌, if◌then◌else◌,
}

-- `chunks_exact_mut(2)`: a last odd byte stays as it is.
unfoldable pub attenuate : (ℕ → ℕ) → List ℕ → List ℕ
attenuate gain [] = []
attenuate gain (x ∷ []) = x ∷ []
attenuate gain (lo ∷ hi ∷ rest) =
    let output = gain (lo + 256 * hi) in (output % 256) ∷ (output / 256 % 256) ∷ attenuate gain rest

pub record DelayLine : Type 0 where
  pub bytes : List ℕ
  pub cursor : ℕ

abbrev pub new_line : ℕ → DelayLine
new_line delay_bytes = record { bytes = replicate delay_bytes 0; cursor = 0 }

-- The cursor after one byte.
abbrev pub advance : DelayLine → ℕ
advance d = if d.cursor + 1 == length d.bytes then 0 else d.cursor + 1

-- `swap(byte, &mut delay_line[delay_cursor])` for each byte of a frame.
unfoldable pub exchange : List ℕ → DelayLine → List ℕ × DelayLine
exchange [] d = ([], d)
exchange (byte ∷ rest) d =
    let (out, d') =
      exchange rest (record { bytes = set d.bytes d.cursor byte; cursor = advance d }) in
    (get_or d.bytes d.cursor 0 ∷ out, d')

unfoldable pub delay_frame : (ℕ → ℕ) → List ℕ → DelayLine → List ℕ × DelayLine
delay_frame gain frame d =
    let quiet = attenuate gain frame in if is_empty d.bytes then (quiet, d) else exchange quiet d

-- The loop over the received frames: what each `write_all` writes.
unfoldable pub echo_frames : (ℕ → ℕ) → List (List ℕ) → DelayLine → List (List ℕ) × DelayLine
echo_frames gain [] d = ([], d)
echo_frames gain (frame ∷ frames) d =
    let (out, d') = delay_frame gain frame d in
    let (later, d'') = echo_frames gain frames d' in (out ∷ later, d'')

-- The inner loop of the drain: `n` bytes from the cursor on.
unfoldable pub read_line : ℕ → DelayLine → List ℕ × DelayLine
read_line zero d = ([], d)
read_line (suc n) d =
    let (out, d') = read_line n (record d { cursor = advance d }) in
    (get_or d.bytes d.cursor 0 ∷ out, d')

-- `while remaining != 0`, on fuel.
unfoldable pub drain : ℕ → ℕ → ℕ → DelayLine → List (List ℕ)
drain frame_bytes zero remaining d = []
drain frame_bytes (suc fuel) remaining d =
    let size = min remaining frame_bytes in
    let (out, d') = read_line size d in
    let rest = out ∷ drain frame_bytes fuel (remaining - size) d' in
    if remaining == 0 then [] else rest

-- All that is written to the headset. The drain has at most a round for each byte.
unfoldable pub play_back : (ℕ → ℕ) → ℕ → ℕ → List (List ℕ) → List (List ℕ)
play_back gain sample_rate delay_seconds frames =
    let line = new_line (sample_rate * 2 * delay_seconds) in
    let (out, d) = echo_frames gain frames line in
    if is_empty d.bytes
    then out
    else out ++ drain (sample_rate / 100 * 2) (length d.bytes) (length d.bytes) d
