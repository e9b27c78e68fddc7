-- ===== src/Tools/LeAudio/Capture.antt =====
-- `capture_peer` of src/bin/floss_le_audio_smoke.rs on the ring of src/wireless/data_plane.rs. What it
-- captures goes to the file, if there is one, and to the statistics, which are on floats.
pub mod Transparent
use dorsche.Base.{
  ℕ, zero, suc, ◌+◌, ◌*◌, ◌/◌, ◌%◌, ◌^◌, List, [], ◌∷◌, ◌++◌, Option, none, some, Error, Result, ok,
  err, leb, if◌then◌else◌, length, capture_overrun, frame_invisible,
}
use dorsche.Wireless.Types.Pcm.{PcmConfiguration, bytes_per_interval}
use dorsche.Wireless.DataPlane.Layout.{Kernel, RingHeader, create}
use dorsche.Wireless.DataPlane.Ring.{
  Ring, FrameLease, fresh, try_reserve, write_payload, commit, try_acquire, release,
}
use dorsche.Wireless.PipeWire.{pcm_descriptor}

-- What the rest of the system does in an interval: the bytes that the socket gives, the time, the wakeup
-- of the ring, the write to the file.
pub record Interval : Type 0 where
  pub read : Result (List ℕ)
  pub now : ℕ
  pub signal : Result (Unit {0})
  pub written : Result (Unit {0})

-- The capture has panicked at a slice or a product, has failed, or holds what it has captured, and its ring.
pub data Caught : Type 0 where
  unwinds : Caught
  stops : Error → Caught
  holds : List ℕ → Ring → Caught

abbrev pub after_write : List ℕ → Ring → FrameLease → Result (Unit {0}) → Caught
after_write file r l (err e) = stops e
after_write file r l (ok done) = holds (file ++ l.bytes) (release r l)

unfoldable pub after_acquire :
    List ℕ → Ring → Result (Unit {0}) → Result (Option FrameLease) → Caught
after_acquire file r written (err e) = stops e
after_acquire file r written (ok none) = stops frame_invisible
after_acquire file r written (ok (some l)) = after_write file r l written

abbrev pub after_commit : List ℕ → Result (Unit {0}) → Result (Unit {0}) × Ring → Caught
after_commit file written (err e, r) = stops e
after_commit file written (ok done, r) = after_acquire file r written (try_acquire r)

module _ (c : PcmConfiguration) (bytes : ℕ) where
  unfoldable pub after_read : List ℕ → Interval → ℕ → ℕ → Ring → Result (List ℕ) → Caught
  after_read file i sequence head r (err e) = stops e
  after_read file i sequence head r (ok pcm) =
      after_commit file i.written
        (commit i.signal (write_payload r head pcm) head (pcm_descriptor c sequence i.now) bytes)

  unfoldable pub after_reserve : List ℕ → Interval → ℕ → Option ℕ × Ring → Caught
  after_reserve file i sequence (none, r) = stops capture_overrun
  after_reserve file i sequence (some head, r) =
      if leb bytes r.payload_capacity then after_read file i sequence head r i.read else unwinds

  -- One interval. A loop that was left takes no more.
  abbrev pub capture_interval : Interval → ℕ → Caught → Caught
  capture_interval i sequence unwinds = unwinds
  capture_interval i sequence (stops e) = stops e
  capture_interval i sequence (holds file r) = after_reserve file i sequence (try_reserve r)

  -- `for sequence in 0..intervals`, from `sequence` on.
  abbrev pub capture_loop : (ℕ → Interval) → ℕ → ℕ → Caught → Caught
  capture_loop env zero sequence s = s
  capture_loop env (suc n) sequence s =
      capture_loop env n (suc sequence) (capture_interval (env sequence) sequence s)

  -- The byte count at the end is a `u64` product.
  abbrev pub after_intervals : ℕ → Caught → Caught
  after_intervals total unwinds = unwinds
  after_intervals total (stops e) = stops e
  after_intervals total (holds file r) = if leb (2 ^ 64) total then unwinds else holds file r

  -- From the file on; `opened` is fine if none is wanted.
  abbrev pub after_open : (ℕ → Interval) → ℕ → Result (Unit {0}) → Caught
  after_open env intervals (err e) = stops e
  after_open env intervals (ok done) =
      after_intervals (intervals * bytes)
        (capture_loop env intervals 0 (holds [] (fresh 8 (bytes % 2 ^ 32))))

  unfoldable pub after_create :
      (ℕ → Interval) → ℕ → Result (Unit {0}) → Result (RingHeader × ℕ) → Caught
  after_create env intervals opened (err e) = stops e
  after_create env intervals opened (ok made) = after_open env intervals opened

-- The product with the seconds is a `u64`, and comes before the ring.
unfoldable pub after_size :
    Kernel → PcmConfiguration → (ℕ → Interval) → Result (Unit {0}) → ℕ → Result ℕ → Caught
after_size k c env opened seconds (err e) = stops e
after_size k c env opened seconds (ok bytes) =
    if leb (2 ^ 64) (seconds * 1_000_000)
    then unwinds
    else after_create c bytes env (seconds * 1_000_000 / c.data_interval_us) opened
        (create k 8 (bytes % 2 ^ 32))

unfoldable pub capture_peer :
    Kernel → PcmConfiguration → (ℕ → Interval) → Result (Unit {0}) → ℕ → Caught
capture_peer k c env opened seconds = after_size k c env opened seconds (bytes_per_interval c)
