-- ===== src/Tools/PipeWire/FromPeer/Line.antt =====
-- What the pump of src/bin/dorsche_pipewire.rs and its source should do together: what is read goes into
-- a queue of `count` byte strings, from which the source takes.
use dorsche.Base.{
  ℕ, suc, ◌≡◌, Bool, true, false, List, [], ◌∷◌, ◌++◌, Option, none, some, Result, ok, err, leb,
  if◌then◌else◌, length, peer_overrun,
}
use dorsche.Wireless.PipeWire.Stream.{leave}
use dorsche.Tools.PipeWire.FromPeer.{Turn, Event, records, turns, Ended, failed}

pub record Line : Type 0 where
  pub queue : List (List ℕ)
  pub is_reserved : Bool
  pub recorded : List (List ℕ)
  pub ending : Option Ended

abbrev pub signalled : Result (Unit {0}) → Option Ended
signalled (ok done) = none
signalled (err e) = some (failed e)

-- What was read is in the queue even if the wakeup then fails.
abbrev pub receive : Result (Unit {0}) → Line → Result (List ℕ) → Line
receive signal l (err e) = record l { is_reserved = false; ending = some (failed e) }
receive signal l (ok pcm) = record l {
  queue = l.queue ++ (pcm ∷ []);
  is_reserved = false;
  ending = signalled signal;
}

abbrev pub reserve : ℕ → Line → Line
reserve count l =
    if leb count (length l.queue)
    then record l { ending = some (failed peer_overrun) }
    else record l { is_reserved = true }

abbrev pub line_turn : ℕ → Turn → Line → Bool → Option Ended → Line
line_turn count t l held (some e) = l
line_turn count t l false none = reserve count l
line_turn count t l true none = receive t.signal l t.read

abbrev pub line_step : ℕ → Event → Line → Line
line_step count (records space) l =
    let (filled, q) = leave space l.queue in record l { queue = q; recorded = l.recorded ++ filled }
line_step count (turns t) l = line_turn count t l l.is_reserved l.ending

unfoldable pub run_line : ℕ → List Event → Line → Line
run_line count [] l = l
run_line count (e ∷ es) l = run_line count es (line_step count e l)

abbrev pub empty_line : Line
empty_line = record { queue = []; is_reserved = false; recorded = []; ending = none }

abbrev pub turns_among : List Event → ℕ
turns_among [] = 0
turns_among (records space ∷ es) = turns_among es
turns_among (turns t ∷ es) = suc (turns_among es)

-- `read_exact` fills the slice.
abbrev pub FillsExactly : ℕ → Result (List ℕ) → Type 0
FillsExactly bytes (ok pcm) = length pcm ≡ bytes
FillsExactly bytes (err e) = Unit

abbrev pub ReadsExactly : ℕ → List Event → Type 0
ReadsExactly bytes [] = Unit
ReadsExactly bytes (records space ∷ es) = ReadsExactly bytes es
ReadsExactly bytes (turns t ∷ es) = FillsExactly bytes t.read × ReadsExactly bytes es
