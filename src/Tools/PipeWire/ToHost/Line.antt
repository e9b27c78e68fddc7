-- ===== src/Tools/PipeWire/ToHost/Line.antt =====
-- What the pump of src/bin/dorsche_pipewire.rs and its sink should do together: a queue of byte strings
-- whose oldest goes to the socket.
use dorsche.Base.{
  ℕ, suc, Bool, true, false, List, [], ◌∷◌, ◌++◌, Option, none, some, Error, Result, ok, err,
}
use dorsche.Wireless.PipeWire.Stream.{enter, slice_of}
use dorsche.Tools.PipeWire.ToHost.{Turn, Event, plays, turns}

pub record Line : Type 0 where
  pub queue : List (List ℕ)
  pub is_held : Bool
  pub sent : List ℕ
  pub ending : Option Error

-- With nothing to write, the turn waits; otherwise it takes the oldest string in hand.
abbrev pub pick : Result (Unit {0}) → Line → List (List ℕ) → Line
pick woken l (b ∷ q) = record l { is_held = true }
pick (ok done) l [] = l
pick (err e) l [] = record l { ending = some e }

-- The string in hand leaves the queue, written or not.
abbrev pub put : Result (Unit {0}) → Line → List (List ℕ) → Line
put written l [] = l
put (ok done) l (b ∷ q) = record l { queue = q; is_held = false; sent = l.sent ++ b }
put (err e) l (b ∷ q) = record l { queue = q; is_held = false; ending = some e }

abbrev pub line_turn : Turn → Line → Bool → Option Error → Line
line_turn t l held (some e) = l
line_turn t l false none = pick t.woken l l.queue
line_turn t l true none = put t.written l l.queue

abbrev pub line_step : ℕ → ℕ → Event → Line → Line
line_step count capacity (plays signal now d) l = record l {
  queue = enter count capacity (slice_of d) l.queue;
}
line_step count capacity (turns t) l = line_turn t l l.is_held l.ending

unfoldable pub run_line : ℕ → ℕ → List Event → Line → Line
run_line count capacity [] l = l
run_line count capacity (e ∷ es) l = run_line count capacity es (line_step count capacity e l)

abbrev pub empty_line : Line
empty_line = record { queue = []; is_held = false; sent = []; ending = none }

abbrev pub plays_among : List Event → ℕ
plays_among [] = 0
plays_among (plays signal now d ∷ es) = suc (plays_among es)
plays_among (turns t ∷ es) = plays_among es
