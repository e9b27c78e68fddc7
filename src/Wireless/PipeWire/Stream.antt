-- ===== src/Wireless/PipeWire/Stream.antt =====
-- The two callbacks of src/wireless/pipewire.rs on the two ends of one ring.
use dorsche.Base.{
  ℕ, suc, ◌+◌, List, [], ◌∷◌, ◌++◌, Option, none, some, Result, leb, if◌then◌else◌, length, take,
  drop,
}
use dorsche.Wireless.Types.Pcm.{PcmConfiguration}
use dorsche.Wireless.PipeWire.{SpaData, SinkState, process_sink, process_source}

-- A callback of the sink with its buffer, or of the source with the memory of its buffer.
pub data Callback : Type 0 where
  plays : Result (Unit {0}) → ℕ → Option SpaData → Callback
  records : Option (Option ℕ) → Callback

abbrev pub chunk : Option (List ℕ) → List (List ℕ)
chunk none = []
chunk (some bytes) = bytes ∷ []

-- The chunks that the source fills in a run.
unfoldable pub run_callbacks : PcmConfiguration → List Callback → SinkState → List (List ℕ)
run_callbacks c [] s = []
run_callbacks c (plays signal now d ∷ cs) s = run_callbacks c cs (process_sink signal now c d s)
run_callbacks c (records space ∷ cs) s =
    let (filled, r) = process_source c space s.producer in
    chunk filled ++ run_callbacks c cs (record s { producer = r })

-- The part of a buffer that its chunk names, if it lies in the memory.
abbrev pub slice : ℕ → ℕ → Option (List ℕ) → Option (List ℕ)
slice offset size none = none
slice offset size (some source) =
    if leb (offset + size) (length source) then some (take size (drop offset source)) else none

-- A queue of byte strings that takes at most `count` of them, none over `capacity`.
abbrev pub enter : ℕ → ℕ → Option (List ℕ) → List (List ℕ) → List (List ℕ)
enter count capacity none q = q
enter count capacity (some bytes) q =
    if leb count (length q) then q else if leb (length bytes) capacity then q ++ (bytes ∷ []) else q

abbrev pub slice_of : Option SpaData → Option (List ℕ)
slice_of none = none
slice_of (some d) = slice d.offset d.size d.memory

abbrev pub fitting : Option ℕ → List ℕ → List ℕ
fitting none bytes = []
fitting (some space) bytes = take space bytes

abbrev pub leave : Option (Option ℕ) → List (List ℕ) → List (List ℕ) × List (List ℕ)
leave none q = ([], q)
leave (some space) [] = ([] ∷ [], [])
leave (some space) (bytes ∷ q) = (fitting space bytes ∷ [], q)

-- The chunks that the source should fill.
unfoldable pub stream : ℕ → ℕ → List Callback → List (List ℕ) → List (List ℕ)
stream count capacity [] q = []
stream count capacity (plays signal now d ∷ cs) q =
    stream count capacity cs (enter count capacity (slice_of d) q)
stream count capacity (records space ∷ cs) q =
    let (filled, q') = leave space q in filled ++ stream count capacity cs q'

abbrev pub plays_in : List Callback → ℕ
plays_in [] = 0
plays_in (plays signal now d ∷ cs) = suc (plays_in cs)
plays_in (records space ∷ cs) = plays_in cs
