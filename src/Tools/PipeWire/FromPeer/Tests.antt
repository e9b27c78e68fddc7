-- ===== src/Tools/PipeWire/FromPeer/Tests.antt =====
-- The pump of src/bin/dorsche_pipewire.rs that fills the ring, on concrete runs.
use dorsche.Base.{ℕ, ◌≡◌, inl, refl, List, [], ◌∷◌, none, some, ok, peer_overrun, arith}
use dorsche.Wireless.Types.Pcm.{PcmConfiguration}
use dorsche.Tools.PipeWire.FromPeer.{Event, records, turns, failed, Peer, run_peer, fresh_peer}
use dorsche.Tools.PipeWire.FromPeer.Line.{Line, run_line, empty_line}
use dorsche.Tools.PipeWire.FromPeer.Pumped.{run_peer-run_line}

abbrev mono : PcmConfiguration
mono = record { sample_rate_hz = 8_000; bits_per_sample = 16; channels = 1; data_interval_us = 125 }

abbrev arrival : ℕ → Event
arrival n = turns (record { read = ok (n ∷ n ∷ []); now = 0; signal = ok tt })

-- Two reads, a short buffer and an empty one; then three reads in a row find two slots.
abbrev burst : List Event
burst =
    arrival 1
    ∷ arrival 1
    ∷ arrival 2
    ∷ arrival 2
    ∷ records (some (some 1))
    ∷ records none
    ∷ records (some (some 8))
    ∷ records (some (some 8))
    ∷ arrival 3
    ∷ arrival 3
    ∷ arrival 4
    ∷ arrival 4
    ∷ arrival 5
    ∷ arrival 5
    ∷ records (some (some 8))
    ∷ []

burst_line :
    let l : Line = run_line 2 burst empty_line in
    (l.recorded ≡ (1 ∷ []) ∷ (2 ∷ 2 ∷ []) ∷ [] ∷ (3 ∷ 3 ∷ []) ∷ [])
    × (l.ending ≡ some (failed peer_overrun))
unfolding run_line
burst_line = (refl, refl)

run_peer-run_line_example :
    let p : Peer = run_peer mono 2 burst (fresh_peer 2 2) in
    let l : Line = run_line 2 burst empty_line in (p.recorded ≡ l.recorded) × (p.ending ≡ l.ending)
run_peer-run_line_example =
    run_peer-run_line mono 2 2 burst (omega arith) (omega arith) (omega arith) (omega arith)
      (inl (omega arith))
