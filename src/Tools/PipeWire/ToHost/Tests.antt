-- ===== src/Tools/PipeWire/ToHost/Tests.antt =====
-- The pump of src/bin/dorsche_pipewire.rs that empties the ring, on concrete runs.
use dorsche.Base.{ℕ, ◌≡◌, inl, refl, List, [], ◌∷◌, some, ok, err, external, arith}
use dorsche.Wireless.Types.Pcm.{PcmConfiguration}
use dorsche.Tools.PipeWire.ToHost.{Event, plays, turns, Host, run_host, fresh_host}
use dorsche.Tools.PipeWire.ToHost.Line.{Line, run_line, empty_line}
use dorsche.Tools.PipeWire.ToHost.Pumped.{run_host-run_line}

abbrev stereo : PcmConfiguration
stereo = record {
  sample_rate_hz = 48_000;
  bits_per_sample = 16;
  channels = 2;
  data_interval_us = 10_000;
}

abbrev buffer : ℕ → Event
buffer n =
    plays (ok tt) 0 (some (record { offset = 1; size = 2; memory = some (0 ∷ n ∷ n ∷ 9 ∷ []) }))

abbrev quiet_turn : Event
quiet_turn = turns (record { written = ok tt; woken = ok tt })

-- The third buffer finds both slots taken, as the first is still in hand; then the socket fails.
abbrev crowded : List Event
crowded =
    quiet_turn
    ∷ buffer 4
    ∷ buffer 5
    ∷ quiet_turn
    ∷ buffer 6
    ∷ quiet_turn
    ∷ buffer 7
    ∷ quiet_turn
    ∷ quiet_turn
    ∷ quiet_turn
    ∷ turns (record { written = err (external 32); woken = ok tt })
    ∷ quiet_turn
    ∷ []

crowded_line :
    let l : Line = run_line 2 4 crowded empty_line in
    (l.sent ≡ 4 ∷ 4 ∷ 5 ∷ 5 ∷ []) × (l.ending ≡ some (external 32))
unfolding run_line
crowded_line = (refl, refl)

run_host-run_line_example :
    let h : Host = run_host stereo crowded (fresh_host 2 4) in
    let l : Line = run_line 2 4 crowded empty_line in (h.sent ≡ l.sent) × (h.ending ≡ l.ending)
run_host-run_line_example =
    run_host-run_line stereo 2 4 crowded (omega arith) (omega arith) (omega arith)
      (inl (omega arith))
