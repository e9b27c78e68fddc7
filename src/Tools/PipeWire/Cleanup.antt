-- ===== src/Tools/PipeWire/Cleanup.antt =====
-- What src/bin/dorsche_pipewire.rs leaves open at Floss.
use dorsche.Base.{ℕ, ◌≡◌, refl, Bool, true, false, Option, none, some, Result, ok, err, ◌>>◌}
use dorsche.Wireless.Types.Pcm.{PcmConfiguration}
use dorsche.Wireless.DataPlane.Layout.{RingHeader}
use dorsche.Wireless.Floss.{FlossLeDataPath, Log, Bus, take_stream}
use dorsche.Wireless.Floss.Rollback.{HasPcm}
use dorsche.Wireless.Floss.Stop.{Stopping}
use dorsche.Tools.PipeWire.{Direction, directions_of, Transfer, Ending, panics, returns}

-- The end of `main`, by whether the ring is made and the thread spawned: with both the path is stopped
-- and the error of the transfer comes first; without either nothing more is asked.
abbrev pub EndsWith :
    Bus → Transfer → Direction → Log → Result (RingHeader × ℕ) → Bool → Ending → Type 0
EndsWith b t d log (err e) spawned x = x ≡ returns (err e) log
EndsWith b t d log (ok ring) false x = x ≡ panics log
EndsWith b t d log (ok ring) true x =
    (s : Result (Unit {0}) × Log) × Stopping (directions_of d) (b.proxy log) log s
    × (x ≡ returns (t.pump >> s.0) s.1)

pub HasPcm-some :
    (c : Option PcmConfiguration) → HasPcm true c → (v : PcmConfiguration) × (c ≡ some v)
HasPcm-some none h = absurd h
HasPcm-some (some v) h = (v, refl)

-- The path without its stream.
abbrev pub taken : FlossLeDataPath → FlossLeDataPath
taken p = record p { stream = false }

pub take_stream-taken : (p : FlossLeDataPath) → p.stream ≡ true → take_stream p ≡ (ok tt, taken p)
unfolding take_stream
take_stream-taken p h = rw h refl
