-- ===== src/Tools/PipeWire/ToHost.antt =====
-- `pump_ring_to_host` of src/bin/dorsche_pipewire.rs beside the callback of `run_sink` that fills its ring. The
-- pump holds its lease while it waits for the socket, so that a turn acquires a frame or ends a write.
pub mod Line
pub mod Sound
pub mod Turns
pub mod Pumped
pub mod Tests
use dorsche.Base.{
  ℕ, Bool, true, false, List, [], ◌∷◌, ◌++◌, Option, none, some, Error, Result, ok, err, ◌==◌,
  if◌then◌else◌, non_pcm_frame,
}
use dorsche.Wireless.Types.Kinds.{pcm, payload_kind_code}
use dorsche.Wireless.Types.Pcm.{PcmConfiguration}
use dorsche.Wireless.DataPlane.Ring.{Ring, FrameLease, fresh, try_acquire, release}
use dorsche.Wireless.DataPlane.Ring.Traffic.{payload_now}
use dorsche.Wireless.PipeWire.{SpaData, SinkState, process_sink}

-- What the socket answers to `write_all`, and `wait_readable`, if the turn asks them.
pub record Turn : Type 0 where
  pub written : Result (Unit {0})
  pub woken : Result (Unit {0})

pub data Event : Type 0 where
  plays : Result (Unit {0}) → ℕ → Option SpaData → Event
  turns : Turn → Event

-- `sent` has gone to the socket; a write that fails adds nothing.
pub record Host : Type 0 where
  pub sink : SinkState
  pub held : Option FrameLease
  pub sent : List ℕ
  pub ending : Option Error

abbrev pub with_ring : SinkState → Ring → SinkState
with_ring s r = record s { producer = r }

-- The end of a write. The lease ends with the round, however that ends.
unfoldable pub after_write : FrameLease → Host → Result (Unit {0}) → Host
after_write l h (err e) = record h {
  sink = with_ring h.sink (release h.sink.producer l);
  held = none;
  ending = some e;
}
after_write l h (ok done) = record h {
  sink = with_ring h.sink (release h.sink.producer l);
  held = none;
  sent = h.sent ++ (payload_now h.sink.producer l).1;
}

abbrev pub after_wait : Host → Result (Unit {0}) → Host
after_wait h (err e) = record h { ending = some e }
after_wait h (ok done) = h

unfoldable pub after_acquire : Turn → Host → Result (Option FrameLease) → Host
after_acquire t h (err e) = record h { ending = some e }
after_acquire t h (ok none) = after_wait h t.woken
after_acquire t h (ok (some l)) =
    if l.descriptor.payload_kind == payload_kind_code pcm
    then record h { held = some l }
    else record h {
      sink = with_ring h.sink (release h.sink.producer l);
      ending = some non_pcm_frame;
    }

abbrev pub on_lease : Turn → Host → Option FrameLease → Host
on_lease t h none = after_acquire t h (try_acquire h.sink.producer)
on_lease t h (some l) = after_write l h t.written

-- A pump that has ended takes no more turns.
abbrev pub on_ending : Turn → Host → Option Error → Host
on_ending t h none = on_lease t h h.held
on_ending t h (some e) = h

unfoldable pub host_step : PcmConfiguration → Event → Host → Host
host_step c (plays signal now d) h = record h { sink = process_sink signal now c d h.sink }
host_step c (turns t) h = on_ending t h h.ending

unfoldable pub run_host : PcmConfiguration → List Event → Host → Host
run_host c [] h = h
run_host c (e ∷ es) h = run_host c es (host_step c e h)

-- The two ends of a new ring.
abbrev pub fresh_host : ℕ → ℕ → Host
fresh_host count capacity = record {
  sink = record { producer = fresh count capacity; sequence = 0 };
  held = none;
  sent = [];
  ending = none;
}
