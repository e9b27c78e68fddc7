-- ===== src/Tools/PipeWire/FromPeer.antt =====
-- `pump_peer_to_ring` of src/bin/dorsche_pipewire.rs beside the callback of `run_source` that empties its
-- ring. The pump holds its slot while it waits for the socket, so that a turn reserves a slot or ends
-- a read.
pub mod Line
pub mod Sound
pub mod Turns
pub mod Pumped
pub mod Tests
use dorsche.Base.{
  ℕ, ◌+◌, Bool, true, false, List, [], ◌∷◌, ◌++◌, Option, none, some, Error, Result, ok, err, leb,
  if◌then◌else◌, peer_overrun,
}
use dorsche.Wireless.Types.Pcm.{PcmConfiguration}
use dorsche.Wireless.DataPlane.Ring.{Ring, fresh, u64, try_reserve, write_payload, commit}
use dorsche.Wireless.PipeWire.{pcm_descriptor, process_source}
use dorsche.Wireless.PipeWire.Stream.{chunk}

-- What `read_exact` gives, the time, and what the wakeup of the ring answers, if the turn asks them.
pub record Turn : Type 0 where
  pub read : Result (List ℕ)
  pub now : ℕ
  pub signal : Result (Unit {0})

-- A callback of the source with the memory of its buffer, or a turn of the pump.
pub data Event : Type 0 where
  records : Option (Option ℕ) → Event
  turns : Turn → Event

-- The pump has panicked at a slice, or has returned an error.
pub data Ended : Type 0 where
  panicked : Ended
  failed : Error → Ended

-- `recorded` are the chunks that the source has filled.
pub record Peer : Type 0 where
  pub ring : Ring
  pub reserved : Option ℕ
  pub sequence : ℕ
  pub recorded : List (List ℕ)
  pub ending : Option Ended

abbrev pub after_commit : Peer → Result (Unit {0}) × Ring → Peer
after_commit p (err e, r) = record p { ring = r; reserved = none; ending = some (failed e) }
after_commit p (ok done, r) = record p {
  ring = r;
  reserved = none;
  sequence = u64 (p.sequence + 1);
}

module _ (c : PcmConfiguration) (bytes : ℕ) where
  unfoldable pub after_read : Turn → Peer → ℕ → Result (List ℕ) → Peer
  after_read t p head (err e) = record p { reserved = none; ending = some (failed e) }
  after_read t p head (ok pcm) = after_commit p (
      commit t.signal (write_payload p.ring head pcm) head (pcm_descriptor c p.sequence t.now)
        bytes)

  unfoldable pub after_reserve : Peer → Option ℕ × Ring → Peer
  after_reserve p (none, r) = record p { ring = r; ending = some (failed peer_overrun) }
  after_reserve p (some head, r) =
      if leb bytes r.payload_capacity
      then record p { ring = r; reserved = some head }
      else record p { ring = r; ending = some panicked }

  abbrev pub on_slot : Turn → Peer → Option ℕ → Peer
  on_slot t p none = after_reserve p (try_reserve p.ring)
  on_slot t p (some head) = after_read t p head t.read

  -- A pump that has ended takes no more turns.
  abbrev pub on_ending : Turn → Peer → Option Ended → Peer
  on_ending t p none = on_slot t p p.reserved
  on_ending t p (some e) = p

  unfoldable pub peer_step : Event → Peer → Peer
  peer_step (records space) p =
      let (filled, r) = process_source c space p.ring in
      record p { ring = r; recorded = p.recorded ++ chunk filled }
  peer_step (turns t) p = on_ending t p p.ending

  unfoldable pub run_peer : List Event → Peer → Peer
  run_peer [] p = p
  run_peer (e ∷ es) p = run_peer es (peer_step e p)

-- The two ends of a new ring.
abbrev pub fresh_peer : ℕ → ℕ → Peer
fresh_peer count capacity = record {
  ring = fresh count capacity;
  reserved = none;
  sequence = 0;
  recorded = [];
  ending = none;
}
