-- ===== src/Topshim/Actors/Sink.antt =====
-- `run_playback_sink` of src/topshim/actors.rs, a round of its loop at a time.
pub mod Playlist
use dorsche.Base.{
  ℕ, ◌+◌, Bool, true, false, if◌then◌else◌, List, [], ◌∷◌, ◌++◌, Option, none, some, Error, Result,
  ok, err,
}
use dorsche.Topshim.Actors.{
  Inbox, message, waiting, gone, Shutdown, shutdown_taken, PlaybackReceipt, EchoReference, Service,
  play,
}

-- `PlaybackCommand::Start` with its frames in order.
pub record Start : Type 0 where
  pub utterance_id : ℕ
  pub frames : List ℕ

pub record Sink : Type 0 where
  pub current : Option Start
  pub sequence : ℕ

abbrev pub new_sink : Sink
new_sink = record { current = none; sequence = 0 }

-- What a round finds ready, and what the proxy and the echo channel do if it plays a frame.
-- `interrupt` is the microphone sequence of a `BargeIn`.
pub record Round : Type 0 where
  pub shutdown : Shutdown
  pub interrupt : Inbox ℕ
  pub command : Inbox Start
  pub has_ticked : Bool
  pub service : Service
  pub is_listening : Bool

-- The branch that the biased `select!` takes, or none while it waits.
pub data Branch : Type 0 where
  on_shutdown : Bool → Branch
  on_interrupt : ℕ → Branch
  on_command : Start → Branch
  on_tick no_branch : Branch

-- The guard `if current.is_some()` of the clock.
abbrev pub tick_branch : Bool → Option Start → Branch
tick_branch true (some u) = on_tick
tick_branch true none = no_branch
tick_branch false c = no_branch

abbrev pub command_branch : Inbox Start → Branch → Branch
command_branch (message u) later = on_command u
command_branch waiting later = later
command_branch gone later = later

abbrev pub interrupt_branch : Inbox ℕ → Branch → Branch
interrupt_branch (message i) later = on_interrupt i
interrupt_branch waiting later = later
interrupt_branch gone later = later

abbrev pub shutdown_branch : Option Bool → Branch → Branch
shutdown_branch (some stop) later = on_shutdown stop
shutdown_branch none later = later

unfoldable pub select_sink : Round → Sink → Branch
select_sink r s =
    shutdown_branch (shutdown_taken r.shutdown)
      (interrupt_branch r.interrupt (command_branch r.command (tick_branch r.has_ticked s.current)))

-- What a sink does outside: it submits a frame with its sequence number, it sends an echo reference.
pub data Output : Type 0 where
  submits : ℕ → ℕ → Output
  mirrors : EchoReference → Output

pub data Flow : Type 0 where
  continues : Sink → Flow
  leaves : Flow
  fails : Error → Flow

-- After the receipt: the echo goes out, and only then is the frame counted.
unfoldable pub mirror : ℕ → Bool → Start → Sink → Result PlaybackReceipt → Flow × List Output
mirror pcm listening rest s (err e) = (fails e, [])
mirror pcm false rest s (ok receipt) = (leaves, [])
mirror pcm true rest s (ok receipt) =
    let echo : EchoReference = record {
      pcm = pcm;
      playback_sequence = receipt.sequence;
      presentation_time_ns = receipt.presentation_time_ns;
    } in
    (continues (record { current = some rest; sequence = s.sequence + 1 }), mirrors echo ∷ [])

unfoldable pub play_frame : Round → Sink → ℕ → List ℕ → Flow × List Output
play_frame r s utterance_id [] = (continues (record s { current = none }), [])
play_frame r s utterance_id (pcm ∷ rest) =
    let left : Start = record { utterance_id = utterance_id; frames = rest } in
    let (flow, out) = mirror pcm r.is_listening left s (play r.service) in
    (flow, submits pcm s.sequence ∷ out)

-- The body of the clock branch.
unfoldable pub play_next : Round → Sink → Option Start → Flow × List Output
play_next r s none = (continues (record s { current = none }), [])
play_next r s (some u) = play_frame r s u.utterance_id u.frames

unfoldable pub sink_step : Round → Sink → Branch → Flow × List Output
sink_step r s (on_shutdown true) = (leaves, [])
sink_step r s (on_shutdown false) = (continues s, [])
sink_step r s (on_interrupt i) = (continues (record s { current = none }), [])
sink_step r s (on_command u) = (continues (record s { current = some u }), [])
sink_step r s on_tick = play_next r s s.current
sink_step r s no_branch = (continues s, [])

-- A run with the branches it took and all it did outside.
pub record Trace : Type 0 where
  pub branches : List Branch
  pub outputs : List Output
  pub ending : Flow

abbrev pub then_trace : Branch → List Output → Trace → Trace
then_trace b out t = record {
  branches = b ∷ t.branches;
  outputs = out ++ t.outputs;
  ending = t.ending;
}

-- A loop that was left takes no more rounds.
abbrev pub follow : (Sink → Trace) → Flow → Trace
follow later (continues s) = later s
follow later leaves = record { branches = []; outputs = []; ending = leaves }
follow later (fails e) = record { branches = []; outputs = []; ending = fails e }

abbrev pub take_branch : Round → Sink → Branch → (Sink → Trace) → Trace
take_branch r s b later = let (flow, out) = sink_step r s b in then_trace b out (follow later flow)

unfoldable pub run_sink : List Round → Sink → Trace
run_sink [] s = record { branches = []; outputs = []; ending = continues s }
run_sink (r ∷ rs) s = take_branch r s (select_sink r s) (λ s'. run_sink rs s')
