-- ===== src/Topshim/Actors/Barge.antt =====
-- The voice detector and the playback sink of src/topshim/actors.rs at work together: the echo channel
-- from the sink to the detector, and the interrupt channel of capacity one back. A move is a round
-- of one of the two. A send on the echo channel does not wait.
pub mod Branches
pub mod Order
pub mod Tests
use dorsche.Base.{ℕ, Bool, true, false, List, [], ◌∷◌, ◌++◌, Option, none, some}
use dorsche.Topshim.Actors.{Inbox, message, waiting, gone, EchoReference}
use dorsche.Topshim.Actors.Sink.{
  Sink, new_sink, Round, Branch, on_shutdown, on_interrupt, on_command, on_tick, no_branch,
  select_sink, Output, submits, mirrors, Flow, continues, leaves, fails, sink_step,
}
use dorsche.Topshim.Actors.Vad.{
  Microphone, Vad, new_vad, Listening, Heed, heeds_shutdown, heeds_echo, heeds_frame, heeds_nothing,
  select_vad, hear,
}

-- An actor that has left is `none`; `pending` is the interrupt in its channel.
pub record Room : Type 0 where
  pub detector : Option Vad
  pub player : Option Sink
  pub echoes : List EchoReference
  pub pending : Option ℕ

abbrev pub new_room : Room
new_room = record { detector = some new_vad; player = some new_sink; echoes = []; pending = none }

-- What is ready of the channels of others. Those between the two actors are as the room has them.
pub data Move : Type 0 where
  listens : Listening → Move
  plays : Round → Move

-- `heard`: a frame, the echo that the detector then holds, and whether it sends a `BargeIn`.
pub data Report : Type 0 where
  heard : Microphone → Option EchoReference → Bool → Report
  took : Branch → List Output → Report

abbrev pub echo_inbox : List EchoReference → Inbox EchoReference
echo_inbox [] = waiting
echo_inbox (e ∷ es) = message e

abbrev pub interrupt_inbox : Option ℕ → Inbox ℕ
interrupt_inbox none = waiting
interrupt_inbox (some i) = message i

-- `barge_tx.try_send` on a channel of capacity one, with its result ignored.
abbrev pub try_send : ℕ → Option ℕ → Option ℕ
try_send i none = some i
try_send i (some j) = some j

abbrev pub raise : Bool → ℕ → Option ℕ → Option ℕ
raise true i p = try_send i p
raise false i p = p

abbrev pub rest_of : List EchoReference → List EchoReference
rest_of [] = []
rest_of (e ∷ es) = es

module _ (speaks : Microphone → Option EchoReference → Bool) where
  unfoldable pub listen : Heed → Vad → Room → Room × List Report
  listen (heeds_shutdown true) v r = (record r { detector = none }, [])
  listen (heeds_shutdown false) v r = (r, [])
  listen (heeds_echo echo) v r = (
    record r { detector = some (record v { latest_echo = some echo }); echoes = rest_of r.echoes },
    [],
  )
  listen (heeds_frame frame) v r =
      let (v', sends) = hear speaks frame v in
      (
        record r { detector = some v'; pending = raise sends frame.frame_sequence r.pending },
        heard frame v.latest_echo sends ∷ [],
      )
  listen heeds_nothing v r = (r, [])

abbrev pub echoes_of : List Output → List EchoReference
echoes_of [] = []
echoes_of (submits pcm n ∷ out) = echoes_of out
echoes_of (mirrors e ∷ out) = e ∷ echoes_of out

-- `recv` takes the interrupt out of its channel.
abbrev pub received : Branch → Option ℕ → Option ℕ
received (on_interrupt i) p = none
received b p = p

abbrev pub player_after : Flow → Option Sink
player_after (continues s) = some s
player_after leaves = none
player_after (fails e) = none

abbrev pub is_there : Option Vad → Bool
is_there none = false
is_there (some v) = true

unfoldable pub perform : Round → Sink → Branch → Room → Room × List Report
perform k s b r =
    let (flow, out) = sink_step k s b in
    (
      record r {
        player = player_after flow;
        echoes = r.echoes ++ echoes_of out;
        pending = received b r.pending;
      },
      took b out ∷ [],
    )

abbrev pub player_move : Round → Option Sink → Room → Room × List Report
player_move k none r = (r, [])
player_move k (some s) r =
    let k' : Round = record k {
      interrupt = interrupt_inbox r.pending;
      is_listening = is_there r.detector;
    } in
    perform k' s (select_sink k' s) r

module _ (speaks : Microphone → Option EchoReference → Bool) where
  abbrev pub detector_move : Listening → Option Vad → Room → Room × List Report
  detector_move l none r = (r, [])
  detector_move l (some v) r =
      listen speaks (select_vad (record l { echo = echo_inbox r.echoes })) v r

  unfoldable pub move : Move → Room → Room × List Report
  move (listens l) r = detector_move l r.detector r
  move (plays k) r = player_move k r.player r

  unfoldable pub run_room : List Move → Room → List Report
  run_room [] r = []
  run_room (m ∷ ms) r = let (r', reports) = move m r in reports ++ run_room ms r'
