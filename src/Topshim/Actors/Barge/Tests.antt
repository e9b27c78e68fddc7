-- ===== src/Topshim/Actors/Barge/Tests.antt =====
-- The actors of src/topshim/actors.rs on concrete rounds, and the examples of the theorems about them.
use dorsche.Base.{ℕ, ◌≡◌, refl, Bool, true, List, [], ◌∷◌, Option, none, some}
use dorsche.Topshim.Actors.{
  message, waiting, changed, unchanged, PlaybackReceipt, EchoReference, play,
}
use dorsche.Topshim.Actors.Sink.{
  Start, Round, on_interrupt, on_command, on_tick, no_branch, on_shutdown, select_sink, submits,
  mirrors, sink_step, play_next, play_frame, mirror, run_sink, new_sink, leaves,
}
use dorsche.Topshim.Actors.Sink.Playlist.{playlist, submitted, number_from, Mirrors, run_sink_plays}
use dorsche.Topshim.Actors.Vad.{Microphone, Listening, select_vad, hear, aligned}
use dorsche.Topshim.Actors.Barge.{
  Move, listens, plays, heard, took, listen, perform, move, run_room, new_room,
}
use dorsche.Topshim.Actors.Barge.Order.{Obeys, barge_in_order}

abbrev receipt : PlaybackReceipt
receipt = record { sequence = 100; presentation_time_ns = 5_000 }

abbrev echo : ℕ → EchoReference
echo pcm = record { pcm = pcm; playback_sequence = 100; presentation_time_ns = 5_000 }

abbrev utterance : Start
utterance = record { utterance_id = 1; frames = 7 ∷ 8 ∷ 9 ∷ [] }

-- A round in which the clock has ticked.
abbrev tick : Round
tick = record {
  shutdown = unchanged;
  interrupt = waiting;
  command = waiting;
  has_ticked = true;
  service = record { is_taken = true; reply = some receipt };
  is_listening = true;
}

abbrev rounds : List Round
rounds =
    record tick { command = message utterance }
    ∷ tick
    ∷ tick
    ∷ record tick { interrupt = message 4; command = message utterance }
    ∷ tick
    ∷ record tick { shutdown = changed true }
    ∷ []

played : run_sink rounds new_sink ≡ record {
  branches =
      on_command utterance ∷ on_tick ∷ on_tick ∷ on_interrupt 4 ∷ no_branch ∷ on_shutdown true ∷ [];
  outputs = submits 7 0 ∷ mirrors (echo 7) ∷ submits 8 1 ∷ mirrors (echo 8) ∷ [];
  ending = leaves;
}
unfolding run_sink select_sink sink_step play_next play_frame mirror play
played = refl

run_sink_plays_example :
    (submitted (run_sink rounds new_sink).outputs
      ≡ number_from 0 (playlist (run_sink rounds new_sink).branches))
    × Mirrors (run_sink rounds new_sink)
run_sink_plays_example = run_sink_plays rounds

abbrev frame : Microphone
frame = record { frame_sequence = 4; capture_time_ns = 6_000 }

abbrev always : Microphone → Option EchoReference → Bool
always f e = true

abbrev hearing : Listening
hearing = record { shutdown = unchanged; echo = waiting; microphone = message frame }

abbrev moves : List Move
moves =
    plays (record tick { command = message utterance })
    ∷ plays tick
    ∷ listens hearing
    ∷ listens hearing
    ∷ plays tick
    ∷ plays tick
    ∷ []

-- The echo comes before the frame, and the interrupt before the next tick.
interrupted :
    run_room always moves new_room
    ≡ took (on_command utterance) []
      ∷ took on_tick (submits 7 0 ∷ mirrors (echo 7) ∷ [])
      ∷ heard frame (some (echo 7)) true
      ∷ took (on_interrupt 4) []
      ∷ took no_branch []
      ∷ []
unfolding run_room move listen perform hear aligned select_vad select_sink sink_step play_next
    play_frame mirror play
interrupted = refl

barge_in_order_example : Obeys none none true (run_room always moves new_room)
barge_in_order_example = barge_in_order always moves
