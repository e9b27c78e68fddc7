-- ===== src/Wireless/Session/Tests.antt =====
-- Runs of the session actor, and the examples of the theorems about it.
use dorsche.Base.{
  ℕ, ◌≡◌, refl, inl, inr, List, [], ◌∷◌, some, ok, err, arith, session_stopped, clock_backwards,
  no_configuration,
}
use dorsche.Wireless.Types.Kinds.{le_unicast_software_encoding, is_offloaded, carries_host_payload}
use dorsche.Wireless.Types.Pcm
use dorsche.Wireless.Types.Audio.{pcm, validate_for}
use dorsche.Wireless.Types.Frame.{PresentationPosition}
use dorsche.Wireless.Types.Tests.{stereo}
use dorsche.Wireless.Session.{
  SessionState, configured, streaming, suspended, SessionEvent, state_changed,
  configuration_changed, position_changed, Command, configure, start, stop, update_position, close,
  Session, initial, Channel, emit, try_configure, try_update, handle, running, ended, System, unit,
  spawn, call, run,
}
use dorsche.Wireless.Session.Coherence.{IsCoherent, run-IsCoherent}
use dorsche.Wireless.Session.Transitions.{starts, at, Accepted, call_refines, refused_unchanged}
use dorsche.Wireless.Session.Replay.{observe, run-observe}
use dorsche.Wireless.Session.Clock.{Clocked, run-Clocked}
use dorsche.Wireless.Session.Delivery.{run_keeps_running, close_is_final}

abbrev position : ℕ → PresentationPosition
position n = record { remote_delay_ns = 0; transmitted_octets = n; monotonic_time_ns = n }

abbrev playing : List Command
playing =
    configure (pcm stereo)
    ∷ start
    ∷ update_position (position 7)
    ∷ update_position (position 3)
    ∷ []

abbrev session_in : SessionState → ℕ → Session
session_in s n = record { state = s; configuration = some (pcm stereo); position = position n }

abbrev channel : ℕ → List SessionEvent → Channel
channel n es = record { room = n; delivered = es }

abbrev told : List SessionEvent
told =
    configuration_changed (pcm stereo)
    ∷ state_changed configured
    ∷ state_changed streaming
    ∷ position_changed (position 7)
    ∷ []

abbrev played : System
played = record { task = running (session_in streaming 7); channel = channel 4 told }

-- The second position is refused: its clock runs backwards.
playing-run : run le_unicast_software_encoding playing (spawn 8) ≡ played
unfolding run call handle emit try_configure try_update validate_for Pcm.validate is_offloaded
    carries_host_payload
playing-run = refl

backwards_refused :
    call le_unicast_software_encoding (update_position (position 3)) played
    ≡ (err clock_backwards, played)
unfolding call handle try_update carries_host_payload is_offloaded
backwards_refused = refl

playing_task :
    (run le_unicast_software_encoding playing (spawn 8)).task ≡ running (session_in streaming 7)
unfolding run call handle emit try_configure try_update validate_for Pcm.validate is_offloaded
    carries_host_payload
playing_task = refl

run-observe_example :
    observe initial (run le_unicast_software_encoding playing (spawn 8)).channel.delivered
    ≡ session_in streaming 7
run-observe_example =
    run-observe le_unicast_software_encoding playing 8 (session_in streaming 7) playing_task

run-IsCoherent_example : IsCoherent le_unicast_software_encoding (session_in streaming 7)
run-IsCoherent_example =
    run-IsCoherent le_unicast_software_encoding playing 8 (session_in streaming 7) playing_task

run-Clocked_example :
    Clocked
      (carries_host_payload le_unicast_software_encoding)
      initial
      (run le_unicast_software_encoding playing (spawn 8)).channel.delivered
run-Clocked_example = run-Clocked le_unicast_software_encoding playing 8

run_keeps_running_example :
    (s : Session) × ((run le_unicast_software_encoding playing (spawn 8)).task ≡ running s)
run_keeps_running_example =
    run_keeps_running le_unicast_software_encoding playing 8 (tt, (tt, (tt, (tt, tt))))
      (omega arith)

closed_session_stays_closed :
    let (a, sys) =
      call le_unicast_software_encoding close (at (session_in streaming 7) (channel 4 told)) in
    (a ≡ ok unit)
    × (sys.task ≡ ended (ok tt))
    × (run le_unicast_software_encoding (start ∷ []) sys ≡ sys)
    × (call le_unicast_software_encoding stop (run le_unicast_software_encoding (start ∷ []) sys)
        ≡ (err session_stopped, sys))
closed_session_stays_closed =
    close_is_final le_unicast_software_encoding (session_in streaming 7) (channel 4 told)
      (start ∷ []) stop (omega arith)

suspended-IsCoherent : IsCoherent le_unicast_software_encoding (session_in suspended 7)
unfolding is_offloaded carries_host_payload
suspended-IsCoherent = record {
  configured = (
    refl,
    record {
      rate = inr (inr (inr (inr (inr (inl refl)))));
      width = inl refl;
      channels_low = omega arith;
      channels_high = omega arith;
      interval = omega arith;
    },
  );
  fresh = λ h. cc;
  host_octets = λ h. cc;
}

call_refines_example :
    Accepted
      (call le_unicast_software_encoding start (at (session_in suspended 7) (channel 4 told)))
      (session_in streaming 7)
call_refines_example =
    (call_refines le_unicast_software_encoding start (session_in suspended 7)
        (session_in streaming 7) (channel 4 told) suspended-IsCoherent (omega arith)).0
      (starts (inr refl))

start_refused : (call le_unicast_software_encoding start (spawn 8)).0 ≡ err no_configuration
unfolding call handle
start_refused = refl

refusal_unchanged : (call le_unicast_software_encoding start (spawn 8)).1 ≡ spawn 8
refusal_unchanged =
    refused_unchanged le_unicast_software_encoding start (spawn 8) (λ h. cc (h, start_refused))
      (λ h. cc (h, start_refused))
