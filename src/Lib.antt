-- ===== src/Lib.antt =====
-- The wireless audio service of this repository: the session actor, its configuration types, the
-- capability registry, the shared-memory ring that carries media between processes, the client of
-- Floss, the PipeWire adapter, the actors around the C++ core and its frames, and the command-line
-- tools that use them.
--
-- How the parts interact. A client asks the registry (Wireless/Provider) for a provider that serves
-- its session type and codec, spawns a session actor (Wireless/Session), configures and starts it
-- with a configuration that the validators accept (Wireless/Types), and moves media through a ring
-- in shared memory (Wireless/DataPlane) whose frames carry the descriptors of Wireless/Types/Frame.
-- The PipeWire callbacks (Wireless/PipeWire) stand on the two ends of such a ring; the PipeWire tool
-- (Tools/PipeWire) starts a stream with the Floss client (Wireless/Floss), makes the ring and stops the
-- stream in the end. In the voice path (Topshim/Actors) the playback sink sends the detector an echo of
-- each frame that it plays, and the detector sends back an interrupt when somebody speaks.
--
-- Files and code.
--   Base                 errors as a `Result` with one constructor for each message, Boolean tests,
--                        lists over the native numbers, two facts on bit masks
--   Wireless/Types       src/wireless/types.rs: enums, PCM, LC3, ISO and broadcast configurations
--                        with their `validate` functions, frame descriptors
--   Wireless/Session     src/wireless/session.rs: `spawn_session` as `handle` on one command, its
--                        `SessionHandle` as `call`, its event channel as `emit`
--   Wireless/Provider    src/wireless/provider.rs: `CapabilityRegistry` and `SoftwareLc3Provider`
--   Wireless/DataPlane   src/wireless/data_plane.rs: `Layout` has the header, `RingPair::create`
--                        and `validate_header`; `Ring` the two endpoints; `Queue` what they promise;
--                        `System` the wakeups; `Owned` has `RingPair::create`, `into_descriptor` and
--                        `from_descriptor` again, as system calls and what they leave open
--   Wireless/Floss       src/wireless/floss.rs: its two polling loops, `FlossLeDataPath`, and in `Start`
--                        `start_software_unicast` stage by stage
--   Wireless/PipeWire    src/wireless/pipewire.rs: the `process` callbacks of `run_sink` and
--                        `run_source`; `Stream` is what they should do together; `Node` has the
--                        calls around the callbacks and `format_pod`, with `probe_server`
--   Topshim/Actors       src/topshim/actors.rs: `Sink` has `run_playback_sink` and `Vad`
--                        `run_vad_ai`, a round of their `select!` at a time; `Barge` both with the
--                        channels that src/main.rs makes between them; `Proxy` has the loop of
--                        `run_controller_proxy`, `Microphone` has `run_microphone_capture`
--   Tools/Hfp            src/bin/floss_hfp_smoke.rs: `Delay` has the playback half of
--                        `exercise_loopback`, `Capture` its capture half, `Stats` has `CaptureStats`,
--                        `Duplex` has `exercise_full_duplex`, `Call` has `main` and
--                        `connect_sco_uipc`
--   Tools/PipeWire       src/bin/dorsche_pipewire.rs: `main` after its arguments; `ToHost` has
--                        `pump_ring_to_host` and `FromPeer` has `pump_peer_to_ring`, each in
--                        interleaved steps with the PipeWire callback at the other end of its ring
--   Tools/LeAudio        src/bin/floss_le_audio_smoke.rs: `main` from the start of the stream on,
--                        `capture_peer` in `Capture`, `write_tone` in `Tone`, and `write_sample` and
--                        `decode_samples` in `Samples`
--   Tools/A2dp           src/bin/floss_audio_smoke.rs: `main` after its arguments, with
--                        `stop_existing_stream`; `Feed` has `write_test_tone` and `write_pcm_file`,
--                        `Polls` has `wait_for_audio_state`
--   Tools/Args           the four tools' `Args::parse`, on one loop over the command line
--   Topshim/Frame        src/topshim/frame.rs: `SharedPcmFrame::from_cpp` and `wait_for_fence`
--
-- Numbers. Fields of a fixed width are natural numbers; where the width matters it is a hypothesis
-- (`IsInRange`, `IsValid`) or is written out (`% 2 ^ 64`, `wrapping_sub`). `usize` has 64 bits.
-- Loops over data are structural recursion. The two polling loops of Wireless/Floss run on fuel, 401
-- rounds for 8 seconds and 251 for 5, with at least 20 ms a round, so that the deadline
-- comes first; `connect_sco_uipc` repeats at most 150 times for 3 seconds, likewise, and
-- `wait_for_audio_state` asks at most 151 times. The drain of the
-- delay line has as much fuel as the line has bytes, and takes at least one a round.
--
-- Outside. The operating system is a parameter: `Kernel` has the answers that `RingPair::create`
-- gets, `signal` is the answer of the eventfd write; in `Owned` the kernel answers from the log of all calls
-- before, and an early return drops what is owned, backwards. An endpoint of the ring takes each operation
-- in one step: the memory orderings of the atomic cursors are not modelled, and neither is waiting,
-- be it on the eventfd or on a full channel. The event receiver of a session takes `room` more
-- events and is then gone. D-Bus, the socket and the clock are `Bus`: every answer may depend on all
-- calls before it. The hands-free and the A2DP tool ask each thing once, so that their environments are
-- records of answers. A direction counts as open from an accepted start request to the next stop
-- request, whatever it is answered: what Floss does with a failed one is not modelled. Sound is bytes
-- and addresses of blocks: the gain of the loopback, the test for speech
-- and the sines, which are on floats, are parameters, as is `str::parse` on the numbers of a
-- command line. An actor's round is given what its channels have ready; a send
-- on the echo channel does not wait.
--
-- Not modelled: the D-Bus proxy itself, with the two queries of `group_status`; PipeWire's main loop and its
-- serialized pods; the floats of the tones and of the level statistics, and the pacing of writes;
-- `connect_uipc` of the A2DP tool; the construction of the C++ controller and the wiring of src/main.rs but
-- for the channels of the voice path; the bridge to the C++ core and that core; third-party code,
-- scripts and patches.
pub mod Base
pub mod Wireless
pub mod Tools
pub mod Topshim
