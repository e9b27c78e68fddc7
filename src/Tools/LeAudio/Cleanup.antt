-- ===== src/Tools/LeAudio/Cleanup.antt =====
-- What src/bin/floss_le_audio_smoke.rs leaves open at Floss.
use dorsche.Base.{
  ℕ, ◌≡◌, refl, sym, subst, ap, ◌∙◌, false, Option, none, some, Result, ok, err, ◌>>=◌, ℤ,
}
use dorsche.Wireless.Types.Pcm.{PcmConfiguration}
use dorsche.Wireless.Floss.{FlossLeDataPath, Log, Bus, stop}
use dorsche.Wireless.Floss.Start.{start_software_unicast}
use dorsche.Wireless.Floss.Opened.{Open}
use dorsche.Wireless.Floss.Rollback.{HasPcm, start_rolls_back}
use dorsche.Wireless.Floss.Stop.{Stopping, start_then_stop}
use dorsche.Tools.PipeWire.{Ending, panics, returns}
use dorsche.Tools.PipeWire.Cleanup.{HasPcm-some, taken, take_stream-taken}
use dorsche.Tools.LeAudio.{
  Mode, output, input, duplex, mode_directions, Transfers, try_join, unwrap, finish_stream,
  after_join, transfer, after_stream, after_unicast, run_le_audio,
}

-- `main` has stopped the path in the end, or has panicked with the transfer and asked nothing more.
abbrev pub Stops : Mode → Bus → Log → Option (Result ℕ) → Ending → Type 0
Stops m b log none x = x ≡ panics log
Stops m b log (some io) x =
    (s : Result (Unit {0}) × Log) × Stopping (mode_directions m) (b.proxy log) log s
    × (x ≡ returns (io >>= (λ bytes. s.0)) s.1)

-- After a joined transfer: an error of it also asks nothing more.
abbrev pub Joins : Bus → Log → Option (Result ℕ) → Ending → Type 0
Joins b log none x = x ≡ panics log
Joins b log (some (err e)) x = x ≡ returns (err e) log
Joins b log (some (ok bytes)) x = Stops duplex b log (some (ok bytes)) x

-- The end of `main` in a mode, with the configurations that it uses.
abbrev pub EndsIn : Mode → Transfers → Bus → FlossLeDataPath → Log → Ending → Type 0
EndsIn output t b p log x =
    (c : PcmConfiguration) × (p.host_pcm ≡ some c) × Stops output b log (t.write_tone c) x
EndsIn input t b p log x =
    (c : PcmConfiguration) × (p.peer_pcm ≡ some c) × Stops input b log (t.capture_peer c) x
EndsIn duplex t b p log x =
    (host : PcmConfiguration) × (peer : PcmConfiguration) × (p.host_pcm ≡ some host)
    × (p.peer_pcm ≡ some peer)
    × Joins b log (try_join t.tone_fails_first (t.write_tone host) (t.capture_peer peer)) x

unwrap_found :
    (P : Ending → Type 0) (log : Log) {o : Option PcmConfiguration} {c : PcmConfiguration}
    (next : PcmConfiguration → Ending)
    → o ≡ some c
    → P (next c)
    → P (unwrap log o next)
unwrap_found P log next e h = subst (λ o. P (unwrap log o next)) (sym e) h

module _ (m : Mode) (b : Bus) (p : FlossLeDataPath) (log : Log)
    (stopped : Stopping (mode_directions m) (b.proxy log) log (stop b p log)) where
  finish_stream-Stops :
      (io : Option (Result ℕ)) → Stops m b log io (finish_stream b (taken p) log io)
  unfolding finish_stream stop
  finish_stream-Stops none = refl
  finish_stream-Stops (some io) = (stop b p log, stopped, refl)

after_join-Joins :
    (b : Bus) (p : FlossLeDataPath) (log : Log)
    → Stopping (mode_directions duplex) (b.proxy log) log (stop b p log)
    → (io : Option (Result ℕ)) → Joins b log io (after_join b (taken p) log io)
unfolding after_join
after_join-Joins b p log stopped none = refl
after_join-Joins b p log stopped (some (err e)) = refl
after_join-Joins b p log stopped (some (ok bytes)) =
    finish_stream-Stops duplex b p log stopped (some (ok bytes))

transfer-EndsIn :
    (m : Mode) (t : Transfers) (b : Bus) (p : FlossLeDataPath) (log : Log)
    → Stopping (mode_directions m) (b.proxy log) log (stop b p log)
    → HasPcm (mode_directions m).host_to_peer p.host_pcm
    → HasPcm (mode_directions m).peer_to_host p.peer_pcm
    → EndsIn m t b p log (transfer m t b (taken p) log)
unfolding transfer
transfer-EndsIn output t b p log stopped host peer =
    let (c, found) = HasPcm-some p.host_pcm host in
    (
      c,
      found,
      unwrap_found (Stops output b log (t.write_tone c)) log _ found
          (finish_stream-Stops output b p log stopped (t.write_tone c)),
    )
transfer-EndsIn input t b p log stopped host peer =
    let (c, found) = HasPcm-some p.peer_pcm peer in
    (
      c,
      found,
      unwrap_found (Stops input b log (t.capture_peer c)) log _ found
          (finish_stream-Stops input b p log stopped (t.capture_peer c)),
    )
transfer-EndsIn duplex t b p log stopped host peer =
    let (c, found) = HasPcm-some p.host_pcm host in
    let (c', found') = HasPcm-some p.peer_pcm peer in
    let joined = try_join t.tone_fails_first (t.write_tone c) (t.capture_peer c') in
    (
      c,
      c',
      found,
      found',
      unwrap_found (Joins b log joined) log _ found (
          unwrap_found (Joins b log joined) log _ found' (after_join-Joins b p log stopped joined)),
    )

-- Once Floss has started the directions of the mode, with nothing open before, just these are open and
-- `main` comes to an end; no `unwrap` of it panics. If a transfer panics, or the sum of two
-- overflows, it asks nothing more and all stays open. A single transfer else ends with a stop, be it with
-- an error, which comes before that of the stop: the requests of the mode are sent if the proxy is there. Two
-- transfers at once do so if both succeed; if one fails, `main` fails with that error, asks nothing
-- more, and both directions stay open.
pub run_le_audio-EndsIn :
    (m : Mode) (t : Transfers) (b : Bus) (group : ℤ) (log log' : Log) (p : FlossLeDataPath)
    → Open false false false log
    → start_software_unicast b group (mode_directions m) log ≡ some (ok p, log')
    → Open (mode_directions m).host_to_peer (mode_directions m).peer_to_host false log'
      × (x : Ending) × (run_le_audio m t b group log ≡ some x)
      × EndsIn m t b p log' x
unfolding run_le_audio after_unicast after_stream
run_le_audio-EndsIn m t b group log log' p quiet started =
    let (open_now, same, stream, running, host, peer) =
      start_rolls_back b group (mode_directions m) log (ok p, log') quiet started in
    let stopped = start_then_stop b group (mode_directions m) log log' p quiet started in
    (
      open_now,
      transfer m t b (taken p) log',
      ap (after_unicast m t b) started
          ∙ ap (λ x. some (after_stream m t b log' x)) (take_stream-taken p stream),
      transfer-EndsIn m t b p log' stopped.1 host peer,
    )
