-- ===== src/Wireless/Floss/Loops.antt =====
-- The polling loops of src/wireless/floss.rs end by their deadlines: the fuel is enough.
use native.Mathlib.Decide.{dec_le}
use dorsche.Base.{
  ◌<◌, host_rejected, peer_rejected, ℕ, zero, suc, ◌+◌, ◌*◌, ◌≡◌, ◌≤◌, refl, Bool, true, false, ◌∷◌,
  Option, none, some, Result, ok, err, leb_iff, arith, ℤ, pos,
}
use dorsche.Wireless.Types.Pcm.{PcmConfiguration}
use dorsche.Wireless.Floss.{
  FlossLeDirections, FlossLeDataPath, Call, Log, Bus, sleep, connect, get_host_stream_started,
  get_peer_stream_started, look_started, wait_until, wait_started, connect_until,
  connect_with_deadline, when, next_wait, next_connect, peer_start_audio_request,
  host_start_audio_request, get_host_pcm_config, get_peer_pcm_config, confirm,
}
use dorsche.Wireless.Floss.Start.{
  Started, start_streams, after_start, start_software_unicast, prepare, waited, after_peer,
  after_host, after_prepare, after_block, after_peer_pcm, connected, after_host_pcm, read_pcm,
}

-- The clock of `Instant`: it does not run backwards, and a sleep of 20 ms takes at least that long.
pub record IsClock (b : Bus) : Type 0 where
  pub steady : (c : Call) (log : Log) → b.now_ms log ≤ b.now_ms (c ∷ log)
  pub sleeps : (log : Log) → b.now_ms log + 20 ≤ b.now_ms (sleep ∷ log)

abbrev pub Returns {ℓ} : {A : Type ℓ} → Option A → Type ℓ
Returns {A = A} o = (x : A) × (o ≡ some x)

module _ (b : Bus) (d : FlossLeDirections) (clock : IsClock b) where
  when-now {ℓ} :
      {A : Type ℓ} (wanted : Bool) (answer : Result A) (call : Result A → Call) (default : A)
      (log : Log)
      → b.now_ms log ≤ b.now_ms (when wanted answer call default log).1
  when-now false answer call default log = omega arith
  when-now true answer call default log = clock.steady (call answer) log

  look-now : (log : Log) → b.now_ms log ≤ b.now_ms (look_started b d log).1
  unfolding look_started
  look-now log =
      let log' = (when d.host_to_peer (b.host_started log) get_host_stream_started (pos 1) log).1 in
      ground (
        arith,
        when-now d.host_to_peer (b.host_started log) get_host_stream_started (pos 1) log,
        when-now d.peer_to_host (b.peer_started log') get_peer_stream_started (pos 1) log',
      )

  next_wait-Returns :
      (deadline : ℕ) (x : Result Bool × Log) (rest : Option (Result (Unit {0}) × Log))
      → (b.now_ms x.1 < deadline → Returns rest)
      → Returns (next_wait b deadline x rest)
  next_wait-Returns deadline (err e, log) rest h = (_, refl)
  next_wait-Returns deadline (ok true, log) rest h = (_, refl)
  next_wait-Returns deadline (ok false, log) rest h = elim (dec_le deadline (b.now_ms log)) [
    | yes late ↦ rw ((leb_iff _ _).1 late) (_, refl)
    | no early ↦ let (x, e) = h (omega arith) in (x, ground arith)
  ]

  wait-Returns :
      (n deadline : ℕ) (log : Log)
      → deadline ≤ b.now_ms log + 20 * n
      → Returns (wait_until b d deadline (suc n) log)
  unfolding wait_until
  wait-Returns zero deadline log h =
      next_wait-Returns deadline (look_started b d log) none
        (λ early. absurd (omega (arith, look-now log)))
  wait-Returns (suc n) deadline log h =
      let log' = (look_started b d log).1 in
      next_wait-Returns deadline (look_started b d log) _ (λ early.
        wait-Returns n deadline (sleep ∷ log') (omega (arith, look-now log, clock.sleeps log')))

  next_connect-Returns :
      (deadline : ℕ) (x : Result (Unit {0}) × Log) (rest : Option (Result (Unit {0}) × Log))
      → (b.now_ms x.1 < deadline → Returns rest)
      → Returns (next_connect b deadline x rest)
  next_connect-Returns deadline (ok _, log) rest h = (_, refl)
  next_connect-Returns deadline (err e, log) rest h = elim (dec_le deadline (b.now_ms log)) [
    | yes late ↦ rw ((leb_iff _ _).1 late) (_, refl)
    | no early ↦ let (x, e) = h (omega arith) in (x, ground arith)
  ]

  connect-Returns :
      (n deadline : ℕ) (log : Log)
      → deadline ≤ b.now_ms log + 20 * n
      → Returns (connect_until b deadline (suc n) log)
  unfolding connect_until
  connect-Returns zero deadline log h =
      let log' = connect (b.socket log) ∷ log in
      next_connect-Returns deadline (b.socket log, log') none
        (λ early. absurd (omega (arith, clock.steady (connect (b.socket log)) log)))
  connect-Returns (suc n) deadline log h =
      let log' = connect (b.socket log) ∷ log in
      next_connect-Returns deadline (b.socket log, log') _
        (λ early.
          connect-Returns n deadline (sleep ∷ log')
            (omega (arith, clock.steady (connect (b.socket log)) log, clock.sleeps log')))

  connected-Returns :
      (host peer : Option PcmConfiguration) (o : Option (Result (Unit {0}) × Log))
      → Returns o
      → Returns (connected b d host peer o)
  connected-Returns host peer none (x, e) = cc
  connected-Returns host peer (some (ok _, log)) r = (_, refl)
  connected-Returns host peer (some (err e, log)) r = (_, refl)

  after_peer_pcm-Returns :
      (host : Option PcmConfiguration) (x : Result (Option PcmConfiguration) × Log)
      → Returns (after_peer_pcm b d host x)
  after_peer_pcm-Returns host (err e, log) = (_, refl)
  after_peer_pcm-Returns host (ok peer, log) =
      connected-Returns host peer (connect_with_deadline b log)
        (connect-Returns 250 (b.now_ms log + 5_000) log (omega arith))

  after_host_pcm-Returns :
      (x : Result (Option PcmConfiguration) × Log) → Returns (after_host_pcm b d x)
  after_host_pcm-Returns (err e, log) = (_, refl)
  after_host_pcm-Returns (ok host, log) =
      after_peer_pcm-Returns host (read_pcm d.peer_to_host (b.peer_pcm log) get_peer_pcm_config log)

  after_block-Returns : (s : Started) (r : Result (Unit {0})) → Returns (after_block b d s r)
  after_block-Returns s (err e) = (_, refl)
  after_block-Returns s (ok _) =
      after_host_pcm-Returns (read_pcm d.host_to_peer (b.host_pcm s.log) get_host_pcm_config s.log)

  waited-Returns :
      (o : Option (Result (Unit {0}) × Log)) → Returns o → Returns (after_start b d (waited d o))
  waited-Returns none (x, e) = cc
  waited-Returns (some (outcome, log)) r =
      let s : Started = record {
        outcome = outcome;
        host_started = d.host_to_peer;
        peer_started = d.peer_to_host;
        log = log;
      } in
      after_block-Returns s outcome

  after_peer-Returns : (x : Result (Unit {0}) × Log) → Returns (after_start b d (after_peer b d x))
  after_peer-Returns (err e, log) = (_, refl)
  after_peer-Returns (ok _, log) =
      waited-Returns (wait_started b d log)
        (wait-Returns 400 (b.now_ms log + 8_000) log (omega arith))

  after_host-Returns : (x : Result (Unit {0}) × Log) → Returns (after_start b d (after_host b d x))
  after_host-Returns (err e, log) = (_, refl)
  after_host-Returns (ok _, log) = after_peer-Returns (
      confirm peer_rejected
        (when d.peer_to_host (b.peer_start log) peer_start_audio_request true log))

  after_prepare-Returns : (x : Result (Unit {0}) × Log) → Returns (after_prepare b d x)
  unfolding start_streams
  after_prepare-Returns (err e, log) = (_, refl)
  after_prepare-Returns (ok _, log) = after_host-Returns (
      confirm host_rejected
        (when d.host_to_peer (b.host_start log) host_start_audio_request true log))

-- Whatever D-Bus and the socket answer, `start_software_unicast` returns: 401 looks at the streams
-- and 251 attempts to connect are enough for the deadlines of 8 and of 5 seconds, since the clock
-- does not run backwards and each sleep takes 20 ms or longer.
pub start_returns :
    (b : Bus) (group : ℤ) (d : FlossLeDirections) (log : Log)
    → IsClock b
    → (x : Result FlossLeDataPath × Log) × (start_software_unicast b group d log ≡ some x)
unfolding start_software_unicast
start_returns b group d log clock = after_prepare-Returns b d clock (prepare b group d log)
