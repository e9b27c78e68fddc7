-- ===== src/Wireless/Floss/Rollback.antt =====
-- What `start_software_unicast` of src/wireless/floss.rs leaves open, on success and on every error.
use dorsche.Base.{
  ◌+◌, ◌≡◌, ◌⊎◌, refl, subst, Bool, true, false, Option, none, some, Result, ok, err, ◌>>=◌,
  bind_passed, arith, ℤ, Result-cases, inl, inr, host_rejected, peer_rejected,
}
use dorsche.Wireless.Types.Pcm
use dorsche.Wireless.Types.Pcm.{PcmConfiguration}
use dorsche.Wireless.Floss.{
  FlossLeDirections, FlossLeDataPath, PropertyMap, Log, Bus, host_start_audio_request,
  peer_start_audio_request, get_host_pcm_config, get_peer_pcm_config, when, confirm, wait_started,
  connect_with_deadline, parse_pcm_config,
}
use dorsche.Wireless.Floss.Start.{
  Started, waited, after_peer, after_host, start_streams, read_pcm, connected, after_peer_pcm,
  after_host_pcm, after_block, after_start, prepare, after_prepare, start_software_unicast,
}
use dorsche.Wireless.Floss.Opened.{
  Open, Leaves, wait-Leaves, connect-Leaves, stop-Open, prepare-Open,
}

-- A PCM configuration stands exactly where its direction is wanted, and the ABI supports it.
abbrev pub HasPcm : Bool → Option PcmConfiguration → Type 0
HasPcm false none = Unit
HasPcm false (some c) = ⊥
HasPcm true none = ⊥
HasPcm true (some c) = Pcm.validate c ≡ ok tt

-- A path on success, with the wanted directions open. On an error nothing is open, but for one that
-- comes with the answer to a PCM request: it leaves all wanted directions open.
abbrev pub Outcome : FlossLeDirections → Result FlossLeDataPath × Log → Type 0
Outcome d (ok p, log) =
    Open d.host_to_peer d.peer_to_host false log
    × (p.directions ≡ d)
    × (p.stream ≡ true)
    × (p.stopped ≡ false)
    × HasPcm d.host_to_peer p.host_pcm
    × HasPcm d.peer_to_host p.peer_pcm
Outcome d (err e, log) = Open false false false log ⊎ Open d.host_to_peer d.peer_to_host true log

abbrev Ends : FlossLeDirections → Option (Result FlossLeDataPath × Log) → Type 0
Ends d none = Unit
Ends d (some x) = Outcome d x

abbrev Read : Bool → Bool → Bool → Result (Option PcmConfiguration) × Log → Type 0
Read h p wanted (err e, log) = Open h p true log
Read h p wanted (ok c, log) = HasPcm wanted c × ((a : Bool) × Open h p a log)

parsed_valid :
    (m : PropertyMap) (c : PcmConfiguration) → parse_pcm_config m ≡ ok c → Pcm.validate c ≡ ok tt
unfolding parse_pcm_config
parsed_valid m c e = ground arith

Read-answer :
    (h p : Bool) (answer : Result PropertyMap) (log : Log)
    → Open h p true log
    → Read h p true (answer >>= λ m. parse_pcm_config m >>= λ c. ok (some c), log)
Read-answer h p answer log o =
    elim (Result-cases (answer >>= λ m. parse_pcm_config m >>= λ c. ok (some c))) [
      | inr (x, e) ↦ rw e o
      | inl (found, e) ↦
          let (m, _, from_m) =
            bind_passed answer (λ m. parse_pcm_config m >>= λ c. ok (some c)) e in
          let (c, valid, same) = bind_passed (parse_pcm_config m) (λ c. ok (some c)) from_m in
          let good : HasPcm true (some c) = parsed_valid m c valid in
          let found_same : some c ≡ found = ground arith in
          rw e (subst (HasPcm true) found_same good, (true, o))
    ]

Read-host :
    (h p wanted : Bool) (answer : Result PropertyMap) (log : Log) {a : Bool}
    → Open h p a log
    → Read h p wanted (read_pcm wanted answer get_host_pcm_config log)
Read-host h p false answer log {a} o = (tt, (a, o))
Read-host h p true answer log o =
    Read-answer h p answer _ (record { host = o.host; peer = o.peer; asked = refl })

Read-peer :
    (h p wanted : Bool) (answer : Result PropertyMap) (log : Log) {a : Bool}
    → Open h p a log
    → Read h p wanted (read_pcm wanted answer get_peer_pcm_config log)
Read-peer h p false answer log {a} o = (tt, (a, o))
Read-peer h p true answer log o =
    Read-answer h p answer _ (record { host = o.host; peer = o.peer; asked = refl })

abbrev Asked : Bool → Bool → Result (Unit {0}) × Log → Type 0
Asked h p (ok _, log) = Open h p false log
Asked h p (err e, log) = Open false false false log

confirm_host :
    (wanted : Bool) (answer : Result Bool) (log : Log)
    → Open false false false log
    → Asked wanted false
        (confirm host_rejected (when wanted answer host_start_audio_request true log))
confirm_host false answer log o = o
confirm_host true (err e) log o = record { host = o.host; peer = o.peer; asked = refl }
confirm_host true (ok true) log o = record { host = refl; peer = o.peer; asked = refl }
confirm_host true (ok false) log o = record { host = o.host; peer = o.peer; asked = refl }

abbrev Answered : Bool → Bool → Result (Unit {0}) × Log → Type 0
Answered h p (ok _, log) = Open h p false log
Answered h p (err e, log) = Open h false false log

confirm_peer :
    (h wanted : Bool) (answer : Result Bool) (log : Log)
    → Open h false false log
    → Answered h wanted
        (confirm peer_rejected (when wanted answer peer_start_audio_request true log))
confirm_peer h false answer log o = o
confirm_peer h true (err e) log o = record { host = o.host; peer = o.peer; asked = refl }
confirm_peer h true (ok true) log o = record { host = o.host; peer = refl; asked = refl }
confirm_peer h true (ok false) log o = record { host = o.host; peer = o.peer; asked = refl }

module _ (b : Bus) (d : FlossLeDirections) where
  connected-Ends :
      (host peer : Option PcmConfiguration) (o : Option (Result (Unit {0}) × Log))
      → HasPcm d.host_to_peer host
      → HasPcm d.peer_to_host peer
      → Leaves b d d.host_to_peer d.peer_to_host o
      → Ends d (connected b d host peer o)
  connected-Ends host peer none i j l = tt
  connected-Ends host peer (some (ok _, log)) i j l = (l, refl, refl, refl, i, j)
  connected-Ends host peer (some (err e, log)) i j l =
      inl (stop-Open b d d.host_to_peer d.peer_to_host log l)

  after_peer_pcm-Ends :
      (host : Option PcmConfiguration) (x : Result (Option PcmConfiguration) × Log)
      → HasPcm d.host_to_peer host
      → Read d.host_to_peer d.peer_to_host d.peer_to_host x
      → Ends d (after_peer_pcm b d host x)
  after_peer_pcm-Ends host (err e, log) i r = inr r
  after_peer_pcm-Ends host (ok peer, log) i (j, (a, o)) =
      connected-Ends host peer (connect_with_deadline b log) i j
        (connect-Leaves b d d.host_to_peer d.peer_to_host (b.now_ms log + 5_000) 251 log o)

  after_host_pcm-Ends :
      (x : Result (Option PcmConfiguration) × Log)
      → Read d.host_to_peer d.peer_to_host d.host_to_peer x
      → Ends d (after_host_pcm b d x)
  after_host_pcm-Ends (err e, log) r = inr r
  after_host_pcm-Ends (ok host, log) (i, (a, o)) =
      after_peer_pcm-Ends host (read_pcm d.peer_to_host (b.peer_pcm log) get_peer_pcm_config log) i
        (Read-peer d.host_to_peer d.peer_to_host d.peer_to_host (b.peer_pcm log) log o)

  after_block-Ends :
      (s : Started) (r : Result (Unit {0}))
      → Open s.host_started s.peer_started false s.log
      → (r ≡ ok tt → Open d.host_to_peer d.peer_to_host false s.log)
      → Ends d (after_block b d s r)
  after_block-Ends s (err e) o k = inl (stop-Open b d s.host_started s.peer_started s.log o)
  after_block-Ends s (ok _) o k =
      after_host_pcm-Ends (read_pcm d.host_to_peer (b.host_pcm s.log) get_host_pcm_config s.log)
        (Read-host d.host_to_peer d.peer_to_host d.host_to_peer (b.host_pcm s.log) s.log (k refl))

  waited-Ends :
      (o : Option (Result (Unit {0}) × Log))
      → Leaves b d d.host_to_peer d.peer_to_host o
      → Ends d (after_start b d (waited d o))
  waited-Ends none l = tt
  waited-Ends (some (outcome, log)) l =
      let s : Started = record {
        outcome = outcome;
        host_started = d.host_to_peer;
        peer_started = d.peer_to_host;
        log = log;
      } in
      after_block-Ends s outcome l (λ _. l)

  after_peer-Ends :
      (x : Result (Unit {0}) × Log)
      → Answered d.host_to_peer d.peer_to_host x
      → Ends d (after_start b d (after_peer b d x))
  after_peer-Ends (err e, log) o = inl (stop-Open b d d.host_to_peer false log o)
  after_peer-Ends (ok _, log) o =
      waited-Ends (wait_started b d log)
        (wait-Leaves b d d.host_to_peer d.peer_to_host (b.now_ms log + 8_000) 401 log o)

  after_host-Ends :
      (x : Result (Unit {0}) × Log)
      → Asked d.host_to_peer false x
      → Ends d (after_start b d (after_host b d x))
  after_host-Ends (err e, log) o = inl (stop-Open b d false false log o)
  after_host-Ends (ok _, log) o =
      after_peer-Ends _ (confirm_peer d.host_to_peer d.peer_to_host (b.peer_start log) log o)

  after_prepare-Ends :
      (x : Result (Unit {0}) × Log) → Open false false false x.1 → Ends d (after_prepare b d x)
  unfolding start_streams
  after_prepare-Ends (err e, log) o = inl o
  after_prepare-Ends (ok _, log) o =
      after_host-Ends _ (confirm_host d.host_to_peer (b.host_start log) log o)

-- `start_software_unicast`, called while no direction is open and not right after a PCM request: on
-- success exactly the wanted directions are open, the path has its stream, and each wanted direction
-- a supported PCM configuration. On an error every direction that was started is asked
-- to stop again, unless the error comes with the answer to a PCM request: then all wanted directions
-- stay open.
pub start_rolls_back :
    (b : Bus) (group : ℤ) (d : FlossLeDirections) (log : Log) (x : Result FlossLeDataPath × Log)
    → Open false false false log
    → start_software_unicast b group d log ≡ some x
    → Outcome d x
unfolding start_software_unicast
start_rolls_back b group d log x o e =
    subst (Ends d) e
      (after_prepare-Ends b d (prepare b group d log) (prepare-Open b d false false group log o))
