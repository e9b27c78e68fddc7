-- ===== src/Wireless/Floss/Stop.antt =====
-- `FlossLeDataPath::stop` of src/wireless/floss.rs.
use dorsche.Base.{
  ◌≡◌, refl, Bool, true, false, [], ◌∷◌, ◌++◌, Result, ok, err, some, inl, inr, subst, Result-cases,
  ℤ,
}
use dorsche.Wireless.Floss.{
  FlossLeDirections, FlossLeDataPath, Log, Bus, host_stop_audio_request, peer_stop_audio_request,
  when, first_error, stop,
}
use dorsche.Wireless.Floss.Start.{start_software_unicast}
use dorsche.Wireless.Floss.Opened.{Open}
use dorsche.Wireless.Floss.Rollback.{start_rolls_back}

-- The requests for the wanted directions, host and peer, with their answers, the last one first.
abbrev pub stop_calls : Bool → Bool → Result (Unit {0}) → Result (Unit {0}) → Log
stop_calls true true host peer = host_stop_audio_request host ∷ peer_stop_audio_request peer ∷ []
stop_calls true false host peer = host_stop_audio_request host ∷ []
stop_calls false true host peer = peer_stop_audio_request peer ∷ []
stop_calls false false host peer = []

-- The error of the peer's request, else that of the host's.
abbrev pub stop_error : Bool → Bool → Result (Unit {0}) → Result (Unit {0}) → Result (Unit {0})
stop_error host_wanted true host (err e) = err e
stop_error true true host (ok _) = host
stop_error true false host peer = host
stop_error false true host (ok _) = ok tt
stop_error false false host peer = ok tt

-- What a stop with this answer for its proxy has asked and gives: nothing without the proxy, and with it
-- a request for each direction, whatever the other one answers.
abbrev pub Stopping : FlossLeDirections → Result (Unit {0}) → Log → Result (Unit {0}) × Log → Type 0
Stopping d (err e) log (r, log') = (r ≡ err e) × (log' ≡ log)
Stopping d (ok _) log (r, log') =
    (host : Result (Unit {0})) × (peer : Result (Unit {0})) × (log'
      ≡ stop_calls d.host_to_peer d.peer_to_host host peer ++ log)
    × (r ≡ stop_error d.host_to_peer d.peer_to_host host peer)

asked-Stopping :
    (b : Bus) (h p : Bool) (log : Log)
    → let x = when p (b.peer_stop log) peer_stop_audio_request tt log in
      let y = when h (b.host_stop x.1) host_stop_audio_request tt x.1 in
      (host : Result (Unit {0})) × (peer : Result (Unit {0})) × (y.1
        ≡ stop_calls h p host peer ++ log)
      × (first_error x.0 y.0 ≡ stop_error h p host peer)
asked-Stopping b true true log =
    let log' = peer_stop_audio_request (b.peer_stop log) ∷ log in
    (b.host_stop log', b.peer_stop log, refl, both_lem (b.host_stop log') (b.peer_stop log))
  where
    both_lem :
        (host peer : Result (Unit {0})) → first_error peer host ≡ stop_error true true host peer
    both_lem host (ok _) = refl
    both_lem host (err e) = refl
asked-Stopping b true false log = (b.host_stop log, ok tt, refl, refl)
asked-Stopping b false true log = (ok tt, b.peer_stop log, refl, peer_lem (b.peer_stop log))
  where
    peer_lem :
        (peer : Result (Unit {0})) → first_error peer (ok tt) ≡ stop_error false true (ok tt) peer
    peer_lem (ok _) = refl
    peer_lem (err e) = refl
asked-Stopping b false false log = (ok tt, ok tt, refl, refl)

pub stop-Stopping :
    (b : Bus) (p : FlossLeDataPath) (log : Log)
    → Stopping p.directions (b.proxy log) log (stop b p log)
unfolding stop
stop-Stopping b p log = elim (Result-cases (b.proxy log)) [
  | inl (_, e) ↦
      rw (e, stop) (asked-Stopping b p.directions.host_to_peer p.directions.peer_to_host log)
  | inr (x, e) ↦ rw (e, stop) (refl, refl)
]

-- A successful start, with nothing open before, leaves just the wanted directions open. The stop after it asks
-- for each of them once, the peer first, even where the first request fails; its result is the first
-- error, so that it succeeds only if all these requests do. Without its proxy it fails and asks nothing.
pub start_then_stop :
    (b : Bus) (group : ℤ) (d : FlossLeDirections) (log log' : Log) (p : FlossLeDataPath)
    → Open false false false log
    → start_software_unicast b group d log ≡ some (ok p, log')
    → Open d.host_to_peer d.peer_to_host false log' × Stopping d (b.proxy log') log' (stop b p log')
start_then_stop b group d log log' p quiet started =
    let (open_now, same, stream, running, host, peer) =
      start_rolls_back b group d log (ok p, log') quiet started in
    (
      open_now,
      subst (λ d. Stopping d (b.proxy log') log' (stop b p log')) same (stop-Stopping b p log'),
    )
