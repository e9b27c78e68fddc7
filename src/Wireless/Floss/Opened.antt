-- ===== src/Wireless/Floss/Opened.antt =====
-- Which directions a log of src/wireless/floss.rs leaves open at Floss.
use dorsche.Base.{
  ℕ, zero, suc, ◌≡◌, refl, Bool, true, false, ◌||◌, [], ◌∷◌, Option, none, some, Result, ok, err,
  arith, ℤ,
}
use dorsche.Wireless.Floss.{
  FlossLeDirections, Log, Bus, host_start_audio_request, peer_start_audio_request,
  get_host_pcm_config, get_peer_pcm_config, host_stop_audio_request, peer_stop_audio_request,
  connect, sleep, stop_directions, look_started, next_wait, wait_until, next_connect, connect_until,
  validate,
}
use dorsche.Wireless.Floss.Start.{prepare}

abbrev pub agreed : Result Bool → Bool
agreed (ok granted) = granted
agreed (err e) = false

-- A direction counts as open from a start request that Floss agreed to until the next stop request,
-- whatever that stop request is answered.
abbrev pub host_open : Log → Bool
host_open [] = false
host_open (host_start_audio_request a ∷ log) = agreed a || host_open log
host_open (host_stop_audio_request a ∷ log) = false
host_open (c ∷ log) = host_open log

abbrev pub peer_open : Log → Bool
peer_open [] = false
peer_open (peer_start_audio_request a ∷ log) = agreed a || peer_open log
peer_open (peer_stop_audio_request a ∷ log) = false
peer_open (c ∷ log) = peer_open log

-- The last call asked for a PCM configuration.
abbrev pub asked_pcm : Log → Bool
asked_pcm (get_host_pcm_config a ∷ log) = true
asked_pcm (get_peer_pcm_config a ∷ log) = true
asked_pcm _ = false

-- What is open, and whether the last call asked for a PCM configuration.
pub record Open (h p a : Bool) (log : Log) : Type 0 where
  pub host : host_open log ≡ h
  pub peer : peer_open log ≡ p
  pub asked : asked_pcm log ≡ a

module _ (b : Bus) (d : FlossLeDirections) (h p : Bool) where
  look-Open : (log : Log) → Open h p false log → Open h p false (look_started b d log).1
  unfolding look_started
  look-Open log o = ground (arith, o.host, o.peer, o.asked)

  -- Every result of a loop leaves the directions as they were.
  abbrev pub Leaves : Option (Result (Unit {0}) × Log) → Type 0
  Leaves none = Unit
  Leaves (some (r, log)) = Open h p false log

  next_wait-Leaves :
      (deadline : ℕ) (x : Result Bool × Log) (rest : Option (Result (Unit {0}) × Log))
      → Open h p false x.1
      → Leaves rest
      → Leaves (next_wait b deadline x rest)
  next_wait-Leaves deadline (err e, log) rest o l = o
  next_wait-Leaves deadline (ok true, log) rest o l = o
  next_wait-Leaves deadline (ok false, log) rest o l = ground arith

  pub wait-Leaves :
      (deadline fuel : ℕ) (log : Log)
      → Open h p false log
      → Leaves (wait_until b d deadline fuel log)
  unfolding wait_until
  wait-Leaves deadline zero log o = tt
  wait-Leaves deadline (suc fuel) log o =
      let o' = look-Open log o in
      next_wait-Leaves deadline (look_started b d log) _ o' (
        wait-Leaves deadline fuel (sleep ∷ (look_started b d log).1)
          (record { host = o'.host; peer = o'.peer; asked = refl }))

  next_connect-Leaves :
      (deadline : ℕ) (x : Result (Unit {0}) × Log) (rest : Option (Result (Unit {0}) × Log))
      → Open h p false x.1
      → Leaves rest
      → Leaves (next_connect b deadline x rest)
  next_connect-Leaves deadline (ok _, log) rest o l = o
  next_connect-Leaves deadline (err e, log) rest o l = ground arith

  pub connect-Leaves :
      (deadline fuel : ℕ) (log : Log) {asked : Bool}
      → Open h p asked log
      → Leaves (connect_until b deadline fuel log)
  unfolding connect_until
  connect-Leaves deadline zero log o = tt
  connect-Leaves deadline (suc fuel) log o =
      next_connect-Leaves deadline (b.socket log, connect (b.socket log) ∷ log) _
        (record { host = o.host; peer = o.peer; asked = refl })
        (connect-Leaves deadline fuel (sleep ∷ connect (b.socket log) ∷ log)
          (record { host = o.host; peer = o.peer; asked = refl }))

  pub stop-Open :
      (log : Log) → Open h p false log → Open false false false (stop_directions b h p log)
  unfolding stop_directions
  stop-Open log o = ground (arith, o.host, o.peer, o.asked)

  -- What the preparation calls does not open anything.
  pub prepare-Open :
      (group : ℤ) (log : Log) → Open h p false log → Open h p false (prepare b group d log).1
  unfolding prepare validate
  prepare-Open group log o = ground (arith, o.host, o.peer, o.asked)
