-- ===== src/Wireless/Floss.antt =====
-- src/wireless/floss.rs: the client of Floss's LE Audio media interface. D-Bus, the socket and the
-- clock are the parameter `Bus`: every answer may depend on all that was called before, which the
-- log holds with the answers, the last call first.
pub mod Start
pub mod Loops
pub mod Opened
pub mod Rollback
pub mod Stop
pub mod Tests
use dorsche.Base.{
  ℕ, zero, suc, ◌+◌, ◌≡◌, Bool, true, false, not, ◌&&◌, ◌||◌, List, [], ◌∷◌, Option, none, some,
  Error, Result, ok, err, ◌>>=◌, ◌>>◌, ensure, leb, if◌then◌else◌, is_nonneg, ℤ, pos, negsuc, ◌==◌,
  group_negative, no_direction, source_rejected, sink_rejected, host_rejected, peer_rejected,
  start_timeout, pcm_missing, stream_taken,
}
use dorsche.Wireless.Types.Pcm
use dorsche.Wireless.Types.Pcm.{PcmConfiguration, bytes_per_interval}

pub record FlossLeDirections : Type 0 where
  pub host_to_peer : Bool
  pub peer_to_host : Bool

-- `FlossLeDirections::validate`
unfoldable pub validate : FlossLeDirections → Result (Unit {0})
validate d = ensure (d.host_to_peer || d.peer_to_host) no_direction

-- An `OwnedValue`: what its conversions to `u32` and to `u8` answer.
pub record OwnedValue : Type 0 where
  pub as_u32 : Result ℕ
  pub as_u8 : Result ℕ

-- What a `PropertyMap` has under the names that the client looks up.
pub record PropertyMap : Type 0 where
  pub data_interval_us : Option OwnedValue
  pub sample_rate : Option OwnedValue
  pub bits_per_sample : Option OwnedValue
  pub channels_count : Option OwnedValue

pub data Call : Type 0 where
  group_set_active : ℤ → Result (Unit {0}) → Call
  source_metadata_changed sink_metadata_changed : Result Bool → Call
  host_start_audio_request peer_start_audio_request : Result Bool → Call
  get_host_stream_started get_peer_stream_started : Result ℤ → Call
  get_host_pcm_config get_peer_pcm_config : Result PropertyMap → Call
  host_stop_audio_request peer_stop_audio_request : Result (Unit {0}) → Call
  connect : Result (Unit {0}) → Call
  sleep : Call

abbrev pub Log : Type 0
Log = List Call

-- What the environment answers after a log.
pub record Bus : Type 0 where
  pub proxy : Log → Result (Unit {0})
  pub active : ℤ → Log → Result (Unit {0})
  pub source_metadata : Log → Result Bool
  pub sink_metadata : Log → Result Bool
  pub host_start : Log → Result Bool
  pub peer_start : Log → Result Bool
  pub host_started : Log → Result ℤ
  pub peer_started : Log → Result ℤ
  pub host_pcm : Log → Result PropertyMap
  pub peer_pcm : Log → Result PropertyMap
  pub host_stop : Log → Result (Unit {0})
  pub peer_stop : Log → Result (Unit {0})
  pub socket : Log → Result (Unit {0})
  pub now_ms : Log → ℕ

-- A call if it is wanted: its answer, and the log with it.
abbrev pub when {ℓ} : {A : Type ℓ} → Bool → Result A → (Result A → Call) → A → Log → Result A × Log
when false answer call default log = (ok default, log)
when true answer call default log = (answer, call answer ∷ log)

-- `ensure!(call.await?, message)`
abbrev pub confirm : Error → Result Bool × Log → Result (Unit {0}) × Log
confirm e (answer, log) = (answer >>= λ granted. ensure granted e, log)

-- `?` on a step with its log.
abbrev pub and_then {ℓ κ} :
    {A : Type ℓ} {B : Type κ} → (A → Log → Result B × Log) → Result A × Log → Result B × Log
and_then f (ok a, log) = f a log
and_then f (err e, log) = (err e, log)

-- `stop_directions`
unfoldable pub stop_directions : Bus → Bool → Bool → Log → Log
stop_directions b host peer log =
    let peer_done = (when peer (b.peer_stop log) peer_stop_audio_request tt log).1 in
    (when host (b.host_stop peer_done) host_stop_audio_request tt peer_done).1

-- `started == 1`
abbrev pub is_one : ℤ → Bool
is_one (pos n) = n == 1
is_one (negsuc n) = false

-- One look of `wait_started`: whether all wanted directions have started.
unfoldable pub look_started : Bus → FlossLeDirections → Log → Result Bool × Log
look_started b d log =
    and_then
      (λ host log'.
        and_then (λ peer log''. (ok (is_one host && is_one peer), log''))
          (when d.peer_to_host (b.peer_started log') get_peer_stream_started (pos 1) log'))
      (when d.host_to_peer (b.host_started log) get_host_stream_started (pos 1) log)

-- What `wait_started` does after a look, with the later rounds of its loop.
abbrev pub next_wait :
    Bus
    → ℕ
    → Result Bool × Log
    → Option (Result (Unit {0}) × Log)
    → Option (Result (Unit {0}) × Log)
next_wait b deadline (err e, log) rest = some (err e, log)
next_wait b deadline (ok true, log) rest = some (ok tt, log)
next_wait b deadline (ok false, log) rest =
    if leb deadline (b.now_ms log) then some (err start_timeout, log) else rest

-- The loop of `wait_started` with its deadline, on fuel.
unfoldable pub wait_until : Bus → FlossLeDirections → ℕ → ℕ → Log → Option (Result (Unit {0}) × Log)
wait_until b d deadline zero log = none
wait_until b d deadline (suc fuel) log =
    let seen = look_started b d log in
    next_wait b deadline seen (wait_until b d deadline fuel (sleep ∷ seen.1))

-- 8 seconds in steps of 20 ms.
abbrev pub wait_fuel : ℕ
wait_fuel = 401

abbrev pub wait_started : Bus → FlossLeDirections → Log → Option (Result (Unit {0}) × Log)
wait_started b d log = wait_until b d (b.now_ms log + 8_000) wait_fuel log

abbrev pub next_connect :
    Bus
    → ℕ
    → Result (Unit {0}) × Log
    → Option (Result (Unit {0}) × Log)
    → Option (Result (Unit {0}) × Log)
next_connect b deadline (ok _, log) rest = some (ok tt, log)
next_connect b deadline (err e, log) rest =
    if leb deadline (b.now_ms log) then some (err e, log) else rest

-- The loop of `connect_with_deadline`, on fuel.
unfoldable pub connect_until : Bus → ℕ → ℕ → Log → Option (Result (Unit {0}) × Log)
connect_until b deadline zero log = none
connect_until b deadline (suc fuel) log =
    let log' = connect (b.socket log) ∷ log in
    next_connect b deadline (b.socket log, log') (connect_until b deadline fuel (sleep ∷ log'))

-- 5 seconds in steps of 20 ms.
abbrev pub connect_fuel : ℕ
connect_fuel = 251

abbrev pub connect_with_deadline : Bus → Log → Option (Result (Unit {0}) × Log)
connect_with_deadline b log = connect_until b (b.now_ms log + 5_000) connect_fuel log

-- `property::<u32>` and `property::<u8>`
abbrev pub property : (OwnedValue → Result ℕ) → Option OwnedValue → Result ℕ
property convert none = err pcm_missing
property convert (some v) = convert v

unfoldable pub parse_pcm_config : PropertyMap → Result PcmConfiguration
parse_pcm_config m = do
  interval ← property (λ v. v.as_u32) m.data_interval_us
  rate ← property (λ v. v.as_u32) m.sample_rate
  bits ← property (λ v. v.as_u8) m.bits_per_sample
  channels ← property (λ v. v.as_u8) m.channels_count
  let config : PcmConfiguration = record {
    sample_rate_hz = rate;
    bits_per_sample = bits;
    channels = channels;
    data_interval_us = interval;
  }
  Pcm.validate config
  bytes ← bytes_per_interval config
  ok config

pub record FlossLeDataPath : Type 0 where
  pub stream : Bool
  pub directions : FlossLeDirections
  pub host_pcm : Option PcmConfiguration
  pub peer_pcm : Option PcmConfiguration
  pub stopped : Bool

-- `FlossLeDataPath::take_stream`
unfoldable pub take_stream : FlossLeDataPath → Result (Unit {0}) × FlossLeDataPath
take_stream p = if p.stream then (ok tt, record p { stream = false }) else (err stream_taken, p)

-- The first error of two results, the later one second.
abbrev pub first_error : Result (Unit {0}) → Result (Unit {0}) → Result (Unit {0})
first_error (err e) later = err e
first_error (ok _) later = later

-- `FlossLeDataPath::stop`
unfoldable pub stop : Bus → FlossLeDataPath → Log → Result (Unit {0}) × Log
stop b p log = elim (b.proxy log) [
  | err e ↦ (err e, log)
  | ok _ ↦
      let (peer, log') =
        when p.directions.peer_to_host (b.peer_stop log) peer_stop_audio_request tt log in
      let (host, log'') =
        when p.directions.host_to_peer (b.host_stop log') host_stop_audio_request tt log' in
      (first_error peer host, log'')
]
