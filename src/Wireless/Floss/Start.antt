-- ===== src/Wireless/Floss/Start.antt =====
-- `start_software_unicast` of src/wireless/floss.rs, a function for each stage: what comes after a
-- `?` or an early return is a function of its answer.
use dorsche.Base.{
  Bool, true, false, ◌∷◌, Option, none, some, Result, ok, err, ◌>>=◌, ◌>>◌, ensure, is_nonneg, ℤ,
  group_negative, source_rejected, sink_rejected, host_rejected, peer_rejected,
}
use dorsche.Wireless.Types.Pcm.{PcmConfiguration}
use dorsche.Wireless.Floss.{
  FlossLeDirections, validate, PropertyMap, Call, Log, Bus, when, confirm, and_then,
  stop_directions, wait_started, connect_with_deadline, parse_pcm_config, FlossLeDataPath,
  group_set_active, source_metadata_changed, sink_metadata_changed, host_start_audio_request,
  peer_start_audio_request, get_host_pcm_config, get_peer_pcm_config,
}

-- The flags, the result and the log of the block that starts the directions.
pub record Started : Type 0 where
  pub outcome : Result (Unit {0})
  pub host_started : Bool
  pub peer_started : Bool
  pub log : Log

abbrev pub waited : FlossLeDirections → Option (Result (Unit {0}) × Log) → Option Started
waited d none = none
waited d (some (outcome, log)) = some (record {
  outcome = outcome;
  host_started = d.host_to_peer;
  peer_started = d.peer_to_host;
  log = log;
})

-- From `peer_started = true` on.
abbrev pub after_peer : Bus → FlossLeDirections → Result (Unit {0}) × Log → Option Started
after_peer b d (err e, log) =
    some
      (record { outcome = err e; host_started = d.host_to_peer; peer_started = false; log = log })
after_peer b d (ok _, log) = waited d (wait_started b d log)

-- From `host_started = true` on.
abbrev pub after_host : Bus → FlossLeDirections → Result (Unit {0}) × Log → Option Started
after_host b d (err e, log) =
    some (record { outcome = err e; host_started = false; peer_started = false; log = log })
after_host b d (ok _, log) = after_peer b d (
    confirm peer_rejected
      (when d.peer_to_host (b.peer_start log) peer_start_audio_request true log))

-- The block `start_result`: a flag is set once its direction was asked for and agreed.
unfoldable pub start_streams : Bus → FlossLeDirections → Log → Option Started
start_streams b d log = after_host b d (
    confirm host_rejected
      (when d.host_to_peer (b.host_start log) host_start_audio_request true log))

-- A PCM configuration if its direction is wanted.
abbrev pub read_pcm :
    Bool
    → Result PropertyMap
    → (Result PropertyMap → Call)
    → Log
    → Result (Option PcmConfiguration) × Log
read_pcm false answer call log = (ok none, log)
read_pcm true answer call log =
    (answer >>= λ m. parse_pcm_config m >>= λ c. ok (some c), call answer ∷ log)

-- The end of `start_software_unicast`, on what `connect_with_deadline` answers.
abbrev pub connected :
    Bus
    → FlossLeDirections
    → Option PcmConfiguration
    → Option PcmConfiguration
    → Option (Result (Unit {0}) × Log)
    → Option (Result FlossLeDataPath × Log)
connected b d host peer none = none
connected b d host peer (some (ok _, log)) = some (
  ok (record { stream = true; directions = d; host_pcm = host; peer_pcm = peer; stopped = false }),
  log,
)
connected b d host peer (some (err e, log)) =
    some (err e, stop_directions b d.host_to_peer d.peer_to_host log)

-- After the second PCM configuration.
abbrev pub after_peer_pcm :
    Bus
    → FlossLeDirections
    → Option PcmConfiguration
    → Result (Option PcmConfiguration) × Log
    → Option (Result FlossLeDataPath × Log)
after_peer_pcm b d host (err e, log) = some (err e, log)
after_peer_pcm b d host (ok peer, log) = connected b d host peer (connect_with_deadline b log)

-- After the first.
abbrev pub after_host_pcm :
    Bus
    → FlossLeDirections
    → Result (Option PcmConfiguration) × Log
    → Option (Result FlossLeDataPath × Log)
after_host_pcm b d (err e, log) = some (err e, log)
after_host_pcm b d (ok host, log) =
    after_peer_pcm b d host (read_pcm d.peer_to_host (b.peer_pcm log) get_peer_pcm_config log)

-- After the block, by its outcome.
abbrev pub after_block :
    Bus → FlossLeDirections → Started → Result (Unit {0}) → Option (Result FlossLeDataPath × Log)
after_block b d s (err e) = some (err e, stop_directions b s.host_started s.peer_started s.log)
after_block b d s (ok _) =
    after_host_pcm b d (read_pcm d.host_to_peer (b.host_pcm s.log) get_host_pcm_config s.log)

-- From `if let Err(error) = start_result` on.
abbrev pub after_start :
    Bus → FlossLeDirections → Option Started → Option (Result FlossLeDataPath × Log)
after_start b d none = none
after_start b d (some s) = after_block b d s s.outcome

-- What comes before the directions are started.
unfoldable pub prepare : Bus → ℤ → FlossLeDirections → Log → Result (Unit {0}) × Log
prepare b group d log =
    elim (validate d >> ensure (is_nonneg group) group_negative >> b.proxy log) [
      | err e ↦ (err e, log)
      | ok _ ↦
          and_then
            (λ _ log₁.
              and_then
                (λ _ log₂.
                  confirm sink_rejected
                    (when d.peer_to_host (b.sink_metadata log₂) sink_metadata_changed true log₂))
                (confirm source_rejected
                  (when d.host_to_peer (b.source_metadata log₁) source_metadata_changed true log₁)))
            (b.active group log, group_set_active group (b.active group log) ∷ log)
    ]

abbrev pub after_prepare :
    Bus → FlossLeDirections → Result (Unit {0}) × Log → Option (Result FlossLeDataPath × Log)
after_prepare b d (err e, log) = some (err e, log)
after_prepare b d (ok _, log) = after_start b d (start_streams b d log)

-- `FlossLeAudio::start_software_unicast`
unfoldable pub start_software_unicast :
    Bus → ℤ → FlossLeDirections → Log → Option (Result FlossLeDataPath × Log)
start_software_unicast b group d log = after_prepare b d (prepare b group d log)
