-- ===== src/Wireless/PipeWire/Node.antt =====
-- How src/wireless/pipewire.rs publishes a node: `probe_server`, `run_source` and `run_sink` around their
-- callbacks, with `format_pod`. What PipeWire answers is the record `Server`; the result is the node with
-- which the main loop runs, and `none` is a panic. The pods and the properties are PipeWire's own.
pub mod Published
pub mod Tests
use dorsche.Base.{
  ℕ, zero, Bool, true, false, Option, none, some, Result, ok, err, ◌>>◌, ◌>>=◌, ◌==◌, if◌then◌else◌,
  String,
}
use dorsche.Wireless.Types.Pcm.{PcmConfiguration, validate}
use dorsche.Wireless.PipeWire.{bytes_per_frame}

pub data AudioFormat : Type 0 where
  s16_le s24_le s32_le : AudioFormat

-- `AudioInfoRaw`
pub record AudioInfo : Type 0 where
  pub format : AudioFormat
  pub rate : ℕ
  pub channels : ℕ

pub data MediaClass : Type 0 where
  audio_source audio_sink : MediaClass

-- `realtime` is the flag `RT_PROCESS`; `stride` is what the source writes into its chunks.
pub record Node : Type 0 where
  pub name : String
  pub class : MediaClass
  pub realtime : Bool
  pub stride : Option ℕ
  pub info : AudioInfo

-- The calls in the order of the code.
pub record Server : Type 0 where
  pub main_loop : Result (Unit {0})
  pub context : Result (Unit {0})
  pub core : Result (Unit {0})
  pub stream : Result (Unit {0})
  pub register : Result (Unit {0})
  pub serialize : Result (Unit {0})
  pub decode : Result (Unit {0})
  pub connect : Result (Unit {0})

-- The `match` of `format_pod`, whose last arm is `unreachable!`.
abbrev pub audio_format : ℕ → Option AudioFormat
audio_format bits =
    if bits == 16
    then some s16_le
    else if bits == 24
    then some s24_le
    else if bits == 32
    then some s32_le
    else none

abbrev pub serialized : Server → PcmConfiguration → Option AudioFormat → Option (Result AudioInfo)
serialized s pcm none = none
serialized s pcm (some format) = some (
    s.serialize
    >> ok (record { format = format; rate = pcm.sample_rate_hz; channels = pcm.channels }))

unfoldable pub format_pod : Server → PcmConfiguration → Option (Result AudioInfo)
format_pod s pcm = serialized s pcm (audio_format pcm.bits_per_sample)

abbrev pub after_pod :
    Server → (AudioInfo → Node) → Option (Result AudioInfo) → Option (Result Node)
after_pod s node none = none
after_pod s node (some info) = some (info >>= λ i. s.decode >> (s.connect >> ok (node i)))

-- From the listener on, once the stream is made.
abbrev pub listen_and_run :
    Server → PcmConfiguration → (AudioInfo → Node) → Result (Unit {0}) → Option (Result Node)
listen_and_run s pcm node (err e) = some (err e)
listen_and_run s pcm node (ok _) = after_pod s node (format_pod s pcm)

unfoldable pub probe_server : Server → PcmConfiguration → Option (Result Node)
probe_server s pcm =
    listen_and_run s pcm
      (λ info. record {
        name = "dorsche.pipewire.probe";
        class = audio_source;
        realtime = false;
        stride = none;
        info = info;
      })
      (validate pcm >> (s.main_loop >> (s.context >> (s.core >> (s.stream >> s.register)))))

abbrev pub with_stride : Server → String → PcmConfiguration → Result ℕ → Option (Result Node)
with_stride s node_name pcm (err e) = some (err e)
with_stride s node_name pcm (ok stride) =
    listen_and_run s pcm
      (λ info. record {
        name = node_name;
        class = audio_source;
        realtime = true;
        stride = some stride;
        info = info;
      })
      (s.stream >> s.register)

unfoldable pub run_source : Server → String → PcmConfiguration → Option (Result Node)
run_source s node_name pcm =
    with_stride s node_name pcm
      (validate pcm >> (s.main_loop >> (s.context >> (s.core >> bytes_per_frame pcm))))

unfoldable pub run_sink : Server → String → PcmConfiguration → Option (Result Node)
run_sink s node_name pcm =
    listen_and_run s pcm
      (λ info. record {
        name = node_name;
        class = audio_sink;
        realtime = true;
        stride = none;
        info = info;
      })
      (validate pcm >> (s.main_loop >> (s.context >> (s.core >> (s.stream >> s.register)))))
