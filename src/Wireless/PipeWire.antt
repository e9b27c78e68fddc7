-- ===== src/Wireless/PipeWire.antt =====
-- The `process` callbacks of src/wireless/pipewire.rs: `run_sink` copies what PipeWire plays into the
-- media ring, `run_source` copies frames of the ring into PipeWire's buffers. `Node` has the calls
-- around them.
pub mod Stream
pub mod Node
pub mod Carries
pub mod Roundtrip
pub mod Tests
use dorsche.Base.{
  ℕ, ◌+◌, ◌*◌, ◌/◌, ◌^◌, Bool, true, false, List, [], ◌∷◌, Option, none, some, Result, ok, err,
  ◌>>◌, ensure, is_ok, leb, ltb, ◌==◌, ◌&&◌, if◌then◌else◌, length, take, drop, min,
  stride_overflow, stride_zero,
}
use dorsche.Wireless.Types.Kinds.{pcm, payload_kind_code}
use dorsche.Wireless.Types.Frame
use dorsche.Wireless.Types.Frame.{FrameDescriptor}
use dorsche.Wireless.Types.Pcm.{PcmConfiguration}
use dorsche.Wireless.DataPlane.Ring.{
  Ring, FrameLease, u64, try_reserve, write_payload, commit, try_acquire, release,
}

-- `bytes_per_frame`
unfoldable pub bytes_per_frame : PcmConfiguration → Result ℕ
bytes_per_frame c =
    let stride = c.bits_per_sample / 8 * c.channels in
    ensure (ltb stride (2 ^ 64)) stride_overflow >> (ensure (ltb 0 stride) stride_zero >> ok stride)

-- The first data of a buffer that PipeWire hands out: its chunk, and its memory if that is mapped.
-- `offset` and `size` are `u32`, so that their sum is a `usize`.
pub record SpaData : Type 0 where
  pub offset : ℕ
  pub size : ℕ
  pub memory : Option (List ℕ)

pub record SinkState : Type 0 where
  pub producer : Ring
  pub sequence : ℕ

-- The descriptor of a frame that is played at time `now`.
abbrev pub pcm_descriptor : PcmConfiguration → ℕ → ℕ → FrameDescriptor
pcm_descriptor c sequence now = record (Frame.new pcm sequence) {
  sample_rate_hz = c.sample_rate_hz;
  channels = c.channels;
  bits_per_sample = c.bits_per_sample;
  capture_time_ns = now;
}

-- `run_sink`, from the reservation on. `signal` is what the wakeup of `commit` answers.
unfoldable pub sink_reserved :
    Result (Unit {0}) → FrameDescriptor → List ℕ → ℕ → Option ℕ × Ring → SinkState
sink_reserved signal d payload sequence (none, r) = record { producer = r; sequence = sequence }
sink_reserved signal d payload sequence (some head, r) =
    let (done, r') = commit signal (write_payload r head payload) head d (length payload) in
    if ltb r.payload_capacity (length payload)
    then record { producer = r; sequence = sequence }
    else record { producer = r'; sequence = if is_ok done then u64 (sequence + 1) else sequence }

unfoldable pub sink_mapped :
    Result (Unit {0}) → ℕ → PcmConfiguration → ℕ → ℕ → Option (List ℕ) → SinkState → SinkState
sink_mapped signal now c offset size none s = s
sink_mapped signal now c offset size (some source) s =
    if leb (offset + size) (length source)
    then sink_reserved signal (pcm_descriptor c s.sequence now) (take size (drop offset source))
        s.sequence (try_reserve s.producer)
    else s

-- The callback of `run_sink`, with the buffer that PipeWire has for it.
unfoldable pub process_sink :
    Result (Unit {0}) → ℕ → PcmConfiguration → Option SpaData → SinkState → SinkState
process_sink signal now c none s = s
process_sink signal now c (some d) s = sink_mapped signal now c d.offset d.size d.memory s

-- The test of a frame against the negotiated format.
abbrev pub has_format : PcmConfiguration → FrameDescriptor → Bool
has_format c d =
    d.payload_kind == payload_kind_code pcm
    && (d.sample_rate_hz == c.sample_rate_hz
        && (d.channels == c.channels && d.bits_per_sample == c.bits_per_sample))

-- What is copied into memory of a length, if any is mapped.
abbrev pub copied : PcmConfiguration → Option ℕ → FrameLease → List ℕ
copied c none l = []
copied c (some space) l =
    if has_format c l.descriptor then take (min space (length l.bytes)) l.bytes else []

-- The match of `run_source`. The lease ends with it, whether its bytes were copied or not.
unfoldable pub source_acquired :
    PcmConfiguration → Option ℕ → Ring → Result (Option FrameLease) → List ℕ × Ring
source_acquired c space r (err e) = ([], r)
source_acquired c space r (ok none) = ([], r)
source_acquired c space r (ok (some l)) = (copied c space l, release r l)

-- The callback of `run_source`: the chunk that it fills, if there is a buffer. The memory of a buffer is
-- given by its length.
unfoldable pub process_source : PcmConfiguration → Option (Option ℕ) → Ring → Option (List ℕ) × Ring
process_source c none r = (none, r)
process_source c (some space) r =
    let (bytes, r') = source_acquired c space r (try_acquire r) in (some bytes, r')
