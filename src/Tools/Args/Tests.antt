-- ===== src/Tools/Args/Tests.antt =====
-- The argument parsers of src/bin on concrete command lines.
use text.Mathlib.Text.{◌==◌ as str_eq}
use dorsche.Base.{
  ℕ, ◌≡◌, ◌↔◌, refl, true, List, [], ◌∷◌, none, Result, ok, err, if◌then◌else◌, ltb, String, ℤ, pos,
  negsuc, external, missing_value, delay_without_loopback, unknown_argument,
}
use dorsche.Tools.Hfp.{msbc}
use dorsche.Tools.PipeWire.{source}
use dorsche.Tools.Args.{Words, returns, exits, parse_loop}
use dorsche.Tools.Args.Spelled.{command_line, apply_all}
use dorsche.Tools.Args.Hfp
use dorsche.Tools.Args.Hfp.{hfp_parse_iff}
use dorsche.Tools.Args.PipeWire
use dorsche.Tools.Args.PipeWire.{pipewire_parse_iff}
use dorsche.Tools.Args.A2dp
use dorsche.Tools.Args.A2dp.{a2dp_parse_iff}
use dorsche.Tools.Args.LeAudio
use dorsche.Tools.Args.LeAudio.{le_audio_parse_iff}

-- A `str::parse` that knows two words; floats are hundredths.
abbrev number : String → Result ℕ
number w = if str_eq w "7" then ok 7 else if str_eq w "90" then ok 90 else err (external 22)

abbrev signed_number : String → Result ℤ
signed_number w = if str_eq w "7" then ok (pos 7) else err (external 22)

abbrev toy : Words
toy = record {
  u8 = number;
  u32 = number;
  u64 = number;
  i32 = signed_number;
  float = number;
  is_finite = λ x. true;
  is_positive = λ x. ltb 0 x;
  exceeds_one = λ x. ltb 100 x;
  f440 = 44_000;
  f035 = 35;
}

abbrev loop_call : Hfp.Args
loop_call = record {
  address = "AA";
  seconds = 90;
  frequency_hz = 44_000;
  loopback = true;
  loopback_gain = 35;
  loopback_delay_seconds = 7;
  capture_path = none;
  codec = msbc;
}

abbrev loop_line : List String
loop_line =
    "--seconds" ∷ "7" ∷ "--codec" ∷ "msbc" ∷ "--loopback" ∷ "--address" ∷ "AA" ∷ "--seconds" ∷ "90"
    ∷ "--loopback-delay-seconds" ∷ "7" ∷ []

parsed_call : Hfp.parse toy loop_line ≡ returns (ok loop_call)
unfolding Hfp.parse parse_loop Hfp.key Hfp.parse_codec Hfp.check
parsed_call = refl

silent_delay :
    Hfp.parse toy ("--address" ∷ "AA" ∷ "--loopback-delay-seconds" ∷ "7" ∷ [])
    ≡ returns (err delay_without_loopback)
unfolding Hfp.parse parse_loop Hfp.key Hfp.check
silent_delay = refl

value_missing : Hfp.parse toy ("--seconds" ∷ "7" ∷ "--address" ∷ []) ≡ returns (err missing_value)
unfolding Hfp.parse parse_loop Hfp.key
value_missing = refl

-- The usage comes before the checks, and before what is wrong behind it.
usage_first : LeAudio.parse toy ("--group" ∷ "7" ∷ "-h" ∷ "--nonsense" ∷ []) ≡ exits
unfolding LeAudio.parse parse_loop LeAudio.key
usage_first = refl

unknown_option : A2dp.parse toy ("--gain" ∷ []) ≡ returns (err unknown_argument)
unfolding A2dp.parse parse_loop A2dp.key
unknown_option = refl

abbrev probing : PipeWire.Args
probing = record {
  adapter = 0;
  group_id = negsuc 0;
  direction = source;
  node_name = "dorsche.le_audio";
  probe = true;
}

probed : PipeWire.parse toy ("--direction" ∷ "sink" ∷ "--probe" ∷ []) ≡ returns (ok probing)
unfolding PipeWire.parse parse_loop PipeWire.key PipeWire.parse_direction PipeWire.finish
probed = refl

hfp_parse_iff_example : (Hfp.parse toy loop_line ≡ returns (ok loop_call)) ↔ (
    (ss : List (Hfp.Key × String)) × (Hfp.words_of toy ss ≡ loop_line)
    × (Hfp.settled toy ss ≡ ok loop_call)
    × Hfp.IsUsable toy loop_call)
hfp_parse_iff_example = hfp_parse_iff toy loop_line loop_call

probe_parsed : (PipeWire.parse toy ("--probe" ∷ []) ≡ returns (ok probing)) ↔ (
    (ss : List (PipeWire.Key × String)) × (command_line PipeWire.key PipeWire.name
        (PipeWire.arm toy)
        ss
      ≡ "--probe" ∷ [])
    × (d : PipeWire.Draft) × (apply_all PipeWire.key PipeWire.name
          (PipeWire.arm toy)
          ss
          PipeWire.new_draft
        ≡ ok d)
    × PipeWire.Makes d probing)
probe_parsed = pipewire_parse_iff toy ("--probe" ∷ []) probing
