-- ===== src/Tools/Args/Hfp.antt =====
-- `Args::parse` of src/bin/floss_hfp_smoke.rs.
use text.Mathlib.Text.{◌==◌ as str_eq}
use text.Mathlib.TextEquality.{eq_iff}
use dorsche.Base.{
  ℕ, ◌≤◌, ◌<◌, ◌≡◌, ◌≢◌, ◌↔◌, refl, sym, ap, subst, Bool, true, false, not, ◌&&◌, ◌||◌, List,
  Option, none, some, Result, ok, err, ◌>>◌, ◌>>=◌, ensure, if◌then◌else◌, ltb, ◌==◌, String, arith,
  unknown_codec, address_missing, not_positive, gain_range, delay_range_exceeded,
  delay_without_loopback,
}
use dorsche.Tools.Hfp.{Codec, cvsd, msbc}
use dorsche.Tools.Args.{
  Words, Arm, valued, flag, helps, unknown, Parsed, returns, parse_loop, checked,
}
use dorsche.Tools.Args.Spelled.{IsSetting, IsLanguage, command_line, apply_all, parsed_iff}

pub record Args : Type 0 where
  pub address : String
  pub seconds : ℕ
  pub frequency_hz : ℕ
  pub loopback : Bool
  pub loopback_gain : ℕ
  pub loopback_delay_seconds : ℕ
  pub capture_path : Option String
  pub codec : Codec

pub data Key : Type 0 where
  address seconds frequency loopback loopback_gain loopback_delay_seconds capture codec : Key
  help other : Key

abbrev pub name : Key → String
name address = "--address"
name seconds = "--seconds"
name frequency = "--frequency"
name loopback = "--loopback"
name loopback_gain = "--loopback-gain"
name loopback_delay_seconds = "--loopback-delay-seconds"
name capture = "--capture"
name codec = "--codec"
name help = "--help"
name other = ""

-- The patterns of the match, in their order.
unfoldable pub key : String → Key
key w =
    if str_eq w "--address"
    then address
    else if str_eq w "--seconds"
    then seconds
    else if str_eq w "--frequency"
    then frequency
    else if str_eq w "--loopback"
    then loopback
    else if str_eq w "--loopback-gain"
    then loopback_gain
    else if str_eq w "--loopback-delay-seconds"
    then loopback_delay_seconds
    else if str_eq w "--capture"
    then capture
    else if str_eq w "--codec"
    then codec
    else if str_eq w "-h" || str_eq w "--help"
    then help
    else other

-- `Codec::parse`
unfoldable pub parse_codec : String → Result Codec
parse_codec value =
    if str_eq value "cvsd"
    then ok cvsd
    else if str_eq value "msbc"
    then ok msbc
    else err unknown_codec

-- The arms of the match.
abbrev pub arm : Words → Key → Arm Args
arm p address = valued (λ v a. ok (record a { address = v }))
arm p seconds = valued (λ v a. p.u64 v >>= (λ n. ok (record a { seconds = n })))
arm p frequency = valued (λ v a. p.float v >>= (λ x. ok (record a { frequency_hz = x })))
arm p loopback = flag (λ a. record a { loopback = true })
arm p loopback_gain = valued (λ v a. p.float v >>= (λ x. ok (record a { loopback_gain = x })))
arm p loopback_delay_seconds =
    valued (λ v a. p.u64 v >>= (λ n. ok (record a { loopback_delay_seconds = n })))
arm p capture = valued (λ v a. ok (record a { capture_path = some v }))
arm p codec = valued (λ v a. parse_codec v >>= (λ c. ok (record a { codec = c })))
arm p help = helps
arm p other = unknown

abbrev pub default_args : Words → Args
default_args p = record {
  address = "";
  seconds = 5;
  frequency_hz = p.f440;
  loopback = false;
  loopback_gain = p.f035;
  loopback_delay_seconds = 0;
  capture_path = none;
  codec = cvsd;
}

unfoldable pub check : Words → Args → Result Args
check p a = do
  ensure (not (str_eq a.address "")) address_missing
  ensure
      (not
        (a.seconds == 0 || not (p.is_finite a.frequency_hz) || not (p.is_positive a.frequency_hz)))
      not_positive
  ensure
      (not (
        not (p.is_finite a.loopback_gain)
        || not (p.is_positive a.loopback_gain)
        || p.exceeds_one a.loopback_gain))
      gain_range
  ensure (not (ltb 60 a.loopback_delay_seconds)) delay_range_exceeded
  ensure (not (not (a.loopback_delay_seconds == 0) && not a.loopback)) delay_without_loopback
  ok a

unfoldable pub parse : Words → List String → Parsed Args
parse p argv = checked (check p) (parse_loop (λ w. arm p (key w)) argv none (default_args p))

-- What a call can be made with.
pub record IsUsable (p : Words) (a : Args) : Type 0 where
  pub addressed : a.address ≢ ""
  pub lasting : 0 < a.seconds
  pub finite : p.is_finite a.frequency_hz ≡ true
  pub audible : p.is_positive a.frequency_hz ≡ true
  pub finite_gain : p.is_finite a.loopback_gain ≡ true
  pub some_gain : p.is_positive a.loopback_gain ≡ true
  pub no_gain : p.exceeds_one a.loopback_gain ≡ false
  pub short : a.loopback_delay_seconds ≤ 60
  pub looped : 0 < a.loopback_delay_seconds → a.loopback ≡ true

check_iff : (p : Words) (a b : Args) → (check p a ≡ ok b) ↔ ((a ≡ b) × IsUsable p a)
unfolding check
check_iff p a b =
    ((λ h. ground (arith, eq_iff a.address "")), (λ h. ground (arith, eq_iff a.address "")))

language : (p : Words) → IsLanguage key name (arm p)
language p = record { key-name = known; name-key = unique }
  where
    known : (k : Key) → IsSetting (arm p k) → key (name k) ≡ k
    known address s = unfold key in refl
    known seconds s = unfold key in refl
    known frequency s = unfold key in refl
    known loopback s = unfold key in refl
    known loopback_gain s = unfold key in refl
    known loopback_delay_seconds s = unfold key in refl
    known capture s = unfold key in refl
    known codec s = unfold key in refl
    known help s = absurd s
    known other s = absurd s

    unique : (w : String) → IsSetting (arm p (key w)) → name (key w) ≡ w
    unique w s =
        unfold key in
        (ground (
          arith,
          eq_iff w "--address",
          eq_iff w "--seconds",
          eq_iff w "--frequency",
          eq_iff w "--loopback",
          eq_iff w "--loopback-gain",
          eq_iff w "--loopback-delay-seconds",
          eq_iff w "--capture",
          eq_iff w "--codec",
        ))

-- Settings as words, and their effect on the defaults.
abbrev pub words_of : Words → List (Key × String) → List String
words_of p ss = command_line key name (arm p) ss

abbrev pub settled : Words → List (Key × String) → Result Args
settled p ss = apply_all key name (arm p) ss (default_args p)

checked_iff :
    (p : Words) (r : Result Args) (b : Args)
    → ((r >>= check p) ≡ ok b) ↔ ((r ≡ ok b) × IsUsable p b)
checked_iff p (err e) b = ((λ h. cc), (λ h. cc))
checked_iff p (ok a) b = (
  (λ h. let (e, u) = (check_iff p a b).0 h in (ap ok e, subst (IsUsable p) e u)),
  (λ h. let e : a ≡ b = cc in (check_iff p a b).1 (e, subst (IsUsable p) (sym e) h.1)),
)

-- `Args::parse` of the hands-free tool returns exactly the arguments that some sequence of settings
-- spells and makes of the defaults, a later setting over an earlier one, and that a call can be made
-- with: an address, a duration, a positive frequency, a gain above 0 and up to 1, a delay up to
-- 60 seconds, and a delay only with the loopback.
pub hfp_parse_iff :
    (p : Words) (argv : List String) (a : Args)
    → (parse p argv ≡ returns (ok a))
      ↔ ((ss : List (Key × String)) × (words_of p ss ≡ argv) × (settled p ss ≡ ok a) × IsUsable p a)
unfolding parse
hfp_parse_iff p argv a =
    let both = parsed_iff key name (arm p) (language p) (check p) argv (default_args p) a in
    (
      (λ h.
          let (ss, line, done) = both.0 h in
          let (e, u) = (checked_iff p (settled p ss) a).0 done in (ss, line, e, u)),
      (λ h. both.1 (h.0, h.1, (checked_iff p (settled p h.0) a).1 (h.2, h.3))),
    )
