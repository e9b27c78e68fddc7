-- ===== src/Tools/Args/A2dp.antt =====
-- `Args::parse` of src/bin/floss_audio_smoke.rs.
use text.Mathlib.Text.{◌==◌ as str_eq}
use text.Mathlib.TextEquality.{eq_iff}
use dorsche.Base.{
  ℕ, ◌≤◌, ◌<◌, ◌≡◌, ◌≢◌, ◌↔◌, refl, sym, ap, subst, true, not, ◌||◌, List, Option, none, some,
  Result, ok, err, ◌>>◌, ◌>>=◌, ensure, if◌then◌else◌, ltb, ◌==◌, String, arith, address_missing,
  not_positive, volume_range,
}
use dorsche.Tools.Args.{Words, Arm, valued, helps, unknown, Parsed, returns, parse_loop, checked}
use dorsche.Tools.Args.Spelled.{IsSetting, IsLanguage, command_line, apply_all, parsed_iff}

pub record Args : Type 0 where
  pub address : String
  pub seconds : ℕ
  pub volume : ℕ
  pub frequency_hz : ℕ
  pub pcm_path : Option String

pub data Key : Type 0 where
  address seconds volume frequency pcm help other : Key

abbrev pub name : Key → String
name address = "--address"
name seconds = "--seconds"
name volume = "--volume"
name frequency = "--frequency"
name pcm = "--pcm"
name help = "--help"
name other = ""

-- The patterns of the match, in their order.
unfoldable pub key : String → Key
key w =
    if str_eq w "--address"
    then address
    else if str_eq w "--seconds"
    then seconds
    else if str_eq w "--volume"
    then volume
    else if str_eq w "--frequency"
    then frequency
    else if str_eq w "--pcm"
    then pcm
    else if str_eq w "-h" || str_eq w "--help"
    then help
    else other

-- The arms of the match.
abbrev pub arm : Words → Key → Arm Args
arm p address = valued (λ v a. ok (record a { address = v }))
arm p seconds = valued (λ v a. p.u64 v >>= (λ n. ok (record a { seconds = n })))
arm p volume = valued (λ v a. p.u8 v >>= (λ n. ok (record a { volume = n })))
arm p frequency = valued (λ v a. p.float v >>= (λ x. ok (record a { frequency_hz = x })))
arm p pcm = valued (λ v a. ok (record a { pcm_path = some v }))
arm p help = helps
arm p other = unknown

abbrev pub default_args : Words → Args
default_args p = record {
  address = "";
  seconds = 3;
  volume = 40;
  frequency_hz = p.f440;
  pcm_path = none;
}

unfoldable pub check : Words → Args → Result Args
check p a = do
  ensure (not (str_eq a.address "")) address_missing
  ensure (not (ltb 127 a.volume)) volume_range
  ensure
      (not
        (a.seconds == 0 || not (p.is_finite a.frequency_hz) || not (p.is_positive a.frequency_hz)))
      not_positive
  ok a

unfoldable pub parse : Words → List String → Parsed Args
parse p argv = checked (check p) (parse_loop (λ w. arm p (key w)) argv none (default_args p))

-- What a stream can be played with.
pub record IsUsable (p : Words) (a : Args) : Type 0 where
  pub addressed : a.address ≢ ""
  pub audible_volume : a.volume ≤ 127
  pub lasting : 0 < a.seconds
  pub finite : p.is_finite a.frequency_hz ≡ true
  pub audible : p.is_positive a.frequency_hz ≡ true

check_iff : (p : Words) (a b : Args) → (check p a ≡ ok b) ↔ ((a ≡ b) × IsUsable p a)
unfolding check
check_iff p a b =
    ((λ h. ground (arith, eq_iff a.address "")), (λ h. ground (arith, eq_iff a.address "")))

language : (p : Words) → IsLanguage key name (arm p)
language p = record { key-name = known; name-key = unique }
  where
    known : (k : Key) → IsSetting (arm p k) → key (name k) ≡ k
    known address s = unfold key in refl
    known seconds s = unfold key in refl
    known volume s = unfold key in refl
    known frequency s = unfold key in refl
    known pcm s = unfold key in refl
    known help s = absurd s
    known other s = absurd s

    unique : (w : String) → IsSetting (arm p (key w)) → name (key w) ≡ w
    unique w s =
        unfold key in
        (ground (
          arith,
          eq_iff w "--address",
          eq_iff w "--seconds",
          eq_iff w "--volume",
          eq_iff w "--frequency",
          eq_iff w "--pcm",
        ))

-- Settings as words, and their effect on the defaults.
abbrev pub words_of : Words → List (Key × String) → List String
words_of p ss = command_line key name (arm p) ss

abbrev pub settled : Words → List (Key × String) → Result Args
settled p ss = apply_all key name (arm p) ss (default_args p)

checked_iff :
    (p : Words) (r : Result Args) (b : Args)
    → ((r >>= check p) ≡ ok b) ↔ ((r ≡ ok b) × IsUsable p b)
checked_iff p (err e) b = ((λ h. cc), (λ h. cc))
checked_iff p (ok a) b = (
  (λ h. let (e, u) = (check_iff p a b).0 h in (ap ok e, subst (IsUsable p) e u)),
  (λ h. let e : a ≡ b = cc in (check_iff p a b).1 (e, subst (IsUsable p) (sym e) h.1)),
)

-- `Args::parse` of the A2DP tool returns exactly the arguments that some sequence of settings spells
-- and makes of the defaults, and that a stream can be played with: an address, a volume up to 127, a
-- duration and a positive frequency.
pub a2dp_parse_iff :
    (p : Words) (argv : List String) (a : Args)
    → (parse p argv ≡ returns (ok a))
      ↔ ((ss : List (Key × String)) × (words_of p ss ≡ argv) × (settled p ss ≡ ok a) × IsUsable p a)
unfolding parse
a2dp_parse_iff p argv a =
    let both = parsed_iff key name (arm p) (language p) (check p) argv (default_args p) a in
    (
      (λ h.
          let (ss, line, done) = both.0 h in
          let (e, u) = (checked_iff p (settled p ss) a).0 done in (ss, line, e, u)),
      (λ h. both.1 (h.0, h.1, (checked_iff p (settled p h.0) a).1 (h.2, h.3))),
    )
