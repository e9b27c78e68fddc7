-- ===== src/Tools/Args/LeAudio.antt =====
-- `Args::parse` of src/bin/floss_le_audio_smoke.rs.
use text.Mathlib.Text.{◌==◌ as str_eq}
use text.Mathlib.TextEquality.{eq_iff}
use dorsche.Base.{
  ℕ, ◌<◌, ◌≡◌, ◌↔◌, refl, sym, ap, subst, true, ◌&&◌, ◌||◌, List, Option, none, some, Result, ok,
  err, ◌>>◌, ◌>>=◌, ensure, if◌then◌else◌, ltb, String, arith, ℤ, negsuc, is_nonneg, unknown_mode,
  group_missing, not_positive, frequency_missing,
}
use dorsche.Tools.LeAudio.{Mode, output, input, duplex}
use dorsche.Tools.Args.{Words, Arm, valued, helps, unknown, Parsed, returns, parse_loop, checked}
use dorsche.Tools.Args.Spelled.{IsSetting, IsLanguage, command_line, apply_all, parsed_iff}

pub record Args : Type 0 where
  pub adapter : ℕ
  pub group_id : ℤ
  pub seconds : ℕ
  pub frequency_hz : ℕ
  pub mode : Mode
  pub capture : Option String

pub data Key : Type 0 where
  adapter group seconds frequency mode capture help other : Key

abbrev pub name : Key → String
name adapter = "--adapter"
name group = "--group"
name seconds = "--seconds"
name frequency = "--frequency"
name mode = "--mode"
name capture = "--capture"
name help = "--help"
name other = ""

-- The patterns of the match, in their order.
unfoldable pub key : String → Key
key w =
    if str_eq w "--adapter"
    then adapter
    else if str_eq w "--group"
    then group
    else if str_eq w "--seconds"
    then seconds
    else if str_eq w "--frequency"
    then frequency
    else if str_eq w "--mode"
    then mode
    else if str_eq w "--capture"
    then capture
    else if str_eq w "-h" || str_eq w "--help"
    then help
    else other

-- The inner match on the mode.
unfoldable pub parse_mode : String → Result Mode
parse_mode value =
    if str_eq value "output"
    then ok output
    else if str_eq value "input"
    then ok input
    else if str_eq value "duplex"
    then ok duplex
    else err unknown_mode

-- The arms of the match.
abbrev pub arm : Words → Key → Arm Args
arm p adapter = valued (λ v a. p.u32 v >>= (λ n. ok (record a { adapter = n })))
arm p group = valued (λ v a. p.i32 v >>= (λ n. ok (record a { group_id = n })))
arm p seconds = valued (λ v a. p.u64 v >>= (λ n. ok (record a { seconds = n })))
arm p frequency = valued (λ v a. p.float v >>= (λ x. ok (record a { frequency_hz = x })))
arm p mode = valued (λ v a. parse_mode v >>= (λ m. ok (record a { mode = m })))
arm p capture = valued (λ v a. ok (record a { capture = some v }))
arm p help = helps
arm p other = unknown

abbrev pub default_args : Words → Args
default_args p = record {
  adapter = 0;
  group_id = negsuc 0;
  seconds = 10;
  frequency_hz = p.f440;
  mode = duplex;
  capture = none;
}

unfoldable pub check : Words → Args → Result Args
check p a = do
  ensure (is_nonneg a.group_id) group_missing
  ensure (ltb 0 a.seconds) not_positive
  ensure (p.is_finite a.frequency_hz && p.is_positive a.frequency_hz) frequency_missing
  ok a

unfoldable pub parse : Words → List String → Parsed Args
parse p argv = checked (check p) (parse_loop (λ w. arm p (key w)) argv none (default_args p))

-- What the streams of a group can be tested with.
pub record IsUsable (p : Words) (a : Args) : Type 0 where
  pub grouped : is_nonneg a.group_id ≡ true
  pub lasting : 0 < a.seconds
  pub finite : p.is_finite a.frequency_hz ≡ true
  pub audible : p.is_positive a.frequency_hz ≡ true

check_iff : (p : Words) (a b : Args) → (check p a ≡ ok b) ↔ ((a ≡ b) × IsUsable p a)
unfolding check
check_iff p a b = ((λ h. ground arith), (λ h. ground arith))

language : (p : Words) → IsLanguage key name (arm p)
language p = record { key-name = known; name-key = unique }
  where
    known : (k : Key) → IsSetting (arm p k) → key (name k) ≡ k
    known adapter s = unfold key in refl
    known group s = unfold key in refl
    known seconds s = unfold key in refl
    known frequency s = unfold key in refl
    known mode s = unfold key in refl
    known capture s = unfold key in refl
    known help s = absurd s
    known other s = absurd s

    unique : (w : String) → IsSetting (arm p (key w)) → name (key w) ≡ w
    unique w s =
        unfold key in
        (ground (
          arith,
          eq_iff w "--adapter",
          eq_iff w "--group",
          eq_iff w "--seconds",
          eq_iff w "--frequency",
          eq_iff w "--mode",
          eq_iff w "--capture",
        ))

-- Settings as words, and their effect on the defaults.
abbrev pub words_of : Words → List (Key × String) → List String
words_of p ss = command_line key name (arm p) ss

abbrev pub settled : Words → List (Key × String) → Result Args
settled p ss = apply_all key name (arm p) ss (default_args p)

checked_iff :
    (p : Words) (r : Result Args) (b : Args)
    → ((r >>= check p) ≡ ok b) ↔ ((r ≡ ok b) × IsUsable p b)
checked_iff p (err e) b = ((λ h. cc), (λ h. cc))
checked_iff p (ok a) b = (
  (λ h. let (e, u) = (check_iff p a b).0 h in (ap ok e, subst (IsUsable p) e u)),
  (λ h. let e : a ≡ b = cc in (check_iff p a b).1 (e, subst (IsUsable p) (sym e) h.1)),
)

-- `Args::parse` of the LE Audio tool returns exactly the arguments that some sequence of settings spells
-- and makes of the defaults, with a group that is not negative, a duration and a positive frequency.
pub le_audio_parse_iff :
    (p : Words) (argv : List String) (a : Args)
    → (parse p argv ≡ returns (ok a))
      ↔ ((ss : List (Key × String)) × (words_of p ss ≡ argv) × (settled p ss ≡ ok a) × IsUsable p a)
unfolding parse
le_audio_parse_iff p argv a =
    let both = parsed_iff key name (arm p) (language p) (check p) argv (default_args p) a in
    (
      (λ h.
          let (ss, line, done) = both.0 h in
          let (e, u) = (checked_iff p (settled p ss) a).0 done in (ss, line, e, u)),
      (λ h. both.1 (h.0, h.1, (checked_iff p (settled p h.0) a).1 (h.2, h.3))),
    )
