-- ===== src/Tools/Args/PipeWire.antt =====
-- `Args::parse` of src/bin/dorsche_pipewire.rs.
use text.Mathlib.Text.{◌==◌ as str_eq}
use text.Mathlib.TextEquality.{eq_iff}
use dorsche.Base.{
  ℕ, ◌≡◌, ◌↔◌, refl, Bool, true, false, ◌||◌, List, Option, none, some, Result, ok, err, ◌>>◌,
  ◌>>=◌, ensure, if◌then◌else◌, String, arith, bind_passed, ℤ, negsuc, is_nonneg, unknown_direction,
  group_missing, direction_missing,
}
use dorsche.Tools.PipeWire.{Direction, source, sink}
use dorsche.Tools.Args.{
  Words, Arm, valued, flag, helps, unknown, Parsed, returns, parse_loop, checked,
}
use dorsche.Tools.Args.Spelled.{IsSetting, IsLanguage, command_line, apply_all, parsed_iff}

-- The variables of the loop.
pub record Draft : Type 0 where
  pub adapter : ℕ
  pub group_id : ℤ
  pub direction : Option Direction
  pub node_name : Option String
  pub probe : Bool

pub record Args : Type 0 where
  pub adapter : ℕ
  pub group_id : ℤ
  pub direction : Direction
  pub node_name : String
  pub probe : Bool

pub data Key : Type 0 where
  adapter group direction node_name probe help other : Key

abbrev pub name : Key → String
name adapter = "--adapter"
name group = "--group"
name direction = "--direction"
name node_name = "--node-name"
name probe = "--probe"
name help = "--help"
name other = ""

-- The patterns of the match, in their order.
unfoldable pub key : String → Key
key w =
    if str_eq w "--adapter"
    then adapter
    else if str_eq w "--group"
    then group
    else if str_eq w "--direction"
    then direction
    else if str_eq w "--node-name"
    then node_name
    else if str_eq w "--probe"
    then probe
    else if str_eq w "-h" || str_eq w "--help"
    then help
    else other

-- The inner match on the direction.
unfoldable pub parse_direction : String → Result Direction
parse_direction value =
    if str_eq value "source"
    then ok source
    else if str_eq value "sink"
    then ok sink
    else err unknown_direction

-- The arms of the match.
abbrev pub arm : Words → Key → Arm Draft
arm p adapter = valued (λ v a. p.u32 v >>= (λ n. ok (record a { adapter = n })))
arm p group = valued (λ v a. p.i32 v >>= (λ n. ok (record a { group_id = n })))
arm p direction = valued (λ v a. parse_direction v >>= (λ d. ok (record a { direction = some d })))
arm p node_name = valued (λ v a. ok (record a { node_name = some v }))
arm p probe = flag (λ a. record a { probe = true })
arm p help = helps
arm p other = unknown

abbrev pub new_draft : Draft
new_draft = record {
  adapter = 0;
  group_id = negsuc 0;
  direction = none;
  node_name = none;
  probe = false;
}

-- `direction.context(..)?`, which a probe does not need.
abbrev pub chosen : Bool → Option Direction → Result Direction
chosen true d = ok source
chosen false none = err direction_missing
chosen false (some d) = ok d

-- `node_name.unwrap_or_else(..)`
abbrev pub named : Option String → String
named none = "dorsche.le_audio"
named (some n) = n

unfoldable pub finish : Draft → Result Args
finish a = do
  ensure (a.probe || is_nonneg a.group_id) group_missing
  d ← chosen a.probe a.direction
  ok (record {
    adapter = a.adapter;
    group_id = a.group_id;
    direction = d;
    node_name = named a.node_name;
    probe = a.probe;
  })

unfoldable pub parse : Words → List String → Parsed Args
parse p argv = checked finish (parse_loop (λ w. arm p (key w)) argv none new_draft)

-- The arguments of a draft: a probe uses a source, whatever it is told; anything else must have a group
-- and a direction.
pub record Makes (d : Draft) (a : Args) : Type 0 where
  pub adapter : a.adapter ≡ d.adapter
  pub group_id : a.group_id ≡ d.group_id
  pub node_name : a.node_name ≡ named d.node_name
  pub probe : a.probe ≡ d.probe
  pub probing : d.probe ≡ true → a.direction ≡ source
  pub directed : d.probe ≡ false → (is_nonneg d.group_id ≡ true) × (d.direction ≡ some a.direction)

finish_iff : (d : Draft) (a : Args) → (finish d ≡ ok a) ↔ Makes d a
unfolding finish
finish_iff d a = (
  (λ h. record {
    adapter = ground arith;
    group_id = ground arith;
    node_name = ground arith;
    probe = ground arith;
    probing = λ e. ground arith;
    directed = λ e. (ground arith, ground arith);
  }),
  (λ m. ground (arith, m.probing, m.directed)),
)

language : (p : Words) → IsLanguage key name (arm p)
language p = record { key-name = known; name-key = unique }
  where
    known : (k : Key) → IsSetting (arm p k) → key (name k) ≡ k
    known adapter s = unfold key in refl
    known group s = unfold key in refl
    known direction s = unfold key in refl
    known node_name s = unfold key in refl
    known probe s = unfold key in refl
    known help s = absurd s
    known other s = absurd s

    unique : (w : String) → IsSetting (arm p (key w)) → name (key w) ≡ w
    unique w s =
        unfold key in
        (ground (
          arith,
          eq_iff w "--adapter",
          eq_iff w "--group",
          eq_iff w "--direction",
          eq_iff w "--node-name",
          eq_iff w "--probe",
        ))

-- `Args::parse` of the PipeWire tool returns exactly the arguments that some sequence of settings makes,
-- a later setting over an earlier one: with `--probe` those of a source, otherwise only with a group
-- that is not negative and a direction; the node is called `dorsche.le_audio` if nothing else is said.
pub pipewire_parse_iff :
    (p : Words) (argv : List String) (a : Args)
    → (parse p argv ≡ returns (ok a)) ↔ (
        (ss : List (Key × String)) × (command_line key name (arm p) ss ≡ argv)
        × (d : Draft) × (apply_all key name (arm p) ss new_draft ≡ ok d)
        × Makes d a)
unfolding parse
pipewire_parse_iff p argv a =
    let both = parsed_iff key name (arm p) (language p) finish argv new_draft a in
    (
      (λ h.
          let (ss, line, done) = both.0 h in
          let (d, settled, made) =
            bind_passed (apply_all key name (arm p) ss new_draft) finish done in
          (ss, line, d, settled, (finish_iff d a).0 made)),
      (λ h. both.1 (h.0, h.1, rw h.3 ((finish_iff h.2 a).1 h.4))),
    )
