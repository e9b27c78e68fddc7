-- ===== src/Tools/Args.antt =====
-- The loop over `std::env::args()` that the tools of src/bin share: each has its own options, and a `match`
-- from words to them. What `str::parse` of the standard library makes of a word is a parameter.
pub mod Spelled
pub mod Hfp
pub mod A2dp
pub mod LeAudio
pub mod PipeWire
pub mod Tests
use dorsche.Base.{
  ℕ, Bool, List, [], ◌∷◌, Option, none, some, Error, Result, ok, err, String, ℤ, missing_value,
  unknown_argument,
}

-- `str::parse` at the types that the tools use, tests on floats, which numbers stand for, and the
-- literals 440.0 and 0.35.
pub record Words : Type 0 where
  pub u8 : String → Result ℕ
  pub u32 : String → Result ℕ
  pub u64 : String → Result ℕ
  pub i32 : String → Result ℤ
  pub float : String → Result ℕ
  pub is_finite : ℕ → Bool
  pub is_positive : ℕ → Bool
  pub exceeds_one : ℕ → Bool
  pub f440 : ℕ
  pub f035 : ℕ

-- An arm of the match: it takes the next word as its value, it is a flag, it prints the usage and exits,
-- or it is the last arm.
pub data Arm (A : Type 0) : Type 0 where
  valued : (String → A → Result A) → Arm A
  flag : (A → A) → Arm A
  helps unknown : Arm A

-- A parser returns, or has ended the process with the usage.
pub data Parsed (A : Type 0) : Type 0 where
  returns : Result A → Parsed A
  exits : Parsed A

module _ {A : Type 0} where
  abbrev pub assigned : (A → Parsed A) → Result A → Parsed A
  assigned later (err e) = returns (err e)
  assigned later (ok a) = later a

  -- `pending` is the assignment of an option whose value comes next.
  abbrev pub take_arm : ((String → A → Result A) → Parsed A) → (A → Parsed A) → A → Arm A → Parsed A
  take_arm wait later a (valued assign) = wait assign
  take_arm wait later a (flag f) = later (f a)
  take_arm wait later a helps = exits
  take_arm wait later a unknown = returns (err unknown_argument)

  unfoldable pub parse_loop :
      (String → Arm A) → List String → Option (String → A → Result A) → A → Parsed A
  parse_loop arm [] none a = returns (ok a)
  parse_loop arm [] (some assign) a = returns (err missing_value)
  parse_loop arm (w ∷ ws) none a =
      take_arm (λ assign. parse_loop arm ws (some assign) a) (λ b. parse_loop arm ws none b) a
        (arm w)
  parse_loop arm (w ∷ ws) (some assign) a = assigned (λ b. parse_loop arm ws none b) (assign w a)

-- The checks behind the loop, and the result that they let through.
abbrev pub checked : {A B : Type 0} → (A → Result B) → Parsed A → Parsed B
checked check (returns (ok a)) = returns (check a)
checked check (returns (err e)) = returns (err e)
checked check exits = exits
