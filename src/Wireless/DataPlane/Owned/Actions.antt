-- ===== src/Wireless/DataPlane/Owned/Actions.antt =====
-- System calls and ownership in src/wireless/data_plane.rs: an action gives a result, what is owned after it
-- and the log. An error that leaves a function drops what is owned.
use dorsche.Base.{ℕ, Bool, true, false, List, [], ◌∷◌, Result, ok, err, ℤ, external}

pub data Resource : Type 0 where
  descriptor : ℤ → Resource
  mapping : ℤ → ℕ → Resource

pub data SysCall : Type 0 where
  memfd_create eventfd : SysCall
  ftruncate : ℤ → ℕ → SysCall
  add_seals duplicate fstat register close : ℤ → SysCall
  mmap munmap : ℤ → ℕ → SysCall

abbrev pub Log : Type 0
Log = List (SysCall × ℤ)

-- The answer to a call, `errno` after it, and the size that `fstat` fills in.
pub record Kernel : Type 0 where
  pub answer : Log → SysCall → ℤ
  pub errno : Log → ℕ
  pub size : Log → ℤ

-- `owned` has the values in scope that own something, the last one first.
pub record Held : Type 0 where
  pub log : Log
  pub owned : List Resource

abbrev pub Own : Type 0 → Type 0
Own A = Held → Result A × Held

abbrev pub return : {A : Type 0} → A → Own A
return a h = (ok a, h)

abbrev pub lift : {A : Type 0} → Result A → Own A
lift r h = (r, h)

abbrev pub ask : Kernel → SysCall → Own ℤ
ask k c h = (ok (k.answer h.log c), record h { log = (c, k.answer h.log c) ∷ h.log })

-- What `io::Error::last_os_error()` makes of a failure.
abbrev pub succeed : Kernel → Bool → Own (Unit {0})
succeed k true h = (ok tt, h)
succeed k false h = (err (external (k.errno h.log)), h)

-- `from_raw_fd` and the construction of a `Mapping`
abbrev pub own : Resource → Own (Unit {0})
own r h = (ok tt, record h { owned = r ∷ h.owned })

infixl 5 ◌>>=◌ ◌>>◌
abbrev pub follow : {A B : Type 0} → (A → Own B) → Result A × Held → Result B × Held
follow next (ok a, h) = next a h
follow next (err e, h) = (err e, h)

abbrev pub ◌>>=◌ : {A B : Type 0} → Own A → (A → Own B) → Own B
◌>>=◌ m next h = follow next (m h)

abbrev pub ◌>>◌ : {A B : Type 0} → Own A → Own B → Own B
m >> later = m >>= λ _. later

abbrev pub releasing : Resource → SysCall
releasing (descriptor fd) = close fd
releasing (mapping address len) = munmap address len

-- The drops at the end of a scope; their answers are ignored.
unfoldable pub drop_all : Kernel → List Resource → Log → Log
drop_all k [] log = log
drop_all k (r ∷ rs) log = drop_all k rs ((releasing r, k.answer log (releasing r)) ∷ log)

-- A function's end: an error drops what is owned, a value takes it along.
abbrev pub leave : {A : Type 0} → Kernel → Result A × Held → Result A × Held
leave k (ok a, h) = (ok a, h)
leave k (err e, h) = (err e, record { log = drop_all k h.owned h.log; owned = [] })
