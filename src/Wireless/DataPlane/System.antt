-- ===== src/Wireless/DataPlane/System.antt =====
-- The helpers of src/wireless/data_plane.rs around a system call: the wakeup of the consumer and its
-- wait, the length of a descriptor's file. What the kernel returns is an argument.
pub mod Wakeups
pub mod Tests
use dorsche.Base.{
  ℕ, zero, ◌≡◌, Bool, true, false, List, [], ◌∷◌, Option, none, some, Result, ok, err, ℤ, pos,
  negsuc, ◌==◌, if◌then◌else◌, external,
}

-- `io::Error::last_os_error()`, as far as the source tells errors apart.
pub data SysError : Type 0 where
  would_block : SysError
  failed : ℕ → SysError

-- A transfer of exactly one `u64`.
abbrev pub is_word : ℤ → Bool
is_word (pos n) = n == 8
is_word (negsuc n) = false

-- A saturated counter is no error: a wakeup is pending already.
unfoldable pub signal_eventfd : ℤ → SysError → Result (Unit {0})
signal_eventfd written would_block = ok tt
signal_eventfd written (failed n) = if is_word written then ok tt else err (external n)

-- `fstat`, then `usize::try_from` of the size.
unfoldable pub fd_len : ℤ → ℤ → ℕ → Result ℕ
fd_len (pos zero) (pos size) code = ok size
fd_len _ _ code = err (external code)

-- One round of the loop of `wait_readable`: the readiness, the read and its error.
pub record Wakeup : Type 0 where
  pub readable : Result (Unit {0})
  pub read : ℤ
  pub error : SysError

abbrev pub on_error : SysError → Option (Result (Unit {0})) → Option (Result (Unit {0}))
on_error would_block rest = rest
on_error (failed n) rest = some (err (external n))

-- `Consumer::wait_readable`; `none` still waits after these rounds.
unfoldable pub wait_readable : List Wakeup → Option (Result (Unit {0}))
wait_readable [] = none
wait_readable (w ∷ ws) = elim w.readable [
  | ok _ ↦ if is_word w.read then some (ok tt) else on_error w.error (wait_readable ws)
  | err e ↦ some (err e)
]
