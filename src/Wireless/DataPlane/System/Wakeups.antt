-- ===== src/Wireless/DataPlane/System/Wakeups.antt =====
-- When the consumer of the media ring stops waiting.
use dorsche.Base.{
  ◌≡◌, ◌↔◌, inl, inr, refl, ap, ◌∙◌, true, false, List, [], ◌∷◌, ◌++◌, some, ok, All, arith,
  Bool-cases,
}
use dorsche.Wireless.DataPlane.System.{would_block, is_word, Wakeup, wait_readable}

-- Ready, but the counter was empty.
pub record IsSpurious (w : Wakeup) : Type 0 where
  pub readable : w.readable ≡ ok tt
  pub short : is_word w.read ≡ false
  pub again : w.error ≡ would_block

pub record IsSignal (w : Wakeup) : Type 0 where
  pub readable : w.readable ≡ ok tt
  pub word : is_word w.read ≡ true

-- A signal behind spurious rounds only.
pub record Woken (ws : List Wakeup) : Type 0 where
  pub before : List Wakeup
  pub signal : Wakeup
  pub after : List Wakeup
  pub order : ws ≡ before ++ (signal ∷ after)
  pub spurious : All IsSpurious before
  pub signalled : IsSignal signal

Woken-of_wait : (ws : List Wakeup) → wait_readable ws ≡ some (ok tt) → Woken ws
unfolding wait_readable
Woken-of_wait [] h = absurd (ground arith)
Woken-of_wait (w ∷ ws) h = elim (Bool-cases (is_word w.read)) [
  | inl word ↦ record {
    before = [];
    signal = w;
    after = ws;
    order = refl;
    spurious = tt;
    signalled = record { readable = ground arith; word = word };
  }
  | inr short ↦
      let later : Woken ws = Woken-of_wait ws (ground arith) in
      let spurious : IsSpurious w = record {
        readable = ground arith;
        short = short;
        again = ground arith;
      } in
      record {
        before = w ∷ later.before;
        signal = later.signal;
        after = later.after;
        order = ap (λ rest. w ∷ rest) later.order;
        spurious = (spurious, later.spurious);
        signalled = later.signalled;
      }
]

wait_skips :
    (before : List Wakeup) (signal : Wakeup) (after : List Wakeup)
    → All IsSpurious before
    → IsSignal signal
    → wait_readable (before ++ (signal ∷ after)) ≡ some (ok tt)
unfolding wait_readable
wait_skips [] signal after s i = ground (arith, i.readable, i.word)
wait_skips (w ∷ before) signal after s i =
    ground (arith, s.0.readable, s.0.short, s.0.again, wait_skips before signal after s.1 i)

-- `wait_readable` returns well exactly when a round that is ready reads a whole counter, behind
-- rounds that were ready but found the counter empty.
pub wait_readable_iff : (ws : List Wakeup) → (wait_readable ws ≡ some (ok tt)) ↔ Woken ws
wait_readable_iff ws = (
  Woken-of_wait ws,
  (λ w. ap wait_readable w.order ∙ wait_skips w.before w.signal w.after w.spurious w.signalled),
)
