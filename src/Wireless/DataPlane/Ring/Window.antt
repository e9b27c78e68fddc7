-- ===== src/Wireless/DataPlane/Ring/Window.antt =====
-- The frames between the two cursors of the ring, oldest first.
use dorsche.Base.{
  ℕ, zero, suc, ◌+◌, ◌-◌, ◌%◌, ◌≡◌, ◌≢◌, ◌≤◌, ◌<◌, refl, sym, ap, ap₂, ◌∙◌, List, [], ◌∷◌, ◌++◌,
  length, get_or, set, take, get_or-set_self, get_or-set_ne, arith, subst,
}
use native.Mathlib.Decide.{dec_lt}
use native.Mathlib.Nat.{mod-eq_of_lt, mod-eq-sub-mod, mod-add-mod, mod-lt, add-mod-mod}
use dorsche.Wireless.Types.Frame.{FrameDescriptor}
use dorsche.Wireless.DataPlane.Ring.{Slot}

-- What the consumer of a slot sees.
abbrev pub Frame : Type 0
Frame = FrameDescriptor × List ℕ

abbrev pub frame_of : Slot → Frame
frame_of s = (s.descriptor, take s.descriptor.payload_bytes s.payload)

mod-add-multiple : (count t m : ℕ) → m % count ≡ 0 → (t + m) % count ≡ t % count
mod-add-multiple count t m e =
    let drop : (t + m % count) % count ≡ (t + m) % count = add-mod-mod t m count in
    sym drop ∙ ap (λ x. (t + x) % count) e ∙ ap (λ x. x % count) (omega arith)

module _ (slots : List Slot) (count : ℕ) (blank : Slot) where
  -- The `n` frames from cursor `t` on. The cursors count on here without wrapping.
  abbrev pub window : ℕ → ℕ → List Frame
  window t zero = []
  window t (suc n) = frame_of (get_or slots (t % count) blank) ∷ window (t + 1) n

  pub length-window : (t n : ℕ) → length (window t n) ≡ n
  length-window t zero = refl
  length-window t (suc n) = ap suc (length-window (t + 1) n)

  -- Moving the cursor by a multiple of the slot count changes nothing.
  pub window-wrap : (m : ℕ) → m % count ≡ 0 → (t n : ℕ) → window (t + m) n ≡ window t n
  window-wrap m e t zero = refl
  window-wrap m e t (suc n) =
      ap₂ (λ i rest. frame_of (get_or slots i blank) ∷ rest) (mod-add-multiple count t m e)
        (subst (λ u. window u n ≡ window (t + 1) n) (omega arith) (window-wrap m e (t + 1) n))

-- Fewer than `count` steps round the ring do not come back to the start.
pub mod-add-ne : (count t k : ℕ) → 0 < k → k < count → t % count ≢ (t + k) % count
mod-add-ne count t k p q = elim (dec_lt (t % count + k) count) [
  | yes r ↦ omega (arith, mod-add-mod t count k, mod-eq_of_lt {n = t % count + k} {m = count} r)
  | no r ↦ omega (
    arith,
    mod-add-mod t count k,
    mod-lt t {m = count} (omega arith),
    mod-eq-sub-mod {n = t % count + k} {m = count} (omega arith),
    mod-eq_of_lt {n = t % count + k - count} {m = count}
        (omega (arith, mod-lt t {m = count} (omega arith))),
  )
]

-- Writing the slot past a window appends its frame.
pub window-set :
    (slots : List Slot) (count : ℕ) (blank s : Slot) (n t i : ℕ)
    → n < count
    → count ≤ length slots
    → i ≡ (t + n) % count
    → window (set slots i s) count blank t (suc n)
      ≡ window slots count blank t n ++ (frame_of s ∷ [])
window-set slots count blank s zero t i h k e =
    let here : i ≡ t % count = e ∙ ap (λ x. x % count) (omega arith) in
    rw here (
      ap (λ x. frame_of x ∷ [])
        (get_or-set_self slots (t % count) s blank
          (omega (arith, mod-lt t {m = count} (omega arith)))))
window-set slots count blank s (suc n) t i h k e =
    ap₂ (λ x rest. frame_of x ∷ rest)
      (get_or-set_ne slots s blank
        (λ same. mod-add-ne count t (suc n) (omega arith) h (sym (sym e ∙ same))))
      (window-set slots count blank s n (t + 1) i (omega arith) k
        (e ∙ ap (λ x. x % count) (omega arith)))
