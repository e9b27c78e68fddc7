-- ===== src/Tools/Hfp/Delay/Line.antt =====
-- The circular delay line as a queue.
use dorsche.Base.{
  ℕ, zero, suc, ◌+◌, ◌≤◌, ◌<◌, ◌≡◌, refl, sym, ap, ap₂, ◌∙◌, inl, inr, List, [], ◌∷◌, ◌++◌,
  append-nil, append_assoc, length, length-set, get_or, set, take, drop, ◌==◌, ==_iff, Bool-cases,
  arith,
}
use dorsche.Tools.Hfp.Delay.{DelayLine, advance, exchange, read_line}

-- What the line will give out, the next byte first.
abbrev pub view : DelayLine → List ℕ
view d = drop d.cursor d.bytes ++ take d.cursor d.bytes

drop-get_or : (xs : List ℕ) (i : ℕ) → i < length xs → drop i xs ≡ get_or xs i 0 ∷ drop (suc i) xs
drop-get_or [] i h = absurd (omega arith)
drop-get_or (x ∷ xs) zero h = refl
drop-get_or (x ∷ xs) (suc i) h = drop-get_or xs i (omega arith)

drop-set : (xs : List ℕ) (i b : ℕ) → drop (suc i) (set xs i b) ≡ drop (suc i) xs
drop-set [] i b = refl
drop-set (x ∷ xs) zero b = refl
drop-set (x ∷ xs) (suc i) b = drop-set xs i b

take-set :
    (xs : List ℕ) (i b : ℕ) → i < length xs → take (suc i) (set xs i b) ≡ take i xs ++ (b ∷ [])
take-set [] i b h = absurd (omega arith)
take-set (x ∷ xs) zero b h = refl
take-set (x ∷ xs) (suc i) b h = ap (λ r. x ∷ r) (take-set xs i b (omega arith))

take-suc :
    (xs : List ℕ) (i : ℕ) → i < length xs → take (suc i) xs ≡ take i xs ++ (get_or xs i 0 ∷ [])
take-suc [] i h = absurd (omega arith)
take-suc (x ∷ xs) zero h = refl
take-suc (x ∷ xs) (suc i) h = ap (λ r. x ∷ r) (take-suc xs i (omega arith))

pub drop-length : (xs : List ℕ) (i : ℕ) → length xs ≤ i → drop i xs ≡ []
drop-length [] zero h = refl
drop-length [] (suc i) h = refl
drop-length (x ∷ xs) zero h = absurd (omega arith)
drop-length (x ∷ xs) (suc i) h = drop-length xs i (omega arith)

pub take-all : (xs : List ℕ) (i : ℕ) → length xs ≤ i → take i xs ≡ xs
take-all [] zero h = refl
take-all [] (suc i) h = refl
take-all (x ∷ xs) zero h = absurd (omega arith)
take-all (x ∷ xs) (suc i) h = ap (λ r. x ∷ r) (take-all xs i (omega arith))

-- The bytes behind the next one.
abbrev behind : DelayLine → List ℕ
behind d = drop (suc d.cursor) d.bytes ++ take d.cursor d.bytes

pub view-uncons :
    (d : DelayLine) → d.cursor < length d.bytes → view d ≡ get_or d.bytes d.cursor 0 ∷ behind d
view-uncons d h = ap (λ r. r ++ take d.cursor d.bytes) (drop-get_or d.bytes d.cursor h)

-- The view at the advanced cursor, in a list that agrees with the line but for the byte at the cursor.
view-advance :
    (d : DelayLine) (bytes : List ℕ) (b : ℕ)
    → d.cursor < length d.bytes
    → length bytes ≡ length d.bytes
    → drop (suc d.cursor) bytes ≡ drop (suc d.cursor) d.bytes
    → take (suc d.cursor) bytes ≡ take d.cursor d.bytes ++ (b ∷ [])
    → view (record { bytes = bytes; cursor = advance d }) ≡ behind d ++ (b ∷ [])
view-advance d bytes b h same after before = elim (Bool-cases (d.cursor + 1 == length d.bytes)) [
  | inl last ↦
      let end : length d.bytes ≤ suc d.cursor =
        omega (arith, (==_iff (d.cursor + 1) (length d.bytes)).0 last) in
      let none_after : drop (suc d.cursor) d.bytes ≡ [] = drop-length d.bytes (suc d.cursor) end in
      let whole : take (suc d.cursor) bytes ≡ bytes = take-all bytes (suc d.cursor) (omega arith) in
      rw last (
        append-nil bytes
        ∙ sym whole
        ∙ before
        ∙ ap (λ r. (r ++ take d.cursor d.bytes) ++ (b ∷ [])) (sym none_after))
  | inr more ↦
      let next : d.cursor + 1 ≡ suc d.cursor = omega arith in
      rw (more, next)
        (ap₂ (λ r t. r ++ t) after before
          ∙ sym (append_assoc (drop (suc d.cursor) d.bytes) (take d.cursor d.bytes) (b ∷ [])))
]

module _ (d : DelayLine) (b : ℕ) (h : d.cursor < length d.bytes) where
  pub view-write :
      view (record { bytes = set d.bytes d.cursor b; cursor = advance d }) ≡ behind d ++ (b ∷ [])
  view-write =
      view-advance d (set d.bytes d.cursor b) b h (length-set d.bytes d.cursor b)
        (drop-set d.bytes d.cursor b) (take-set d.bytes d.cursor b h)

pub view-read :
    (d : DelayLine)
    → d.cursor < length d.bytes
    → view (record d { cursor = advance d }) ≡ behind d ++ (get_or d.bytes d.cursor 0 ∷ [])
view-read d h =
    view-advance d d.bytes (get_or d.bytes d.cursor 0) h refl refl (take-suc d.bytes d.cursor h)

advance_lt : (d : DelayLine) → d.cursor < length d.bytes → advance d < length d.bytes
advance_lt d h = ground arith

-- A frame through the line: the line gives out its oldest bytes and keeps the newest.
pub exchange_lem :
    (frame : List ℕ) (d : DelayLine)
    → d.cursor < length d.bytes
    → let (out, d') = exchange frame d in
      (out ++ view d' ≡ view d ++ frame)
      × (d'.cursor < length d'.bytes)
      × (length d'.bytes ≡ length d.bytes)
unfolding exchange
exchange_lem [] d h = (sym (append-nil (view d)), h, refl)
exchange_lem (b ∷ rest) d h =
    let d' : DelayLine = record { bytes = set d.bytes d.cursor b; cursor = advance d } in
    let same = length-set d.bytes d.cursor b in
    let (flow, inside, size) = exchange_lem rest d' (omega (arith, advance_lt d h, same)) in
    (
      ap (λ r. get_or d.bytes d.cursor 0 ∷ r)
            (flow ∙ ap (λ v. v ++ rest) (view-write d b h) ∙ append_assoc (behind d) (b ∷ []) rest)
          ∙ sym (ap (λ v. v ++ (b ∷ rest)) (view-uncons d h)),
      inside,
      size ∙ same,
    )

-- Reading the line without writing turns it round.
pub read_line_lem :
    (n : ℕ) (d : DelayLine) (old new : List ℕ)
    → d.cursor < length d.bytes
    → view d ≡ old ++ new
    → length old ≡ n
    → let (out, d') = read_line n d in
      (out ≡ old) × (view d' ≡ new ++ old) × (d'.cursor < length d'.bytes) × (d'.bytes ≡ d.bytes)
unfolding read_line
read_line_lem zero d [] new h e k = (refl, e ∙ sym (append-nil new), h, refl)
read_line_lem zero d (x ∷ old) new h e k = absurd (omega arith)
read_line_lem (suc n) d [] new h e k = absurd (omega arith)
read_line_lem (suc n) d (x ∷ old) new h e k =
    let split : get_or d.bytes d.cursor 0 ∷ behind d ≡ x ∷ (old ++ new) =
      sym (view-uncons d h) ∙ e in
    let head : get_or d.bytes d.cursor 0 ≡ x = cc in
    let tail : behind d ≡ old ++ new = cc in
    let d' : DelayLine = record d { cursor = advance d } in
    let turned : view d' ≡ old ++ (new ++ (x ∷ [])) =
      view-read d h ∙ ap₂ (λ t v. t ++ (v ∷ [])) tail head ∙ append_assoc old new (x ∷ []) in
    let (out, later, inside, bytes) =
      read_line_lem n d' old (new ++ (x ∷ [])) (advance_lt d h) turned (omega arith) in
    (ap₂ (λ v r. v ∷ r) head out, later ∙ append_assoc new (x ∷ []) old, inside, bytes)
