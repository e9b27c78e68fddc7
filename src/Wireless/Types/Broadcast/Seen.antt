-- ===== src/Wireless/Types/Broadcast/Seen.antt =====
-- The array `seen_bis` of `BroadcastConfiguration::validate`: which indices it lets through.
use dorsche.Base.{
  ℕ, zero, suc, ◌<◌, ◌≡◌, ◌≢◌, ◌↔◌, refl, Bool, true, false, List, [], ◌∷◌, ◌++◌, All, get_or, set,
  replicate, length, length-set, get_or-set, arith,
}

-- No number stands twice.
abbrev pub Distinct : List ℕ → Type 0
Distinct [] = Unit
Distinct (x ∷ xs) = All (λ y. x ≢ y) xs × Distinct xs

abbrev pub mark : List Bool → List ℕ → List Bool
mark seen [] = seen
mark seen (i ∷ is) = mark (set seen i true) is

-- The array lets the indices through, one after the other.
abbrev pub Admits : List Bool → List ℕ → Type 0
Admits seen [] = Unit
Admits seen (i ∷ is) = (get_or seen i false ≡ false) × Admits (set seen i true) is

pub mark-append :
    (seen : List Bool) (is js : List ℕ) → mark seen (is ++ js) ≡ mark (mark seen is) js
mark-append seen [] js = refl
mark-append seen (i ∷ is) js = mark-append (set seen i true) is js

pub Admits-append :
    (seen : List Bool) (is js : List ℕ)
    → Admits seen (is ++ js) ↔ (Admits seen is × Admits (mark seen is) js)
Admits-append seen [] js = ((λ h. (tt, h)), (λ h. h.1))
Admits-append seen (i ∷ is) js = (
  (λ h. ground (arith, Admits-append (set seen i true) is js)),
  (λ h. ground (arith, Admits-append (set seen i true) is js)),
)

-- What the array says of indices that are yet to come.
abbrev pub Fresh : List Bool → List ℕ → Type 0
Fresh seen = All (λ i. get_or seen i false ≡ false)

Fresh-set :
    (seen : List Bool) (i : ℕ) (is : List ℕ)
    → i < length seen
    → Fresh (set seen i true) is ↔ (Fresh seen is × All (λ j. i ≢ j) is)
Fresh-set seen i [] h = ((λ _. (tt, tt)), (λ _. tt))
Fresh-set seen i (j ∷ is) h = (
  (λ f. ground (arith, get_or-set seen i j true false h, (Fresh-set seen i is h).0 f.1)),
  (λ f. ground (arith, get_or-set seen i j true false h, (Fresh-set seen i is h).1 (f.0.1, f.1.1))),
)

pub Admits-iff :
    (seen : List Bool) (is : List ℕ)
    → All (λ i. i < length seen) is
    → Admits seen is ↔ (Fresh seen is × Distinct is)
Admits-iff seen [] h = ((λ _. (tt, tt)), (λ _. tt))
Admits-iff seen (i ∷ is) h = (
  (λ a. ground (arith, (Admits-iff (set seen i true) is after).0 a.1, Fresh-set seen i is h.0)),
  (λ f. ground (
    arith,
    (Fresh-set seen i is h.0).1 (f.0.1, f.1.0),
    λ (g : Fresh (set seen i true) is). (Admits-iff (set seen i true) is after).1 (g, f.1.1),
  )),
)
  where
    after : All (λ j. j < length (set seen i true)) is
    after = rw (length-set seen i true) h.1

pub All-append : (P : ℕ → Type 0) (xs ys : List ℕ) → All P xs → All P ys → All P (xs ++ ys)
All-append P [] ys p q = q
All-append P (x ∷ xs) ys p q = (p.0, All-append P xs ys p.1 q)

get_or-replicate : (n i : ℕ) → get_or (replicate n false) i false ≡ false
get_or-replicate zero i = refl
get_or-replicate (suc n) zero = refl
get_or-replicate (suc n) (suc i) = get_or-replicate n i

pub Fresh-replicate : (n : ℕ) (is : List ℕ) → Fresh (replicate n false) is
Fresh-replicate n [] = tt
Fresh-replicate n (i ∷ is) = (get_or-replicate n i, Fresh-replicate n is)
