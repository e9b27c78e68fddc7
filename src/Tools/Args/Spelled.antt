-- ===== src/Tools/Args/Spelled.antt =====
-- Command lines as sequences of settings, for all the parsers of src/bin.
use dorsche.Base.{
  ◌≡◌, refl, sym, ap, ◌∙◌, subst, ◌↔◌, inl, inr, List, [], ◌∷◌, ◌++◌, none, some, Error, Result, ok,
  err, ◌>>=◌, Result-cases, String, unknown_argument, bind_passed,
}
use dorsche.Tools.Args.{
  Arm, valued, flag, helps, unknown, Parsed, returns, exits, take_arm, parse_loop, checked,
}

module _ {A : Type 0} where
  -- How an option is written, with its value if it takes one, and what it does.
  abbrev pub spelled : Arm A → String → String → List String
  spelled (valued assign) name value = name ∷ value ∷ []
  spelled (flag f) name value = name ∷ []
  spelled helps name value = name ∷ []
  spelled unknown name value = name ∷ []

  abbrev pub effect : Arm A → String → A → Result A
  effect (valued assign) value a = assign value a
  effect (flag f) value a = ok (f a)
  effect helps value a = err unknown_argument
  effect unknown value a = err unknown_argument

  abbrev pub IsSetting : Arm A → Type 0
  IsSetting (valued assign) = Unit
  IsSetting (flag f) = Unit
  IsSetting helps = ⊥
  IsSetting unknown = ⊥

  returns-inj : {r s : Result A} → returns r ≡ returns s → r ≡ s
  returns-inj e = cc

module _ {K A : Type 0} (key : String → K) (name : K → String) (meaning : K → Arm A) where
  -- A sequence of settings as words, and its effect: each after the other, so that the last one counts.
  abbrev pub command_line : List (K × String) → List String
  command_line [] = []
  command_line ((k, value) ∷ ss) = spelled (meaning k) (name k) value ++ command_line ss

  abbrev pub apply_all : List (K × String) → A → Result A
  apply_all [] a = ok a
  apply_all ((k, value) ∷ ss) a = effect (meaning k) value a >>= apply_all ss

  -- Each option has one spelling.
  pub record IsLanguage : Type 0 where
    pub key-name : (k : K) → IsSetting (meaning k) → key (name k) ≡ k
    pub name-key : (w : String) → IsSetting (meaning (key w)) → name (key w) ≡ w

  abbrev arm_of : String → Arm A
  arm_of w = meaning (key w)

  abbrev Reads : List String → A → A → Type 0
  Reads ws a b = (ss : List (K × String)) × (command_line ss ≡ ws) × (apply_all ss a ≡ ok b)

  module _ (l : IsLanguage) where
    read_flag :
        (w : String) (ws : List String) (f : A → A) (a b : A)
        → arm_of w ≡ flag f
        → Reads ws (f a) b
        → Reads (w ∷ ws) a b
    read_flag w ws f a b e (ss, line, done) =
        let n : name (key w) ≡ w = l.name-key w (subst IsSetting (sym e) tt) in
        ((key w, w) ∷ ss, rw (e, n, line), rw e done)

    read_valued :
        (w v : String) (ws : List String) (assign : String → A → Result A) (a b c : A)
        → arm_of w ≡ valued assign
        → assign v a ≡ ok c
        → Reads ws c b
        → Reads (w ∷ v ∷ ws) a b
    read_valued w v ws assign a b c e given (ss, line, done) =
        let n : name (key w) ≡ w = l.name-key w (subst IsSetting (sym e) tt) in
        ((key w, v) ∷ ss, rw (e, n, line), rw (e, given) done)

    read_last :
        (w : String) (a b : A) (arm : Arm A)
        → arm_of w ≡ arm
        → take_arm
            (λ assign. parse_loop arm_of [] (some assign) a)
            (λ c. parse_loop arm_of [] none c)
            a
            arm
          ≡ returns (ok b)
        → Reads (w ∷ []) a b
    unfolding parse_loop
    read_last w a b (valued assign) e h = cc
    read_last w a b (flag f) e h = read_flag w [] f a b e ([], refl, returns-inj h)
    read_last w a b helps e h = cc
    read_last w a b unknown e h = cc

    read_pair :
        (w v : String) (ws : List String) (a b : A) (arm : Arm A)
        → ((c : A) → parse_loop arm_of ws none c ≡ returns (ok b) → Reads ws c b)
        → ((c : A) → parse_loop arm_of (v ∷ ws) none c ≡ returns (ok b) → Reads (v ∷ ws) c b)
        → arm_of w ≡ arm
        → take_arm
            (λ assign. parse_loop arm_of (v ∷ ws) (some assign) a)
            (λ c. parse_loop arm_of (v ∷ ws) none c)
            a
            arm
          ≡ returns (ok b)
        → Reads (w ∷ v ∷ ws) a b
    read_pair w v ws a b (valued assign) ih ih' e h =
        unfold parse_loop in
        elim (Result-cases (assign v a)) [
          | inl (c, given) ↦ read_valued w v ws assign a b c e given (ih c (rw given at h))
          | inr (x, failed) ↦ absurd (refused (rw failed at h))
        ]
      where
        refused : {x : Error} → returns (err x) ≡ returns (ok b) → ⊥
        refused q = cc
    read_pair w v ws a b (flag f) ih ih' e h = read_flag w (v ∷ ws) f a b e (ih' (f a) h)
    read_pair w v ws a b helps ih ih' e h = cc
    read_pair w v ws a b unknown ih ih' e h = cc

    accepted-Reads :
        (ws : List String) (a b : A) → parse_loop arm_of ws none a ≡ returns (ok b) → Reads ws a b
    unfolding parse_loop
    accepted-Reads [] a b h = ([], refl, returns-inj h)
    accepted-Reads (w ∷ []) a b h = read_last w a b (arm_of w) refl h
    accepted-Reads (w ∷ v ∷ ws) a b h =
        read_pair w v ws a b (arm_of w) (λ c. accepted-Reads ws c b)
          (λ c. accepted-Reads (v ∷ ws) c b) refl h

    accept_setting :
        (k : K) (value : String) (ws : List String) (a b : A) (later : A → Result A) (arm : Arm A)
        → ((c : A) → later c ≡ ok b → parse_loop arm_of ws none c ≡ returns (ok b))
        → meaning k ≡ arm
        → (effect arm value a >>= later) ≡ ok b
        → parse_loop arm_of (spelled arm (name k) value ++ ws) none a ≡ returns (ok b)
    unfolding parse_loop
    accept_setting k value ws a b later (valued assign) ih e h =
        let (c, given, rest) = bind_passed (assign value a) later h in
        let known : meaning (key (name k)) ≡ valued assign =
          ap meaning (l.key-name k (subst IsSetting (sym e) tt)) ∙ e in
        rw (known, given) (ih c rest)
    accept_setting k value ws a b later (flag f) ih e h =
        let known : meaning (key (name k)) ≡ flag f =
          ap meaning (l.key-name k (subst IsSetting (sym e) tt)) ∙ e in
        rw known (ih (f a) h)
    accept_setting k value ws a b later helps ih e h = cc
    accept_setting k value ws a b later unknown ih e h = cc

    reads_accepted :
        (ss : List (K × String)) (a b : A)
        → apply_all ss a ≡ ok b
        → parse_loop arm_of (command_line ss) none a ≡ returns (ok b)
    unfolding parse_loop
    reads_accepted [] a b h = ap returns h
    reads_accepted ((k, value) ∷ ss) a b h =
        accept_setting k value (command_line ss) a b (apply_all ss) (meaning k)
          (λ c later. reads_accepted ss c b later) refl h

    checked_passed :
        {B : Type 0} (check : A → Result B) (p : Parsed A) (b : B)
        → checked check p ≡ returns (ok b)
        → (c : A) × (p ≡ returns (ok c)) × (check c ≡ ok b)
    checked_passed check (returns (ok c)) b h = (c, refl, (cc))
    checked_passed check (returns (err e)) b h = cc
    checked_passed check exits b h = cc

    -- The arguments that a parser takes are the sequences of settings, each applied to what the ones
    -- before it have made of the defaults, that pass its checks.
    pub parsed_iff :
        {B : Type 0} (check : A → Result B) (ws : List String) (a : A) (b : B)
        → (checked check (parse_loop arm_of ws none a) ≡ returns (ok b)) ↔ (
            (ss : List (K × String)) × (command_line ss ≡ ws) × ((apply_all ss a >>= check) ≡ ok b))
    parsed_iff {B} check ws a b = (forth, back)
      where
        forth :
            checked check (parse_loop arm_of ws none a) ≡ returns (ok b)
            → (ss : List (K × String)) × (command_line ss ≡ ws)
              × ((apply_all ss a >>= check) ≡ ok b)
        forth h =
            let (c, looped, passed) = checked_passed check (parse_loop arm_of ws none a) b h in
            let (ss, line, done) = accepted-Reads ws a c looped in (ss, line, rw done passed)

        back :
            (ss : List (K × String)) × (command_line ss ≡ ws) × ((apply_all ss a >>= check) ≡ ok b)
            → checked check (parse_loop arm_of ws none a) ≡ returns (ok b)
        back (ss, line, h) =
            let (c, done, passed) = bind_passed (apply_all ss a) check h in
            rw (← line) (rw (reads_accepted ss a c done) (ap returns passed))
