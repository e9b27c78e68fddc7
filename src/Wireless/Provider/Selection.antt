-- ===== src/Wireless/Provider/Selection.antt =====
-- What the registry selects.
use dorsche.Base.{
  ◌≡◌, ◌↔◌, ◌⊎◌, inl, inr, refl, sym, ap, subst, Error, ◌∙◌, true, false, List, [], ◌∷◌, ◌++◌,
  append-nil, append_assoc, Option, none, some, ok, err, All, any, arith, no_provider,
  if◌then◌else◌, Bool-cases, Option-cases, Result-cases,
}
use dorsche.Wireless.Types.Kinds.{SessionType, same_session_type, same_session_type_iff}
use dorsche.Wireless.Provider.{
  ProviderCapabilities, SessionRequest, CapabilityProvider, CapabilityRegistry, new, register, find,
  select, require_explicit_fallback, default_accepts,
}

abbrev pub Refuses : SessionRequest → CapabilityProvider → Type 0
Refuses r p = p.accepts r ≡ false

-- The first provider that accepts, and what it offers.
pub record FirstAccepting (ps : List CapabilityProvider) (r : SessionRequest)
    (c : ProviderCapabilities) : Type 0 where
  pub before : List CapabilityProvider
  pub chosen : CapabilityProvider
  pub after : List CapabilityProvider
  pub order : ps ≡ before ++ (chosen ∷ after)
  pub refused : All (Refuses r) before
  pub accepted : chosen.accepts r ≡ true
  pub offers : chosen.capabilities ≡ c

first_of_find :
    (ps : List CapabilityProvider) (r : SessionRequest) (c : ProviderCapabilities)
    → find ps r ≡ some c
    → FirstAccepting ps r c
unfolding find
first_of_find [] r c h = absurd (ground arith)
first_of_find (p ∷ ps) r c h = elim (Bool-cases (p.accepts r)) [
  | inl e ↦ record {
    before = [];
    chosen = p;
    after = ps;
    order = refl;
    refused = tt;
    accepted = e;
    offers = ground arith;
  }
  | inr e ↦
      let later : FirstAccepting ps r c = first_of_find ps r c (ground arith) in
      record {
        before = p ∷ later.before;
        chosen = later.chosen;
        after = later.after;
        order = ap (λ rest. p ∷ rest) later.order;
        refused = (e, later.refused);
        accepted = later.accepted;
        offers = later.offers;
      }
]

find_skips :
    (before rest : List CapabilityProvider) (r : SessionRequest)
    → All (Refuses r) before
    → find (before ++ rest) r ≡ find rest r
unfolding find
find_skips [] rest r h = refl
find_skips (p ∷ before) rest r h = rw h.0 (find_skips before rest r h.1)

find_of_first :
    (ps : List CapabilityProvider) (r : SessionRequest) (c : ProviderCapabilities)
    → FirstAccepting ps r c
    → find ps r ≡ some c
find_of_first ps r c f =
    ap (λ l. find l r) f.order
    ∙ find_skips f.before (f.chosen ∷ f.after) r f.refused
    ∙ unfold find in (rw f.accepted (ap some f.offers))

-- A request is served by the first provider, in registration order, that accepts it, and by no
-- other.
pub select_first :
    (g : CapabilityRegistry) (r : SessionRequest) (c : ProviderCapabilities)
    → (select g r ≡ ok c) ↔ FirstAccepting g.providers r c
unfolding select
select_first g r c = (
  (λ h. first_of_find g.providers r c (ground arith)),
  (λ f. rw (find_of_first g.providers r c f, select)),
)

find-none :
    (ps : List CapabilityProvider) (r : SessionRequest) → (find ps r ≡ none) ↔ All (Refuses r) ps
unfolding find
find-none [] r = ((λ h. tt), (λ h. refl))
find-none (p ∷ ps) r =
    ((λ h. ground (arith, find-none ps r)), (λ h. ground (arith, find-none ps r)))

-- A request has no provider exactly when all of them refuse it.
pub select_none :
    (g : CapabilityRegistry) (r : SessionRequest)
    → (select g r ≡ err no_provider) ↔ All (Refuses r) g.providers
unfolding select
select_none g r = (
  (λ h. ground (arith, find-none g.providers r)),
  (λ h. rw ((find-none g.providers r).1 h, select)),
)

select_fails :
    (g : CapabilityRegistry) (r : SessionRequest) {e : Error}
    → select g r ≡ err e
    → select g r ≡ err no_provider
unfolding select
select_fails g r h = ground arith

find-register :
    (ps : List CapabilityProvider) (p : CapabilityProvider) (r : SessionRequest)
    → find (ps ++ (p ∷ [])) r ≡ elim (find ps r) [
      | some c ↦ some c
      | none ↦ if p.accepts r then some p.capabilities else none
    ]
unfolding find
find-register [] p r = refl
find-register (q ∷ ps) p r = ground (arith, find-register ps p r)

-- A provider that is registered later serves only what nobody served before.
pub select-register :
    (g : CapabilityRegistry) (p : CapabilityProvider) (r : SessionRequest)
    → ((c : ProviderCapabilities) → select g r ≡ ok c → select (register g p) r ≡ ok c)
      × (select g r ≡ err no_provider
          → select (register g p) r ≡ (if p.accepts r then ok p.capabilities else err no_provider))
unfolding select register
select-register g p r = (
  (λ c h. ground (arith, find-register g.providers p r)),
  (λ h. ground (arith, find-register g.providers p r)),
)

-- The fallback is used only if it is given and every provider refuses the preferred request; then
-- it is the fallback request that is served, in registration order.
pub require_explicit_fallback_iff :
    (g : CapabilityRegistry) (preferred : SessionRequest) (fallback : Option SessionRequest)
    (c : ProviderCapabilities)
    → (require_explicit_fallback g preferred fallback ≡ ok c) ↔ (
        FirstAccepting g.providers preferred c
        ⊎ (All (Refuses preferred) g.providers
            × ((r : SessionRequest) × (fallback ≡ some r) × FirstAccepting g.providers r c)))
unfolding require_explicit_fallback
require_explicit_fallback_iff g p f c = (forward, backward)
  where
    forward :
        require_explicit_fallback g p f ≡ ok c
        → FirstAccepting g.providers p c
          ⊎ (All (Refuses p) g.providers
              × ((r : SessionRequest) × (f ≡ some r) × FirstAccepting g.providers r c))
    forward h = elim (Result-cases (select g p)) [
      | inl (d, e) ↦ inl ((select_first g p c).0 (ground arith))
      | inr (x, e) ↦ elim (Option-cases f) [
        | inl none_given ↦ absurd (ground arith)
        | inr (r, given) ↦ inr (
          (select_none g p).0 (select_fails g p e),
          (r, given, (select_first g r c).0 (ground arith)),
        )
      ]
    ]

    backward :
        FirstAccepting g.providers p c
          ⊎ (All (Refuses p) g.providers
              × ((r : SessionRequest) × (f ≡ some r) × FirstAccepting g.providers r c))
        → require_explicit_fallback g p f ≡ ok c
    backward (inl first) = ground (arith, (select_first g p c).1 first)
    backward (inr (refused, (r, given, first))) =
        ground (arith, (select_none g p).1 refused, (select_first g r c).1 first, given)

-- The registry after these registrations, the first one first.
abbrev pub register_all : CapabilityRegistry → List CapabilityProvider → CapabilityRegistry
register_all g [] = g
register_all g (p ∷ ps) = register_all (register g p) ps

register_all_lem :
    (g : CapabilityRegistry) (ps : List CapabilityProvider)
    → (register_all g ps).providers ≡ g.providers ++ ps
unfolding register
register_all_lem g [] = sym (append-nil g.providers)
register_all_lem g (p ∷ ps) =
    register_all_lem (register g p) ps ∙ append_assoc g.providers (p ∷ []) ps

registered : (ps : List CapabilityProvider) → (register_all new ps).providers ≡ ps
unfolding new
registered ps = register_all_lem new ps

-- On a registry that was filled by `register`, `require_explicit_fallback` serves a request with the first
-- provider, in the order of the registrations, that accepts the preferred request. If all refuse it and a
-- fallback is given, it serves that with the first provider that accepts it, and in no other case
-- anything.
pub register-require_explicit_fallback_iff :
    (ps : List CapabilityProvider) (preferred : SessionRequest) (fallback : Option SessionRequest)
    (c : ProviderCapabilities)
    → (require_explicit_fallback (register_all new ps) preferred fallback ≡ ok c) ↔ (
        FirstAccepting ps preferred c
        ⊎ (All (Refuses preferred) ps
            × ((r : SessionRequest) × (fallback ≡ some r) × FirstAccepting ps r c)))
register-require_explicit_fallback_iff ps preferred fallback c =
    subst
      (λ qs. (require_explicit_fallback (register_all new ps) preferred fallback ≡ ok c) ↔ (
        FirstAccepting qs preferred c
        ⊎ (All (Refuses preferred) qs
            × ((r : SessionRequest) × (fallback ≡ some r) × FirstAccepting qs r c))))
      (registered ps) (require_explicit_fallback_iff (register_all new ps) preferred fallback c)

-- A session type of a list.
abbrev pub IsMember : SessionType → List SessionType → Type 0
IsMember t [] = ⊥
IsMember t (u ∷ ts) = (t ≡ u) ⊎ IsMember t ts

-- A provider that accepts no more than the default body of the trait does.
abbrev pub IsPlain : CapabilityProvider → Type 0
IsPlain p = (r : SessionRequest) → p.accepts r ≡ true → default_accepts p.capabilities r ≡ true

any_same :
    (t : SessionType) (ts : List SessionType) → any (same_session_type t) ts ≡ true → IsMember t ts
any_same t [] h = absurd (ground arith)
any_same t (u ∷ ts) h = ground (arith, same_session_type_iff t u, any_same t ts)

All-middle :
    (P : CapabilityProvider → Type 0) (before after : List CapabilityProvider)
    (p : CapabilityProvider)
    → All P (before ++ (p ∷ after))
    → P p
All-middle P [] after p h = h.0
All-middle P (q ∷ before) after p h = All-middle P before after p h.1

default_keeps_type :
    (c : ProviderCapabilities) (r : SessionRequest)
    → default_accepts c r ≡ true
    → IsMember r.session_type c.session_types
unfolding default_accepts
default_keeps_type c r h = any_same r.session_type c.session_types (ground arith)

-- The selected provider lists the very session type that was asked for, if every provider accepts
-- at most what the default `accepts` does: software and offload are never exchanged silently.
pub select_keeps_type :
    (g : CapabilityRegistry) (r : SessionRequest) (c : ProviderCapabilities)
    → All IsPlain g.providers
    → select g r ≡ ok c
    → IsMember r.session_type c.session_types
select_keeps_type g r c plain h =
    let f : FirstAccepting g.providers r c = (select_first g r c).0 h in
    let chosen_plain : IsPlain f.chosen =
      All-middle IsPlain f.before f.after f.chosen (subst (All IsPlain) f.order plain) in
    subst (λ d. IsMember r.session_type d.session_types) f.offers
      (default_keeps_type f.chosen.capabilities r (chosen_plain r f.accepted))
