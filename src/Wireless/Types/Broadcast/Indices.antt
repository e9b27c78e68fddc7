-- ===== src/Wireless/Types/Broadcast/Indices.antt =====
-- `BroadcastConfiguration::validate` against its meaning: the array of seen indices decides that
-- no BIS index stands twice in the whole broadcast.
use dorsche.Base.{
  ℕ, ◌<◌, ◌≤◌, ◌≡◌, ◌≢◌, ◌↔◌, refl, sym, ◌∙◌, Bool, true, false, List, [], ◌∷◌, ◌++◌, ok,
  bind_passed, subst, All, get_or, set, replicate, arith,
}
use dorsche.Wireless.Types.Pcm
use dorsche.Wireless.Types.Lc3
use dorsche.Wireless.Types.Lc3.{Lc3Configuration}
use dorsche.Wireless.Types.Broadcast.Seen.{
  Distinct, mark, Admits, mark-append, Admits-append, Admits-iff, All-append, Fresh-replicate,
}
use dorsche.Wireless.Types.Broadcast.{
  BisConfiguration, BroadcastSubgroup, BroadcastConfiguration, validate_one, validate_bis,
  validate_subgroup, validate_subgroups, collect_bis, validate,
}

abbrev pub bis_indices : List BisConfiguration → List ℕ
bis_indices [] = []
bis_indices (b ∷ bs) = b.bis_index ∷ bis_indices bs

-- All BIS indices of the broadcast, in order.
abbrev pub indices : List BroadcastSubgroup → List ℕ
indices [] = []
indices (g ∷ gs) = bis_indices g.bis ++ indices gs

pub record IsUsableBis (codec : Lc3Configuration) (b : BisConfiguration) : Type 0 where
  pub low : 1 ≤ b.bis_index
  pub high : b.bis_index ≤ 31
  pub codec_supported : Lc3.IsSupported b.lc3
  pub codec_matches : b.lc3 ≡ codec

pub record IsUsableSubgroup (g : BroadcastSubgroup) : Type 0 where
  pub codec : Lc3.IsSupported g.codec
  pub some_bis : g.bis ≢ []
  pub all_bis : All (IsUsableBis g.codec) g.bis

validate_one_iff :
    (codec : Lc3Configuration) (b : BisConfiguration) (seen seen' : List Bool)
    → (validate_one codec b seen ≡ ok seen') ↔ (
        IsUsableBis codec b
        × (get_or seen b.bis_index false ≡ false)
        × (seen' ≡ set seen b.bis_index true))
unfolding validate_one
validate_one_iff codec b seen seen' = (
  (λ h. ground (arith, Lc3.validate_iff b.lc3, Lc3.equal_iff b.lc3 codec)),
  (λ h. ground (arith, Lc3.validate_iff b.lc3, Lc3.equal_iff b.lc3 codec)),
)

validate_bis_iff :
    (codec : Lc3Configuration) (bs : List BisConfiguration) (seen seen' : List Bool)
    → (validate_bis codec bs seen ≡ ok seen') ↔ (
        All (IsUsableBis codec) bs
        × Admits seen (bis_indices bs)
        × (seen' ≡ mark seen (bis_indices bs)))
unfolding validate_bis
validate_bis_iff codec [] seen seen' = ((λ h. ground arith), (λ h. ground arith))
validate_bis_iff codec (b ∷ bs) seen seen' = (
  (λ h.
      let (x, e, r) = bind_passed (validate_one codec b seen) (validate_bis codec bs) h in
      let (usable, fresh, same) = (validate_one_iff codec b seen x).0 e in
      let (all, admits, marked) =
        (validate_bis_iff codec bs (set seen b.bis_index true) seen').0
          (subst (λ y. validate_bis codec bs y ≡ ok seen') same r) in
      ((usable, all), (fresh, admits), marked)),
  (λ ((usable, all), (fresh, admits), marked).
      rw ((validate_one_iff codec b seen (set seen b.bis_index true)).1 (usable, fresh, refl))
        ((validate_bis_iff codec bs (set seen b.bis_index true) seen').1 (all, admits, marked))),
)

validate_subgroup_iff :
    (g : BroadcastSubgroup) (seen seen' : List Bool)
    → (validate_subgroup g seen ≡ ok seen') ↔ (
        IsUsableSubgroup g
        × Admits seen (bis_indices g.bis)
        × (seen' ≡ mark seen (bis_indices g.bis)))
unfolding validate_subgroup
validate_subgroup_iff g seen seen' = (
  (λ h. ground (arith, Lc3.validate_iff g.codec, validate_bis_iff g.codec g.bis seen seen')),
  (λ h. ground (
    arith,
    (Lc3.validate_iff g.codec).1 h.0.codec,
    (validate_bis_iff g.codec g.bis seen seen').1 (h.0.all_bis, h.1, h.2),
    h.0.some_bis,
  )),
)

validate_subgroups_iff :
    (gs : List BroadcastSubgroup) (seen seen' : List Bool)
    → (validate_subgroups gs seen ≡ ok seen')
      ↔ (All IsUsableSubgroup gs × Admits seen (indices gs) × (seen' ≡ mark seen (indices gs)))
unfolding validate_subgroups
validate_subgroups_iff [] seen seen' = ((λ h. ground arith), (λ h. ground arith))
validate_subgroups_iff (g ∷ gs) seen seen' = (
  (λ h.
      let (x, e, r) = bind_passed (validate_subgroup g seen) (validate_subgroups gs) h in
      let (usable, admits, same) = (validate_subgroup_iff g seen x).0 e in
      let (all, later, marked) =
        (validate_subgroups_iff gs (mark seen (bis_indices g.bis)) seen').0
          (subst (λ y. validate_subgroups gs y ≡ ok seen') same r) in
      (
        (usable, all),
        (Admits-append seen (bis_indices g.bis) (indices gs)).1 (admits, later),
        marked ∙ sym (mark-append seen (bis_indices g.bis) (indices gs)),
      )),
  (λ ((usable, all), admits, marked).
      let (now, later) = (Admits-append seen (bis_indices g.bis) (indices gs)).0 admits in
      rw ((validate_subgroup_iff g seen (mark seen (bis_indices g.bis))).1 (usable, now, refl)) (
        (validate_subgroups_iff gs (mark seen (bis_indices g.bis)) seen').1
          (all, later, marked ∙ mark-append seen (bis_indices g.bis) (indices gs)))),
)

bis_in_range :
    (codec : Lc3Configuration) (bs : List BisConfiguration)
    → All (IsUsableBis codec) bs
    → All (λ i. i < 32) (bis_indices bs)
bis_in_range codec [] h = tt
bis_in_range codec (b ∷ bs) h = (omega (arith, h.0.high), bis_in_range codec bs h.1)

indices_in_range :
    (gs : List BroadcastSubgroup) → All IsUsableSubgroup gs → All (λ i. i < 32) (indices gs)
indices_in_range [] h = tt
indices_in_range (g ∷ gs) h =
    All-append _ (bis_indices g.bis) (indices gs) (bis_in_range g.codec g.bis h.0.all_bis)
      (indices_in_range gs h.1)

pub record IsUsable (b : BroadcastConfiguration) : Type 0 where
  pub id : b.broadcast_id ≤ 0x00ff_ffff
  pub delay : 0 < b.presentation_delay_us
  pub pcm : Pcm.IsSupported b.pcm
  pub some_subgroup : b.subgroups ≢ []
  pub all_subgroups : All IsUsableSubgroup b.subgroups
  pub distinct : Distinct (indices b.subgroups)

Admits-Distinct :
    (gs : List BroadcastSubgroup)
    → All IsUsableSubgroup gs
    → Admits (replicate 32 false) (indices gs) ↔ Distinct (indices gs)
Admits-Distinct gs all =
    let (to, from) = Admits-iff (replicate 32 false) (indices gs) (indices_in_range gs all) in
    ((λ a. (to a).1), (λ d. from (Fresh-replicate 32 (indices gs), d)))

collect_bis-ok :
    (gs : List BroadcastSubgroup) (seen : List Bool)
    → collect_bis gs ≡ ok seen
    → All IsUsableSubgroup gs × Distinct (indices gs)
unfolding collect_bis
collect_bis-ok gs seen h =
    let (all, admits, _) = (validate_subgroups_iff gs (replicate 32 false) seen).0 h in
    (all, (Admits-Distinct gs all).0 admits)

collect_bis_of_usable :
    (gs : List BroadcastSubgroup)
    → All IsUsableSubgroup gs
    → Distinct (indices gs)
    → collect_bis gs ≡ ok (mark (replicate 32 false) (indices gs))
unfolding collect_bis
collect_bis_of_usable gs all distinct =
    (validate_subgroups_iff gs (replicate 32 false) _).1
      (all, (Admits-Distinct gs all).1 distinct, refl)

checked :
    (b : BroadcastConfiguration)
    → validate b ≡ ok tt
    → (b.broadcast_id ≤ 0x00ff_ffff)
      × (0 < b.presentation_delay_us)
      × (Pcm.validate b.pcm ≡ ok tt)
      × (b.subgroups ≢ [])
      × ((seen : List Bool) × (collect_bis b.subgroups ≡ ok seen))
unfolding validate
checked b h = ground arith

-- A broadcast configuration is accepted exactly when it is usable: a 24-bit id, a presentation
-- delay, a supported PCM format, at least one subgroup, each with a supported codec and at least
-- one BIS, every BIS with an index from 1 to 31 and the codec of its subgroup, and no BIS index
-- twice in all the subgroups together.
pub broadcast_validate_iff : (b : BroadcastConfiguration) → (validate b ≡ ok tt) ↔ IsUsable b
unfolding validate
broadcast_validate_iff b = (
  (λ h.
      let (id, delay, pcm, some_subgroup, found) = checked b h in
      let (all, distinct) = collect_bis-ok b.subgroups found.0 found.1 in
      record {
        id = id;
        delay = delay;
        pcm = (Pcm.validate_iff b.pcm).0 pcm;
        some_subgroup = some_subgroup;
        all_subgroups = all;
        distinct = distinct;
      }),
  (λ u. ground (
    arith,
    (Pcm.validate_iff b.pcm).1 u.pcm,
    collect_bis_of_usable b.subgroups u.all_subgroups u.distinct,
    u.some_subgroup,
    u.id,
    u.delay,
  )),
)
