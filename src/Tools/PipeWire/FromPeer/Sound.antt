-- ===== src/Tools/PipeWire/FromPeer/Sound.antt =====
-- States of the pump of src/bin/dorsche_pipewire.rs and of its source, and what the source does to them.
use dorsche.Base.{
  ℕ, suc, ◌<◌, ◌≡◌, inl, inr, refl, sym, ap, ap₂, ◌∙◌, subst, Bool, true, false, List, [], ◌∷◌,
  ◌++◌, Option, none, some, ok, leb, arith,
}
use dorsche.Wireless.Types.Pcm.{PcmConfiguration}
use dorsche.Wireless.DataPlane.Ring.{Ring, FrameLease, try_acquire, release}
use dorsche.Wireless.DataPlane.Ring.Window.{Frame}
use dorsche.Wireless.DataPlane.Ring.Invariant.{queued, contents}
use dorsche.Wireless.DataPlane.Ring.Pop.{oldest, try_acquire_lem, release_lem}
use dorsche.Wireless.PipeWire.{source_acquired, process_source}
use dorsche.Wireless.PipeWire.Carries.{bytes_of, Carries, now-Lasts}
use dorsche.Wireless.PipeWire.Roundtrip.{process_source-Gives}
use dorsche.Tools.PipeWire.FromPeer.{records, Peer, peer_step}
use dorsche.Tools.PipeWire.FromPeer.Line.{Line, line_step}

abbrev pub is_some : Option ℕ → Bool
is_some none = false
is_some (some n) = true

-- The line of a state.
abbrev pub line_of : Peer → Line
line_of p = record {
  queue = bytes_of (contents p.ring);
  is_reserved = is_some p.reserved;
  recorded = p.recorded;
  ending = p.ending;
}

-- A slot that is held is the one at the head, and free.
abbrev pub Reserves : Ring → Option ℕ → Type 0
Reserves r none = Unit
Reserves r (some head) = (head ≡ r.head) × (queued r < r.slot_count)

module _ (c : PcmConfiguration) (count bytes : ℕ) where
  abbrev pub Holds : ℕ → Ring → Type 0
  Holds k r = Carries c count bytes k r (bytes_of (contents r))

  pub record IsSound (k : ℕ) (p : Peer) : Type 0 where
    pub carries : Holds k p.ring
    pub slot : Reserves p.ring p.reserved

  abbrev pub Follows : ℕ → Line → Peer → Type 0
  Follows k l p = IsSound k p × (line_of p ≡ l)

  pub own : {k : ℕ} {r : Ring} {q : List (List ℕ)} → Carries c count bytes k r q → Holds k r
  own h = record {
    valid = h.valid;
    lasts = h.lasts;
    same_count = h.same_count;
    same_capacity = h.same_capacity;
    carried = refl;
    formats = h.formats;
  }

  pub fewer_turns :
      {k : ℕ} {r : Ring} {q : List (List ℕ)}
      → Carries c count bytes (suc k) r q
      → Carries c count bytes k r q
  fewer_turns h = record {
    valid = h.valid;
    lasts = elim h.lasts [ inl whole ↦ inl whole | inr short ↦ inr (omega (arith, short)) ];
    same_count = h.same_count;
    same_capacity = h.same_capacity;
    carried = h.carried;
    formats = h.formats;
  }

  pub below : (a b : ℕ) → leb a b ≡ false → b < a
  below a b h = ground arith

  -- The source frees slots and moves no head.
  acquired_slot :
      (k : ℕ) (space : Option ℕ) (r : Ring) (reserved : Option ℕ) (fs : List Frame)
      → Holds k r
      → contents r ≡ fs
      → Reserves r reserved
      → Reserves (source_acquired c space r (ok (oldest fs r.tail))).1 reserved
  unfolding source_acquired release
  acquired_slot k space r none fs h e s = tt
  acquired_slot k space r (some head) [] h e s = s
  acquired_slot k space r (some head) (f ∷ fs) h e s =
      let l : FrameLease = record { descriptor = f.0; bytes = f.1; tail = r.tail } in
      let acquired : try_acquire r ≡ ok (some l) =
        try_acquire_lem r h.valid ∙ ap (λ x. ok (oldest x r.tail)) e in
      let (valid, all, fewer) =
        release_lem r l h.valid (now-Lasts c count bytes r k h.lasts) acquired in
      (s.0, omega (arith, fewer, s.1))

  pub source_Follows :
      (k : ℕ) (space : Option (Option ℕ)) (p : Peer)
      → IsSound k p
      → Follows k
          (line_step count (records space) (line_of p))
          (peer_step c bytes (records space) p)
  unfolding peer_step process_source
  source_Follows k none p s = (record { carries = s.carries; slot = s.slot }, refl)
  source_Follows k (some space) p s =
      let r = p.ring in
      let (filled, carries) =
        process_source-Gives c count bytes k space r (bytes_of (contents r)) s.carries in
      let slot = acquired_slot k space r p.reserved (contents r) s.carries refl s.slot in
      (
        record {
          carries = own carries;
          slot =
              subst (λ x. Reserves (source_acquired c space r x).1 p.reserved)
                (sym (try_acquire_lem r s.carries.valid)) slot;
        },
        ap₂
            (λ q f. record {
              queue = q;
              is_reserved = is_some p.reserved;
              recorded = p.recorded ++ f;
              ending = p.ending;
            })
            carries.carried filled,
      )
