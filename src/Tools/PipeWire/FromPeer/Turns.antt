-- ===== src/Tools/PipeWire/FromPeer/Turns.antt =====
-- A turn of the pump of src/bin/dorsche_pipewire.rs that fills the ring.
use dorsche.Base.{
  ℕ, suc, ◌+◌, ◌≤◌, ◌<◌, ◌≡◌, inl, inr, refl, sym, ap, ap₂, ◌∙◌, subst, true, false, List, [], ◌∷◌,
  ◌++◌, Option, none, some, Result, ok, err, All, All-snoc, leb, leb_iff, Bool-cases, length, arith,
}
use dorsche.Wireless.Types.Pcm.{PcmConfiguration}
use dorsche.Wireless.DataPlane.Ring.{sealed, u64, try_reserve, write_payload, commit}
use dorsche.Wireless.DataPlane.Ring.Invariant.{
  queued, contents, stored, queued-stored, contents-stored, stored-IsValid,
}
use dorsche.Wireless.DataPlane.Ring.Push.{
  reserve_full, reserve_space, committed, dropped_IsValid, length-contents,
}
use dorsche.Wireless.PipeWire.{pcm_descriptor}
use dorsche.Wireless.PipeWire.Carries.{
  bytes_of, bytes_of-snoc, length-bytes_of, HasFormat, sealed-HasFormat, now-Lasts,
}
use dorsche.Tools.PipeWire.FromPeer.{
  Turn, Ended, failed, Peer, after_commit, after_read, after_reserve, on_slot, on_ending,
}
use dorsche.Tools.PipeWire.FromPeer.Line.{receive, reserve, line_turn, FillsExactly}
use dorsche.Tools.PipeWire.FromPeer.Sound.{
  is_some, line_of, Reserves, Holds, IsSound, Follows, fewer_turns, below,
}

module _ (c : PcmConfiguration) (count bytes : ℕ) where
  module _ (k : ℕ) (t : Turn) (p : Peer) (s : IsSound c count bytes (suc k) p) where
    stored-Holds :
        (pcm : List ℕ)
        → length pcm ≡ bytes
        → queued p.ring < p.ring.slot_count
        → let r' = stored p.ring (pcm_descriptor c p.sequence t.now) pcm in
          Holds c count bytes k r'
          × (bytes_of (contents r') ≡ bytes_of (contents p.ring) ++ (pcm ∷ []))
    stored-Holds pcm size space =
        let r = p.ring in
        let d = pcm_descriptor c p.sequence t.now in
        let v = s.carries.valid in
        let lasts = now-Lasts c count bytes r (suc k) s.carries.lasts in
        let small : length pcm ≤ r.payload_capacity =
          omega (arith, size, s.carries.same_capacity) in
        let more = contents-stored v d pcm lasts space small in
        (
          record {
            valid = stored-IsValid v d pcm lasts space small;
            lasts = elim s.carries.lasts [
              | inl whole ↦ inl whole
              | inr short ↦ inr (omega (arith, queued-stored v d pcm lasts space small))
            ];
            same_count = s.carries.same_count;
            same_capacity = s.carries.same_capacity;
            carried = refl;
            formats = subst (All (HasFormat c)) (sym more) (
                All-snoc (HasFormat c) (contents r) _ s.carries.formats
                  (sealed-HasFormat c p.sequence t.now pcm));
          },
          ap bytes_of more ∙ bytes_of-snoc (contents r) (sealed d (length pcm), pcm),
        )

    commit_Follows :
        (pcm : List ℕ) (signal : Result (Unit {0}))
        → length pcm ≡ bytes
        → queued p.ring < p.ring.slot_count
        → p.ending ≡ none
        → Follows c count bytes k
            (receive signal (line_of p) (ok pcm))
            (after_commit p (signal, stored p.ring (pcm_descriptor c p.sequence t.now) pcm))
    commit_Follows pcm (ok done) size space going = (
      record { carries = (stored-Holds pcm size space).0; slot = tt },
      ap₂ (λ q e. record { queue = q; is_reserved = false; recorded = p.recorded; ending = e })
          (stored-Holds pcm size space).1 going,
    )
    commit_Follows pcm (err e) size space going = (
      record { carries = (stored-Holds pcm size space).0; slot = tt },
      ap
          (λ q. record {
            queue = q;
            is_reserved = false;
            recorded = p.recorded;
            ending = some (failed e);
          })
          (stored-Holds pcm size space).1,
    )

    read_Follows :
        (head : ℕ) (read : Result (List ℕ))
        → Reserves p.ring (some head)
        → FillsExactly bytes read
        → p.ending ≡ none
        → Follows c count bytes k
            (receive t.signal (line_of p) read)
            (after_read c bytes t p head read)
    unfolding after_read
    read_Follows head (err e) slot exact going =
        (record { carries = fewer_turns c count bytes s.carries; slot = tt }, refl)
    read_Follows head (ok pcm) slot exact going =
        let r = p.ring in
        let d = pcm_descriptor c p.sequence t.now in
        let small : length pcm ≤ r.payload_capacity =
          omega (arith, exact, s.carries.same_capacity) in
        let done : commit t.signal (write_payload r head pcm) head d bytes
            ≡ (t.signal, stored r d pcm) =
          ap₂ (λ i n. commit t.signal (write_payload r i pcm) i d n) slot.0 (sym exact)
          ∙ committed t.signal r d pcm s.carries.valid small in
        subst
          (λ x. Follows c count bytes k (receive t.signal (line_of p) (ok pcm)) (after_commit p x))
          (sym done) (commit_Follows pcm t.signal exact slot.1 going)

    reserve-Follows :
        p.reserved ≡ none
        → Follows c count bytes k
            (reserve count (line_of p))
            (after_reserve c bytes p (try_reserve p.ring))
    unfolding after_reserve
    reserve-Follows free =
        let r = p.ring in
        let counted : length (bytes_of (contents r)) ≡ queued r =
          length-bytes_of (contents r) ∙ length-contents r in
        let carries = fewer_turns c count bytes s.carries in
        elim (Bool-cases (leb count (length (bytes_of (contents r))))) [
          | inl full ↦
              rw
                (
                  reserve_full r (
                      omega (
                        arith,
                        counted,
                        (leb_iff count (length (bytes_of (contents r)))).0 full,
                        s.carries.same_count,
                      )),
                  full,
                )
                (
                  record {
                    carries = record {
                      valid = dropped_IsValid (u64 (r.dropped + 1)) carries.valid;
                      lasts = carries.lasts;
                      same_count = carries.same_count;
                      same_capacity = carries.same_capacity;
                      carried = refl;
                      formats = carries.formats;
                    };
                    slot =
                        subst (Reserves (record r { dropped = u64 (r.dropped + 1) })) (sym free) tt;
                  },
                  refl,
                )
          | inr space ↦
              let room : queued r < r.slot_count = omega (
                arith,
                counted,
                below c count bytes count (length (bytes_of (contents r))) space,
                s.carries.same_count,
              ) in
              let inside : leb bytes r.payload_capacity ≡ true =
                (leb_iff bytes r.payload_capacity).1 (omega (arith, s.carries.same_capacity)) in
              rw (reserve_space r room, space, inside)
                (record { carries = carries; slot = (refl, room) }, refl)
        ]

    slot_Follows :
        (reserved : Option ℕ)
        → p.reserved ≡ reserved
        → Reserves p.ring reserved
        → FillsExactly bytes t.read
        → p.ending ≡ none
        → Follows c count bytes k
            (line_turn count t (line_of p) (is_some reserved) none)
            (on_slot c bytes t p reserved)
    slot_Follows none free slot exact going = reserve-Follows free
    slot_Follows (some head) held slot exact going = read_Follows head t.read slot exact going

    pub ending_Follows :
        (ending : Option Ended)
        → p.ending ≡ ending
        → FillsExactly bytes t.read
        → Follows c count bytes k
            (line_turn count t (line_of p) (is_some p.reserved) ending)
            (on_ending c bytes t p ending)
    ending_Follows none going exact = slot_Follows p.reserved refl s.slot exact going
    ending_Follows (some e) ended exact =
        (record { carries = fewer_turns c count bytes s.carries; slot = s.slot }, refl)
