-- ===== src/Tools/PipeWire/FromPeer/Pumped.antt =====
-- The pump of src/bin/dorsche_pipewire.rs and its source keep to their line.
use dorsche.Base.{
  ℕ, ◌^◌, ◌%◌, ◌≤◌, ◌<◌, ◌≡◌, ◌⊎◌, inl, inr, refl, sym, ap, ◌∙◌, subst, List, [], ◌∷◌, All, arith,
}
use dorsche.Wireless.Types.Pcm.{PcmConfiguration}
use dorsche.Wireless.DataPlane.Ring.{fresh}
use dorsche.Wireless.DataPlane.Ring.Invariant.{contents, IsValid, fresh-IsValid}
use dorsche.Wireless.PipeWire.Carries.{bytes_of, HasFormat}
use dorsche.Tools.PipeWire.FromPeer.{Event, records, turns, Peer, peer_step, run_peer, fresh_peer}
use dorsche.Tools.PipeWire.FromPeer.Line.{Line, run_line, empty_line, turns_among, ReadsExactly}
use dorsche.Tools.PipeWire.FromPeer.Sound.{line_of, IsSound, source_Follows}
use dorsche.Tools.PipeWire.FromPeer.Turns.{ending_Follows}

module _ (c : PcmConfiguration) (count bytes : ℕ) where
  run_from :
      (es : List Event) (p : Peer)
      → ReadsExactly bytes es
      → IsSound c count bytes (turns_among es) p
      → line_of (run_peer c bytes es p) ≡ run_line count es (line_of p)
  unfolding run_peer peer_step run_line
  run_from [] p exact s = refl
  run_from (records space ∷ es) p exact s =
      let (sound, same) = source_Follows c count bytes (turns_among es) space p s in
      run_from es (peer_step c bytes (records space) p) exact sound ∙ ap (run_line count es) same
  run_from (turns t ∷ es) p exact s =
      let (sound, same) =
        ending_Follows c count bytes (turns_among es) t p s p.ending refl exact.0 in
      run_from es (peer_step c bytes (turns t) p) exact.1 sound ∙ ap (run_line count es) same

-- What Floss sends reaches PipeWire: with the pump and the source's callback on a fresh ring of `count`
-- slots of the size of an interval, in any order, the chunks that the source fills and the end of
-- the pump are those of the line: each read comes out whole but for the memory of the buffer, in
-- order and once. The pump ends with the first error of the socket or of the wakeup, or with an
-- overrun if all slots are full when it comes back; it never panics. Each read fills its slice. Either
-- `count` divides 2^64 or the pump takes fewer than 2^64 turns.
pub run_peer-run_line :
    (c : PcmConfiguration) (count bytes : ℕ) (events : List Event)
    → 2 ≤ count
    → count < 2 ^ 32
    → bytes < 2 ^ 32
    → ReadsExactly bytes events
    → (2 ^ 64 % count ≡ 0) ⊎ (turns_among events < 2 ^ 64)
    → let p : Peer = run_peer c bytes events (fresh_peer count bytes) in
      let l : Line = run_line count events empty_line in
      (p.recorded ≡ l.recorded) × (p.ending ≡ l.ending)
run_peer-run_line c count bytes events low high small exact lasts =
    let e = run_from c count bytes events (fresh_peer count bytes) exact start in
    let empty = ap (λ q. record empty_line { queue = q }) (ap bytes_of made.1) in
    let same = e ∙ ap (run_line count events) empty in
    (ap (λ (l : Line). l.recorded) same, ap (λ (l : Line). l.ending) same)
  where
    made : IsValid (fresh count bytes) × (contents (fresh count bytes) ≡ [])
    made = fresh-IsValid count bytes low high small

    start : IsSound c count bytes (turns_among events) (fresh_peer count bytes)
    start = record {
      carries = record {
        valid = made.0;
        lasts = elim lasts [ inl whole ↦ inl whole | inr short ↦ inr (omega (arith, short)) ];
        same_count = refl;
        same_capacity = refl;
        carried = refl;
        formats = subst (All (HasFormat c)) (sym made.1) tt;
      };
      slot = tt;
    }
