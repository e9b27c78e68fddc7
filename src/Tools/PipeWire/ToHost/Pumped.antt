-- ===== src/Tools/PipeWire/ToHost/Pumped.antt =====
-- The pump of src/bin/dorsche_pipewire.rs and its sink keep to their line.
use dorsche.Base.{
  ℕ, ◌^◌, ◌%◌, ◌≤◌, ◌<◌, ◌≡◌, ◌⊎◌, inl, inr, refl, sym, ap, ◌∙◌, subst, List, [], ◌∷◌, All, arith,
}
use dorsche.Wireless.Types.Pcm.{PcmConfiguration}
use dorsche.Wireless.DataPlane.Ring.{fresh}
use dorsche.Wireless.DataPlane.Ring.Invariant.{contents, IsValid, fresh-IsValid}
use dorsche.Wireless.PipeWire.Carries.{bytes_of, HasFormat}
use dorsche.Tools.PipeWire.ToHost.{Event, plays, turns, Host, host_step, run_host, fresh_host}
use dorsche.Tools.PipeWire.ToHost.Line.{Line, run_line, empty_line, plays_among}
use dorsche.Tools.PipeWire.ToHost.Sound.{line_of, IsSound, play_Follows}
use dorsche.Tools.PipeWire.ToHost.Turns.{ending_Follows}

module _ (c : PcmConfiguration) (count capacity : ℕ) where
  run_from :
      (es : List Event) (h : Host)
      → IsSound c count capacity (plays_among es) h
      → line_of (run_host c es h) ≡ run_line count capacity es (line_of h)
  unfolding run_host host_step run_line
  run_from [] h s = refl
  run_from (plays signal now d ∷ es) h s =
      let (sound, same) = play_Follows c count capacity (plays_among es) signal now d h s in
      run_from es (host_step c (plays signal now d) h) sound ∙ ap (run_line count capacity es) same
  run_from (turns t ∷ es) h s =
      let (sound, same) = ending_Follows c count capacity (plays_among es) t h s h.ending in
      run_from es (host_step c (turns t) h) sound ∙ ap (run_line count capacity es) same

-- What PipeWire plays reaches Floss: with the sink's callback and the pump on a fresh ring of `count`
-- slots, in any order, the bytes that the pump has written to the socket, and how it has ended,
-- are those of the line: each accepted part of a buffer whole, in order and once, until a write or a
-- wait fails, and for no other reason; a part in hand still takes up its slot. Either `count`
-- divides 2^64 or the sink has fewer than 2^64 buffers.
pub run_host-run_line :
    (c : PcmConfiguration) (count capacity : ℕ) (events : List Event)
    → 2 ≤ count
    → count < 2 ^ 32
    → capacity < 2 ^ 32
    → (2 ^ 64 % count ≡ 0) ⊎ (plays_among events < 2 ^ 64)
    → let h : Host = run_host c events (fresh_host count capacity) in
      let l : Line = run_line count capacity events empty_line in
      (h.sent ≡ l.sent) × (h.ending ≡ l.ending)
run_host-run_line c count capacity events low high small lasts =
    let e = run_from c count capacity events (fresh_host count capacity) start in
    let empty = ap (λ q. record empty_line { queue = q }) (ap bytes_of made.1) in
    let same = e ∙ ap (run_line count capacity events) empty in
    (ap (λ (l : Line). l.sent) same, ap (λ (l : Line). l.ending) same)
  where
    made : IsValid (fresh count capacity) × (contents (fresh count capacity) ≡ [])
    made = fresh-IsValid count capacity low high small

    start : IsSound c count capacity (plays_among events) (fresh_host count capacity)
    start = record {
      carries = record {
        valid = made.0;
        lasts = elim lasts [ inl whole ↦ inl whole | inr short ↦ inr (omega (arith, short)) ];
        same_count = refl;
        same_capacity = refl;
        carried = refl;
        formats = subst (All (HasFormat c)) (sym made.1) tt;
      };
      holds = tt;
    }
