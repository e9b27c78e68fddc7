-- ===== src/Tools/PipeWire/ToHost/Sound.antt =====
-- States of the pump of src/bin/dorsche_pipewire.rs and of its sink, and what the sink does to them.
use dorsche.Base.{
  ℕ, suc, ◌+◌, ◌≡◌, inl, inr, refl, sym, ap, subst, List, Option, none, some, Result, leb,
  Bool-cases, length, take, drop,
}
use dorsche.Wireless.Types.Frame.{FrameDescriptor}
use dorsche.Wireless.Types.Pcm.{PcmConfiguration}
use dorsche.Wireless.DataPlane.Ring.{Ring, try_push_copy}
use dorsche.Wireless.DataPlane.Ring.Invariant.{contents}
use dorsche.Wireless.DataPlane.Ring.Traffic.{holds_one}
use dorsche.Wireless.DataPlane.Ring.Refinement.{Holds, held_after_send}
use dorsche.Wireless.PipeWire.{SpaData, SinkState, pcm_descriptor, sink_mapped, process_sink}
use dorsche.Wireless.PipeWire.Carries.{
  bytes_of, Carries, now-Lasts, process_sink-Carries, sink_reserved-push_leased,
}
use dorsche.Tools.PipeWire.ToHost.{plays, Host, host_step}
use dorsche.Tools.PipeWire.ToHost.Line.{Line, line_step}

-- A step of the sink leaves the ring as it was, or pushes once.
module _ (P : Ring → Type 0) (signal : Result (Unit {0})) (now : ℕ) (c : PcmConfiguration) where
  sink_mapped_pushes :
      (offset size : ℕ) (memory : Option (List ℕ)) (s : SinkState)
      → P s.producer
      → ((d : FrameDescriptor) (payload : List ℕ) → P (try_push_copy signal s.producer d payload).1)
      → P (sink_mapped signal now c offset size memory s).producer
  unfolding sink_mapped try_push_copy
  sink_mapped_pushes offset size none s same pushed = same
  sink_mapped_pushes offset size (some source) s same pushed =
      elim (Bool-cases (leb (offset + size) (length source))) [
        | inl inside ↦
            let payload = take size (drop offset source) in
            let d = pcm_descriptor c s.sequence now in
            rw inside (
              subst P (sym (sink_reserved-push_leased signal d payload s.sequence _))
                (pushed d payload))
        | inr outside ↦ rw outside same
      ]

  process_sink_pushes :
      (d : Option SpaData) (s : SinkState)
      → P s.producer
      → ((d : FrameDescriptor) (payload : List ℕ) → P (try_push_copy signal s.producer d payload).1)
      → P (process_sink signal now c d s).producer
  unfolding process_sink
  process_sink_pushes none s same pushed = same
  process_sink_pushes (some d) s same pushed =
      sink_mapped_pushes d.offset d.size d.memory s same pushed

-- The line of a state.
abbrev pub line_of : Host → Line
line_of h = record {
  queue = bytes_of (contents h.sink.producer);
  is_held = holds_one h.held;
  sent = h.sent;
  ending = h.ending;
}

module _ (c : PcmConfiguration) (count capacity : ℕ) where
  -- A state whose lease, if any, is on the oldest frame, all frames having the sink's format.
  pub record IsSound (k : ℕ) (h : Host) : Type 0 where
    pub carries : Carries c count capacity k h.sink.producer (bytes_of (contents h.sink.producer))
    pub holds : Holds h.sink.producer h.held

  abbrev pub Follows : ℕ → Line → Host → Type 0
  Follows k l h = IsSound k h × (line_of h ≡ l)

  own :
      {k : ℕ} {r : Ring} {q : List (List ℕ)}
      → Carries c count capacity k r q
      → Carries c count capacity k r (bytes_of (contents r))
  own h = record {
    valid = h.valid;
    lasts = h.lasts;
    same_count = h.same_count;
    same_capacity = h.same_capacity;
    carried = refl;
    formats = h.formats;
  }

  pub play_Follows :
      (k : ℕ) (signal : Result (Unit {0})) (now : ℕ) (d : Option SpaData) (h : Host)
      → IsSound (suc k) h
      → Follows k
          (line_step count capacity (plays signal now d) (line_of h))
          (host_step c (plays signal now d) h)
  unfolding host_step
  play_Follows k signal now d h s =
      let r = h.sink.producer in
      let carries = process_sink-Carries c count capacity signal now d h.sink s.carries in
      let short = now-Lasts c count capacity r (suc k) s.carries.lasts in
      (
        record {
          carries = own carries;
          holds =
              process_sink_pushes (λ r'. Holds r' h.held) signal now c d h.sink s.holds
                (λ d' payload.
                  held_after_send count capacity k signal d' payload r h.held s.carries.valid short
                    s.holds s.carries.lasts);
        },
        ap (λ q. record { queue = q; is_held = holds_one h.held; sent = h.sent; ending = h.ending })
            carries.carried,
      )
