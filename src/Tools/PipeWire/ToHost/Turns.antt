-- ===== src/Tools/PipeWire/ToHost/Turns.antt =====
-- A turn of the pump of src/bin/dorsche_pipewire.rs that empties the ring.
use dorsche.Base.{
  ℕ, ◌≡◌, refl, sym, ap, ◌∙◌, subst, true, false, List, [], ◌∷◌, ◌++◌, Option, none, some, Error,
  Result, ok, err, All, ◌==◌, arith,
}
use dorsche.Wireless.Types.Kinds.{pcm, payload_kind_code}
use dorsche.Wireless.Types.Frame.{FrameDescriptor}
use dorsche.Wireless.Types.Pcm.{PcmConfiguration}
use dorsche.Wireless.DataPlane.Ring.{FrameLease, try_acquire, release}
use dorsche.Wireless.DataPlane.Ring.Window.{Frame}
use dorsche.Wireless.DataPlane.Ring.Invariant.{contents}
use dorsche.Wireless.DataPlane.Ring.Pop.{
  oldest, leased, try_acquire_lem, release_lem, release-Lasts,
}
use dorsche.Wireless.DataPlane.Ring.Traffic.{payload_now, holds_one}
use dorsche.Wireless.DataPlane.Ring.Refinement.{Holds}
use dorsche.Wireless.PipeWire.{has_format}
use dorsche.Wireless.PipeWire.Carries.{bytes_of, HasFormat, Carries, now-Lasts}
use dorsche.Tools.PipeWire.ToHost.{
  Turn, Host, after_write, after_wait, after_acquire, on_lease, on_ending,
}
use dorsche.Tools.PipeWire.ToHost.Line.{pick, put, line_turn}
use dorsche.Tools.PipeWire.ToHost.Sound.{line_of, IsSound, Follows}

module _ (c : PcmConfiguration) (count capacity : ℕ) where
  module _ (k : ℕ) (t : Turn) (h : Host) (s : IsSound c count capacity k h) where
    wait_Follows :
        (woken : Result (Unit {0}))
        → Follows c count capacity k (pick woken (line_of h) []) (after_wait h woken)
    wait_Follows (ok done) = (s, refl)
    wait_Follows (err e) = (record { carries = s.carries; holds = s.holds }, refl)

    is_pcm :
        (d : FrameDescriptor)
        → has_format c d ≡ true
        → (d.payload_kind == payload_kind_code pcm) ≡ true
    is_pcm d e = ground arith

    acquire_Follows :
        (fs : List Frame)
        → contents h.sink.producer ≡ fs
        → Follows c count capacity k
            (pick t.woken (line_of h) (bytes_of fs))
            (after_acquire t h (ok (oldest fs h.sink.producer.tail)))
    unfolding after_acquire
    acquire_Follows [] e = wait_Follows t.woken
    acquire_Follows (f ∷ fs) e =
        let r = h.sink.producer in
        let formats = subst (All (HasFormat c)) e s.carries.formats in
        let l : FrameLease = record { descriptor = f.0; bytes = f.1; tail = r.tail } in
        let acquired : try_acquire r ≡ ok (some l) =
          try_acquire_lem r s.carries.valid ∙ ap (λ x. ok (oldest x r.tail)) e in
        rw (is_pcm f.0 formats.0) (record { carries = s.carries; holds = acquired }, refl)

    module _ (l : FrameLease) (held : try_acquire h.sink.producer ≡ ok (some l)) where
      freed :
          Carries c count capacity k
            (release h.sink.producer l)
            (bytes_of (contents (release h.sink.producer l)))
          × (bytes_of (contents h.sink.producer)
              ≡ l.bytes ∷ bytes_of (contents (release h.sink.producer l)))
      unfolding release
      freed =
          let r = h.sink.producer in
          let (valid, all, fewer) =
            release_lem r l s.carries.valid (now-Lasts c count capacity r k s.carries.lasts) held in
          (
            record {
              valid = valid;
              lasts = release-Lasts r l k s.carries.valid s.carries.lasts held;
              same_count = s.carries.same_count;
              same_capacity = s.carries.same_capacity;
              carried = refl;
              formats = (subst (All (HasFormat c)) all s.carries.formats).1;
            },
            ap bytes_of all,
          )

      unmoved : (payload_now h.sink.producer l).1 ≡ l.bytes
      unmoved =
          let (other, same) = leased h.sink.producer l held in
          ap (λ x. (payload_now h.sink.producer x).1) same
          ∙ sym (ap (λ (x : FrameLease). x.bytes) same)

      write_Follows :
          (written : Result (Unit {0}))
          → Follows c count capacity k
              (put written (line_of h) (l.bytes ∷ bytes_of (contents (release h.sink.producer l))))
              (after_write l h written)
      unfolding after_write
      write_Follows (err e) = (record { carries = freed.0; holds = tt }, refl)
      write_Follows (ok done) = (
        record { carries = freed.0; holds = tt },
        ap
            (λ b. record {
              queue = bytes_of (contents (release h.sink.producer l));
              is_held = false;
              sent = h.sent ++ b;
              ending = h.ending;
            })
            unmoved,
      )

    lease_Follows :
        (held : Option FrameLease)
        → Holds h.sink.producer held
        → Follows c count capacity k
            (line_turn t (line_of h) (holds_one held) none)
            (on_lease t h held)
    lease_Follows none holds =
        let r = h.sink.producer in
        rw (try_acquire_lem r s.carries.valid) (acquire_Follows (contents r) refl)
    lease_Follows (some l) holds =
        subst
          (λ q.
            Follows c count capacity k (put t.written (line_of h) q) (after_write l h t.written))
          (sym (freed l holds).1) (write_Follows l holds t.written)

    pub ending_Follows :
        (ending : Option Error)
        → Follows c count capacity k
            (line_turn t (line_of h) (holds_one h.held) ending)
            (on_ending t h ending)
    ending_Follows none = lease_Follows h.held s.holds
    ending_Follows (some e) = (s, refl)
