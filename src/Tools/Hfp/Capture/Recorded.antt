-- ===== src/Tools/Hfp/Capture/Recorded.antt =====
-- What the capture of src/bin/floss_hfp_smoke.rs records and sends.
use dorsche.Base.{
  ℕ, ◌≤◌, ◌<◌, ◌≡◌, inl, inr, refl, sym, ap, ◌∙◌, Bool, true, false, List, [], ◌∷◌, ◌++◌,
  append-nil, length, arith, if◌then◌else◌, ltb, ◌&&◌, leb, leb_iff, Bool-cases,
}
use dorsche.Tools.Hfp.Stats.{CaptureStats, default_stats, account, account_all}
use dorsche.Tools.Hfp.Delay.Echo.{flat, flat-append}
use dorsche.Tools.Hfp.Capture.{
  Sending, sent, timed_out, closed, Event, elapsed, arrived, Capture, new_capture, Progress,
  proceeds, finishes, panics, on_elapsed, send_frame, recorded, on_read, capture_step, run_capture,
}

abbrev pub ended_at : Event → ℕ
ended_at (elapsed now) = now
ended_at (arrived pcm now r after) = after

-- The clock does not run backwards, and a deadline is seen to have passed only after it.
abbrev pub IsTimed : ℕ → ℕ → Event → Type 0
IsTimed c t (elapsed now) = (t ≤ now) × (c ≤ now)
IsTimed c t (arrived pcm now r after) = (t ≤ now) × (now ≤ after) × (r ≡ timed_out → c ≤ after)

abbrev pub IsClocked : ℕ → ℕ → List Event → Type 0
IsClocked c t [] = Unit
IsClocked c t (e ∷ es) = IsTimed c t e × IsClocked c (ended_at e) es

-- All that was recorded was sent but for at most the last frame.
pub record IsRecorded (s : Capture) : Type 0 where
  pub unsent : List (List ℕ)
  pub last : length unsent ≤ 1
  pub captured : s.captured_pcm ≡ flat (s.frames ++ unsent)
  pub counted : s.stats ≡ account_all (s.frames ++ unsent) default_stats

-- While there is a sender nothing is unsent, and without one the deadline has passed.
record IsSound (c t : ℕ) (s : Capture) : Type 0 where
  pub good : IsRecorded s
  pub all_sent : s.sending ≡ true → good.unsent ≡ []
  pub past : s.sending ≡ false → c ≤ t

-- A step that does not panic, with what it leaves.
abbrev pub Settles : (Capture → Type 0) → (Capture → Type 0) → Progress → Type 0
Settles P Q (proceeds s) = P s
Settles P Q (finishes s) = Q s
Settles P Q panics = ⊥

account_all-snoc :
    (reads : List (List ℕ)) (pcm : List ℕ) (s : CaptureStats)
    → account_all (reads ++ (pcm ∷ [])) s ≡ account pcm (account_all reads s)
account_all-snoc [] pcm s = refl
account_all-snoc (r ∷ reads) pcm s = account_all-snoc reads pcm (account r s)

flat-snoc : (reads : List (List ℕ)) (pcm : List ℕ) → flat (reads ++ (pcm ∷ [])) ≡ flat reads ++ pcm
flat-snoc reads pcm = flat-append reads (pcm ∷ []) ∙ ap (λ r. flat reads ++ r) (append-nil pcm)

module _ {c t : ℕ} (s : Capture) (h : IsSound c t s) where
  -- The sender is dropped after the deadline.
  dropped-IsSound : (now : ℕ) → c ≤ now → IsSound c now (record s { sending = false })
  dropped-IsSound now l = record {
    good = record {
      unsent = h.good.unsent;
      last = h.good.last;
      captured = h.good.captured;
      counted = h.good.counted;
    };
    all_sent = λ q. cc;
    past = λ q. l;
  }

  -- One more frame is recorded while there is a sender.
  captured-snoc :
      (pcm : List ℕ)
      → s.sending ≡ true
      → (s.captured_pcm ++ pcm ≡ flat (s.frames ++ (pcm ∷ [])))
        × (account pcm s.stats ≡ account_all (s.frames ++ (pcm ∷ [])) default_stats)
  captured-snoc pcm q =
      let all : s.frames ++ h.good.unsent ≡ s.frames =
        ap (λ u. s.frames ++ u) (h.all_sent q) ∙ append-nil s.frames in
      (
        ap (λ r. r ++ pcm) (h.good.captured ∙ ap flat all) ∙ sym (flat-snoc s.frames pcm),
        ap (account pcm) (h.good.counted ∙ ap (λ r. account_all r default_stats) all)
            ∙ sym (account_all-snoc s.frames pcm default_stats),
      )

  either_way :
      (b : Bool) (now : ℕ)
      → c ≤ now
      → Settles (IsSound c now) IsRecorded (
          if b
          then proceeds (record s { sending = false })
          else finishes (record s { sending = false }))
  either_way true now l = dropped-IsSound now l
  either_way false now l = (dropped-IsSound now l).good

  on_elapsed-Settles : (d now : ℕ) → c ≤ now → Settles (IsSound c now) IsRecorded (on_elapsed c d s)
  unfolding on_elapsed
  on_elapsed-Settles d now l = either_way (s.sending && ltb (if s.sending then c else d) d) now l

  send_frame-Settles :
      (pcm : List ℕ) (r : Sending) (b : Bool) (now after : ℕ)
      → s.sending ≡ b
      → t ≤ now
      → now < c
      → now ≤ after
      → (r ≡ timed_out → c ≤ after)
      → Settles (IsSound c after) IsRecorded (send_frame pcm r b (recorded pcm s))
  unfolding send_frame
  send_frame-Settles pcm r false now after q l m n late = absurd (omega (arith, h.past q))
  send_frame-Settles pcm sent true now after q l m n late =
      let (captured, counted) = captured-snoc pcm q in
      record {
        good = record {
          unsent = [];
          last = omega arith;
          captured = captured ∙ ap flat (sym (append-nil (s.frames ++ (pcm ∷ []))));
          counted =
              counted
              ∙ ap (λ f. account_all f default_stats) (sym (append-nil (s.frames ++ (pcm ∷ []))));
        };
        all_sent = λ u. refl;
        past = λ u. absurd (omega (arith, h.past u));
      }
  send_frame-Settles pcm timed_out true now after q l m n late =
      let (captured, counted) = captured-snoc pcm q in
      record {
        good = record {
          unsent = pcm ∷ [];
          last = omega arith;
          captured = captured;
          counted = counted;
        };
        all_sent = λ u. cc;
        past = λ u. late refl;
      }
  send_frame-Settles pcm closed true now after q l m n late =
      let (captured, counted) = captured-snoc pcm q in
      record { unsent = pcm ∷ []; last = omega arith; captured = captured; counted = counted }

  on_read-Settles :
      (d : ℕ) (pcm : List ℕ) (now : ℕ) (r : Sending) (after : ℕ)
      → IsTimed c t (arrived pcm now r after)
      → Settles (IsSound c after) IsRecorded (on_read c pcm now r s)
  unfolding on_read
  on_read-Settles d [] now r after (l, m, late) = h.good
  on_read-Settles d (x ∷ pcm) now r after (l, m, late) = elim (Bool-cases (leb c now)) [
    | inl past ↦ rw past (dropped-IsSound after (omega (arith, (leb_iff c now).0 past)))
    | inr early ↦
        rw early (send_frame-Settles (x ∷ pcm) r s.sending now after refl l (before early) m late)
  ]
    where
      before : leb c now ≡ false → now < c
      before e = ground arith

  step-Settles :
      (d : ℕ) (e : Event)
      → IsTimed c t e
      → Settles (IsSound c (ended_at e)) IsRecorded (capture_step c d e s)
  unfolding capture_step
  step-Settles d (elapsed now) k = on_elapsed-Settles d now k.1
  step-Settles d (arrived pcm now r after) k = on_read-Settles d pcm now r after k

run-Settles :
    (c d t : ℕ) (es : List Event) (p : Progress)
    → Settles (IsSound c t) IsRecorded p
    → IsClocked c t es
    → Settles IsRecorded IsRecorded (run_capture c d es p)
run-Settles c d t [] (proceeds s) h k = h.good
run-Settles c d t [] (finishes s) h k = h
run-Settles c d t [] panics h k = absurd h
run-Settles c d t (e ∷ es) (proceeds s) h (now, later) =
    run-Settles c d (ended_at e) es (capture_step c d e s) (step-Settles s h d e now) later
run-Settles c d t (e ∷ es) (finishes s) h (now, later) =
    run-Settles c d (ended_at e) es (finishes s) h later
run-Settles c d t (e ∷ es) panics h k = absurd h

-- Whatever arrives from the microphone and however the deadlines fall, the capture never panics on a
-- missing sender, and what it has recorded and counted is exactly what it has sent to the playback,
-- in order, but for at most one last frame. The clock does not run backwards.
pub run_capture-Settles :
    (capture_deadline drain_deadline : ℕ) (events : List Event)
    → IsClocked capture_deadline 0 events
    → Settles IsRecorded IsRecorded
        (run_capture capture_deadline drain_deadline events (proceeds new_capture))
run_capture-Settles c d events k = run-Settles c d 0 events (proceeds new_capture) start k
  where
    start : IsSound c 0 new_capture
    start = record {
      good = record { unsent = []; last = omega arith; captured = refl; counted = refl };
      all_sent = λ q. refl;
      past = λ q. cc;
    }
