-- ===== src/Topshim/Actors/Sink/Playlist.antt =====
-- What `run_playback_sink` of src/topshim/actors.rs plays and mirrors over a whole run.
use dorsche.Base.{
  ℕ, zero, suc, ◌+◌, ◌≤◌, ◌≡◌, refl, sym, ap, ◌∙◌, Bool, true, false, List, [], ◌∷◌, ◌++◌, map,
  Option, none, some, Result, ok, err, length, take, arith,
}
use dorsche.Topshim.Actors.{PlaybackReceipt, play}
use dorsche.Topshim.Actors.Sink.{
  Start, Sink, new_sink, Round, Branch, on_shutdown, on_interrupt, on_command, on_tick, no_branch,
  select_sink, Output, submits, mirrors, Flow, continues, mirror, play_frame, play_next, sink_step,
  Trace, then_trace, follow, take_branch, run_sink,
}

-- The clock branches until the next start or interrupt.
abbrev pub ticks : List Branch → ℕ
ticks [] = 0
ticks (on_tick ∷ bs) = suc (ticks bs)
ticks (on_interrupt i ∷ bs) = 0
ticks (on_command u ∷ bs) = 0
ticks (on_shutdown stop ∷ bs) = ticks bs
ticks (no_branch ∷ bs) = ticks bs

-- Of each utterance as many frames as there are clock branches until it is cut off.
abbrev pub playlist : List Branch → List ℕ
playlist [] = []
playlist (on_command u ∷ bs) = take (ticks bs) u.frames ++ playlist bs
playlist (b ∷ bs) = playlist bs

abbrev pub number_from : ℕ → List ℕ → List (ℕ × ℕ)
number_from n [] = []
number_from n (pcm ∷ rest) = (pcm, n) ∷ number_from (n + 1) rest

abbrev pub submitted : List Output → List (ℕ × ℕ)
submitted [] = []
submitted (submits pcm n ∷ out) = (pcm, n) ∷ submitted out
submitted (mirrors e ∷ out) = submitted out

abbrev pub echoed : List Output → List ℕ
echoed [] = []
echoed (submits pcm n ∷ out) = echoed out
echoed (mirrors e ∷ out) = e.pcm ∷ echoed out

-- The frames of which no echo reference went out: none while the loop runs, at most the last.
abbrev pub Unechoed : Flow → List ℕ → Type 0
Unechoed (continues s) left = left ≡ []
Unechoed flow left = length left ≤ 1

abbrev queue : Option Start → List ℕ
queue none = []
queue (some u) = u.frames

abbrev Plays : Sink → Trace → Type 0
Plays s t =
    submitted t.outputs
    ≡ number_from s.sequence (take (ticks t.branches) (queue s.current) ++ playlist t.branches)

pub record Mirrors (t : Trace) : Type 0 where
  pub left : List ℕ
  pub few : Unechoed t.ending left
  pub frames : map (λ (p : ℕ × ℕ). p.0) (submitted t.outputs) ≡ echoed t.outputs ++ left

take-nil : (n : ℕ) → take {A = ℕ} n [] ≡ []
take-nil zero = refl
take-nil (suc n) = refl

-- A clock branch that has given this, followed by the rest of the run.
abbrev ticked : (Sink → Trace) → Flow × List Output → Trace
ticked later (flow, out) = then_trace on_tick out (follow later flow)

module _ (later : Sink → Trace) (h : (s : Sink) → Plays s (later s)) where
  mirror-Plays :
      (pcm id : ℕ) (rest : List ℕ) (listening : Bool) (s : Sink) (a : Result PlaybackReceipt)
      → let u : Start = record { utterance_id = id; frames = rest } in
        let (flow, out) = mirror pcm listening u s a in
        let t = follow later flow in
        submitted (out ++ t.outputs)
        ≡ number_from (s.sequence + 1) (take (ticks t.branches) rest ++ playlist t.branches)
  unfolding mirror
  mirror-Plays pcm id rest listening s (err e) = refl
  mirror-Plays pcm id rest false s (ok receipt) = refl
  mirror-Plays pcm id rest true s (ok receipt) = h (record {
    current = some (record { utterance_id = id; frames = rest });
    sequence = s.sequence + 1;
  })

  stopped-Plays :
      (s : Sink) (n : ℕ) (q : List ℕ)
      → take n q ≡ []
      → let t = later (record s { current = none }) in
        submitted t.outputs ≡ number_from s.sequence (take n q ++ playlist t.branches)
  stopped-Plays s n q e =
      let t = later (record s { current = none }) in
      h (record s { current = none })
      ∙ ap (λ l. number_from s.sequence (l ++ playlist t.branches))
          (take-nil (ticks t.branches) ∙ sym e)

  play_frame-Plays :
      (r : Round) (s : Sink) (id : ℕ) (frames : List ℕ)
      → let t = ticked later (play_frame r s id frames) in
        submitted t.outputs
        ≡ number_from s.sequence (take (ticks t.branches) frames ++ playlist t.branches)
  unfolding play_frame
  play_frame-Plays r s id [] =
      let n = suc (ticks (later (record s { current = none })).branches) in
      stopped-Plays s n [] (take-nil n)
  play_frame-Plays r s id (pcm ∷ rest) =
      ap (λ l. (pcm, s.sequence) ∷ l) (mirror-Plays pcm id rest r.is_listening s (play r.service))

  play_next-Plays :
      (r : Round) (s : Sink) (c : Option Start)
      → let t = ticked later (play_next r s c) in
        submitted t.outputs
        ≡ number_from s.sequence (take (ticks t.branches) (queue c) ++ playlist t.branches)
  unfolding play_next
  play_next-Plays r s none =
      let n = suc (ticks (later (record s { current = none })).branches) in
      stopped-Plays s n [] (take-nil n)
  play_next-Plays r s (some u) = play_frame-Plays r s u.utterance_id u.frames

  take_branch-Plays : (r : Round) (s : Sink) (b : Branch) → Plays s (take_branch r s b later)
  unfolding sink_step
  take_branch-Plays r s (on_shutdown true) = refl
  take_branch-Plays r s (on_shutdown false) = h s
  take_branch-Plays r s (on_interrupt i) = stopped-Plays s 0 (queue s.current) refl
  take_branch-Plays r s (on_command u) = h (record s { current = some u })
  take_branch-Plays r s on_tick = play_next-Plays r s s.current
  take_branch-Plays r s no_branch = h s

run_sink-Plays : (rs : List Round) (s : Sink) → Plays s (run_sink rs s)
unfolding run_sink
run_sink-Plays [] s = refl
run_sink-Plays (r ∷ rs) s =
    take_branch-Plays (λ s'. run_sink rs s') (λ s'. run_sink-Plays rs s') r s (select_sink r s)

silent-Mirrors : (b : Branch) (t : Trace) → Mirrors t → Mirrors (then_trace b [] t)
silent-Mirrors b t m = record { left = m.left; few = m.few; frames = m.frames }

module _ (later : Sink → Trace) (h : (s : Sink) → Mirrors (later s)) where
  mirror-Mirrors :
      (pcm n : ℕ) (u : Start) (listening : Bool) (s : Sink) (a : Result PlaybackReceipt)
      → let (flow, out) = mirror pcm listening u s a in
        Mirrors (then_trace on_tick (submits pcm n ∷ out) (follow later flow))
  unfolding mirror
  mirror-Mirrors pcm n u listening s (err e) = record {
    left = pcm ∷ [];
    few = omega arith;
    frames = refl;
  }
  mirror-Mirrors pcm n u false s (ok receipt) = record {
    left = pcm ∷ [];
    few = omega arith;
    frames = refl;
  }
  mirror-Mirrors pcm n u true s (ok receipt) =
      let m = h (record { current = some u; sequence = s.sequence + 1 }) in
      record { left = m.left; few = m.few; frames = ap (λ l. pcm ∷ l) m.frames }

  play_frame-Mirrors :
      (r : Round) (s : Sink) (id : ℕ) (frames : List ℕ)
      → Mirrors (ticked later (play_frame r s id frames))
  unfolding play_frame
  play_frame-Mirrors r s id [] = silent-Mirrors on_tick _ (h (record s { current = none }))
  play_frame-Mirrors r s id (pcm ∷ rest) =
      let u : Start = record { utterance_id = id; frames = rest } in
      mirror-Mirrors pcm s.sequence u r.is_listening s (play r.service)

  play_next-Mirrors :
      (r : Round) (s : Sink) (c : Option Start) → Mirrors (ticked later (play_next r s c))
  unfolding play_next
  play_next-Mirrors r s none = silent-Mirrors on_tick _ (h (record s { current = none }))
  play_next-Mirrors r s (some u) = play_frame-Mirrors r s u.utterance_id u.frames

  take_branch-Mirrors : (r : Round) (s : Sink) (b : Branch) → Mirrors (take_branch r s b later)
  unfolding sink_step
  take_branch-Mirrors r s (on_shutdown true) = record {
    left = [];
    few = omega arith;
    frames = refl;
  }
  take_branch-Mirrors r s (on_shutdown false) = silent-Mirrors (on_shutdown false) _ (h s)
  take_branch-Mirrors r s (on_interrupt i) =
      silent-Mirrors (on_interrupt i) _ (h (record s { current = none }))
  take_branch-Mirrors r s (on_command u) =
      silent-Mirrors (on_command u) _ (h (record s { current = some u }))
  take_branch-Mirrors r s on_tick = play_next-Mirrors r s s.current
  take_branch-Mirrors r s no_branch = silent-Mirrors no_branch _ (h s)

run_sink-Mirrors : (rs : List Round) (s : Sink) → Mirrors (run_sink rs s)
unfolding run_sink
run_sink-Mirrors [] s = record { left = []; few = refl; frames = refl }
run_sink-Mirrors (r ∷ rs) s =
    take_branch-Mirrors (λ s'. run_sink rs s') (λ s'. run_sink-Mirrors rs s') r s (select_sink r s)

-- In every run of the playback sink, whatever is ready in its rounds: of each started utterance it
-- submits, in order, as many frames as clock branches are taken until an interrupt or the next start,
-- and nothing else; the submissions are numbered from 0 without a gap; and the echo references are
-- those frames in that order, all of them while the loop runs, all but at most the last otherwise.
pub run_sink_plays :
    (rounds : List Round)
    → let t = run_sink rounds new_sink in
      (submitted t.outputs ≡ number_from 0 (playlist t.branches)) × Mirrors t
run_sink_plays rounds = (
  first ∙ ap (λ l. number_from 0 (l ++ playlist t.branches)) (take-nil (ticks t.branches)),
  run_sink-Mirrors rounds new_sink,
)
  where
    t : Trace
    t = run_sink rounds new_sink

    first : Plays new_sink t
    first = run_sink-Plays rounds new_sink
