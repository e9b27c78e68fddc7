-- ===== src/Topshim/Actors/Barge/Order.antt =====
-- In what order the detector and the sink of src/topshim/actors.rs act on each other's messages.
use dorsche.Base.{
  ℕ, ◌≡◌, refl, sym, ap, ◌∙◌, Bool, true, false, List, [], ◌∷◌, ◌++◌, Option, none, some,
  Bool-cases, inl, inr,
}
use dorsche.Topshim.Actors.{shutdown_taken, EchoReference}
use dorsche.Topshim.Actors.Sink.{
  Sink, Round, Branch, on_shutdown, on_interrupt, on_command, on_tick, no_branch, select_sink,
  sink_step,
}
use dorsche.Topshim.Actors.Vad.{
  Microphone, Vad, Listening, Heed, heeds_shutdown, heeds_echo, heeds_frame, heeds_nothing,
  select_vad, hear,
}
use dorsche.Topshim.Actors.Barge.{
  Room, new_room, Move, listens, plays, Report, heard, took, interrupt_inbox, raise, rest_of,
  listen, echoes_of, received, player_after, is_there, perform, detector_move, player_move, move,
  run_room,
}
use dorsche.Topshim.Actors.Barge.Branches.{Heeds, heed-Heeds, Chosen, branch-Chosen}

abbrev pub last_of : Option EchoReference → List EchoReference → Option EchoReference
last_of l [] = l
last_of l (e ∷ es) = last_of (some e) es

abbrev pub quiet_after : Branch → Bool → Bool
quiet_after (on_interrupt i) q = true
quiet_after (on_command u) q = false
quiet_after b q = q

-- The branches that the sink may take while the interrupt `p` is unanswered, and while it is `quiet`,
-- that is, has not been started since the last interrupt.
abbrev pub Permits : Option ℕ → Bool → Branch → Type 0
Permits p quiet (on_shutdown stop) = Unit
Permits p quiet (on_interrupt i) = p ≡ some i
Permits p quiet (on_command u) = p ≡ none
Permits p quiet on_tick = (p ≡ none) × (quiet ≡ false)
Permits p quiet no_branch = p ≡ none

-- Reports in order: `p` is the first `BargeIn` since the last interrupt, `l` the last echo sent.
abbrev pub Obeys : Option ℕ → Option EchoReference → Bool → List Report → Type 0
Obeys p l quiet [] = Unit
Obeys p l quiet (heard frame echo sends ∷ rs) =
    (echo ≡ l) × Obeys (raise sends frame.frame_sequence p) l quiet rs
Obeys p l quiet (took b out ∷ rs) =
    Permits p quiet b × Obeys (received b p) (last_of l (echoes_of out)) (quiet_after b quiet) rs

record Fits (r : Room) (p : Option ℕ) (l : Option EchoReference) (quiet : Bool) : Type 0 where
  pub pending : r.pending ≡ p
  pub latest : (v : Vad) → r.detector ≡ some v → last_of v.latest_echo r.echoes ≡ l
  pub stopped : quiet ≡ true → (s : Sink) → r.player ≡ some s → s.current ≡ none

some-inj : {A : Type 0} {x y : A} → some x ≡ some y → x ≡ y
some-inj q = cc

some-none : {A : Type 0} {x : A} → some x ≡ none → ⊥
some-none q = cc

last_of-append :
    (l : Option EchoReference) (es fs : List EchoReference)
    → last_of l (es ++ fs) ≡ last_of (last_of l es) fs
last_of-append l [] fs = refl
last_of-append l (e ∷ es) fs = last_of-append (some e) es fs

module _ (speaks : Microphone → Option EchoReference → Bool) (rest : Room → List Report) where
  -- The reports of a move and of all that comes after it are in order.
  abbrev Continues : Option ℕ → Option EchoReference → Bool → Room × List Report → Type 0
  Continues p l quiet (r', reports) =
      ((p' : Option ℕ) (l' : Option EchoReference) (q' : Bool)
        → Fits r' p' l' q'
        → Obeys p' l' q' (rest r'))
      → Obeys p l quiet (reports ++ rest r')

  module _ (r : Room) {p : Option ℕ} {l : Option EchoReference} {quiet : Bool}
      (h : Fits r p l quiet) where
    listen-Continues :
        (v : Vad) (b : Heed)
        → r.detector ≡ some v
        → Heeds r.echoes b
        → Continues p l quiet (listen speaks b v r)
    unfolding listen hear
    listen-Continues v (heeds_shutdown true) d e k =
        k p l quiet (record { pending = h.pending; latest = λ w q. cc; stopped = h.stopped })
    listen-Continues v (heeds_shutdown false) d e k = k p l quiet h
    listen-Continues v (heeds_echo echo) d e k = k p l quiet (record {
      pending = h.pending;
      latest = λ w q.
          ap (λ (x : Vad). last_of x.latest_echo (rest_of r.echoes)) (sym (some-inj q))
          ∙ (ap (last_of v.latest_echo) (sym e) ∙ h.latest v d);
      stopped = h.stopped;
    })
    listen-Continues v (heeds_frame frame) d e k =
        let heard_last : v.latest_echo ≡ l = ap (last_of v.latest_echo) (sym e) ∙ h.latest v d in
        (
          heard_last,
          k (raise (hear speaks frame v).1 frame.frame_sequence p) l quiet (record {
            pending = ap (raise (hear speaks frame v).1 frame.frame_sequence) h.pending;
            latest = λ w q.
                ap (λ (x : Vad). last_of x.latest_echo r.echoes) (sym (some-inj q)) ∙ h.latest v d;
            stopped = h.stopped;
          }),
        )
    listen-Continues v heeds_nothing d e k = k p l quiet h

    Chosen-Permits :
        (s : Sink) (b : Branch)
        → r.player ≡ some s
        → Chosen r.pending s.current b
        → Permits p quiet b
    Chosen-Permits s (on_shutdown stop) d e = tt
    Chosen-Permits s (on_interrupt i) d e = sym h.pending ∙ e
    Chosen-Permits s (on_command u) d e = sym h.pending ∙ e
    Chosen-Permits s on_tick d (e, u, c) = (
      sym h.pending ∙ e,
      elim (Bool-cases quiet) [ inl q ↦ absurd (some-none (sym c ∙ h.stopped q s d)) | inr q ↦ q ],
    )
    Chosen-Permits s no_branch d e = sym h.pending ∙ e

    -- A quiet sink has no utterance.
    step-stopped :
        (n : Round) (s : Sink) (b : Branch)
        → r.player ≡ some s
        → Permits p quiet b
        → quiet_after b quiet ≡ true
        → (s' : Sink) → player_after (sink_step n s b).0 ≡ some s'
        → s'.current ≡ none
    unfolding sink_step
    step-stopped n s (on_shutdown true) d m q s' e = cc
    step-stopped n s (on_shutdown false) d m q s' e = h.stopped q s' (d ∙ e)
    step-stopped n s (on_interrupt i) d m q s' e = ap (λ (x : Sink). x.current) (sym (some-inj e))
    step-stopped n s (on_command u) d m q s' e = cc
    step-stopped n s on_tick d (m, loud) q s' e = cc
    step-stopped n s no_branch d m q s' e = h.stopped q s' (d ∙ e)

    perform-Continues :
        (n : Round) (s : Sink) (b : Branch)
        → r.player ≡ some s
        → Chosen r.pending s.current b
        → Continues p l quiet (perform n s b r)
    unfolding perform
    perform-Continues n s b d e k =
        let permits = Chosen-Permits s b d e in
        let out = echoes_of (sink_step n s b).1 in
        (
          permits,
          k (received b p) (last_of l out) (quiet_after b quiet) (record {
            pending = ap (received b) h.pending;
            latest = λ v q.
                last_of-append v.latest_echo r.echoes out ∙ ap (λ x. last_of x out) (h.latest v q);
            stopped = step-stopped n s b d permits;
          }),
        )

    detector_move-Continues :
        (m : Listening) (o : Option Vad)
        → r.detector ≡ o
        → Continues p l quiet (detector_move speaks m o r)
    unfolding select_vad
    detector_move-Continues m none d k = k p l quiet h
    detector_move-Continues m (some v) d k =
        listen-Continues v _ d (heed-Heeds (shutdown_taken m.shutdown) r.echoes m.microphone) k

    player_move-Continues :
        (n : Round) (o : Option Sink) → r.player ≡ o → Continues p l quiet (player_move n o r)
    unfolding select_sink
    player_move-Continues n none d k = k p l quiet h
    player_move-Continues n (some s) d k =
        let n' : Round = record n {
          interrupt = interrupt_inbox r.pending;
          is_listening = is_there r.detector;
        } in
        perform-Continues n' s (select_sink n' s) d
          (branch-Chosen (shutdown_taken n.shutdown) r.pending n.command n.has_ticked s.current) k

    move-Continues : (m : Move) → Continues p l quiet (move speaks m r)
    unfolding move
    move-Continues (listens m) = detector_move-Continues m r.detector refl
    move-Continues (plays n) = player_move-Continues n r.player refl

run_room-Obeys :
    (speaks : Microphone → Option EchoReference → Bool) (ms : List Move) (r : Room) (p : Option ℕ)
    (l : Option EchoReference) (quiet : Bool)
    → Fits r p l quiet
    → Obeys p l quiet (run_room speaks ms r)
unfolding run_room
run_room-Obeys speaks [] r p l quiet h = tt
run_room-Obeys speaks (m ∷ ms) r p l quiet h =
    move-Continues speaks (λ r'. run_room speaks ms r') r h m
      (λ p' l' q' h'. run_room-Obeys speaks ms (move speaks m r).0 p' l' q' h')

-- However the rounds of the detector and of the playback sink interleave and whatever counts as
-- speech: every frame that the detector judges is judged with the last echo that the sink has sent;
-- once a `BargeIn` is sent, the sink neither plays a frame nor takes a command before it has taken an
-- interrupt, which is the first one sent since the last; it takes no interrupt that was not sent;
-- and after an interrupt, and before its first start, it plays nothing until the next start.
pub barge_in_order :
    (speaks : Microphone → Option EchoReference → Bool) (moves : List Move)
    → Obeys none none true (run_room speaks moves new_room)
barge_in_order speaks moves = run_room-Obeys speaks moves new_room none none true start
  where
    start : Fits new_room none none true
    start = record {
      pending = refl;
      latest = λ v q. ap (λ (x : Vad). x.latest_echo) (sym (some-inj q));
      stopped = λ q s e. ap (λ (x : Sink). x.current) (sym (some-inj e));
    }
