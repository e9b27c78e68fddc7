-- ===== src/Wireless/Session/Replay.antt =====
-- The events of a session tell its whole state: an observer that replays them holds the session
-- that the actor holds.
use dorsche.Base.{
  ℕ, ◌≡◌, refl, subst, sym, ◌∙◌, ap, inl, inr, List, [], ◌∷◌, ◌++◌, some, ok, Result-cases, arith,
}
use dorsche.Wireless.Types.Kinds.{SessionType}
use dorsche.Wireless.Types.Audio.{AudioConfiguration}
use dorsche.Wireless.Types.Frame.{PresentationPosition}
use dorsche.Wireless.Session.Runs.{TurnHolds, TaskHolds, run_holds}
use dorsche.Wireless.Session.{
  idle, streaming, suspended, SessionEvent, state_changed, configuration_changed, position_changed,
  Command, configure, start, suspend, stop, update_position, get_position, close, Session, initial,
  Channel, running, emit, try_configure, try_update, announce, announce_both, handle, spawn, run,
}

-- An observer's view after one event. Going idle is the end of a configuration.
abbrev pub see : Session → SessionEvent → Session
see s (state_changed idle) = initial
see s (state_changed x) = record s { state = x }
see s (configuration_changed c) = record s { configuration = some c }
see s (position_changed p) = record s { position = p }

abbrev pub observe : Session → List SessionEvent → Session
observe s [] = s
observe s (e ∷ es) = observe (see s e) es

pub observe-append :
    (s : Session) (es fs : List SessionEvent) → observe s (es ++ fs) ≡ observe (observe s es) fs
observe-append s [] fs = refl
observe-append s (e ∷ es) fs = observe-append (see s e) es fs

-- The observer is level with the actor.
abbrev pub Level : Session → Channel → Type 0
Level s ch = observe initial ch.delivered ≡ s

abbrev Rest : Channel → Type 0
Rest ch = Unit

pub emit_appends :
    (ch ch' : Channel) (e : SessionEvent)
    → emit ch e ≡ ok ch'
    → ch'.delivered ≡ ch.delivered ++ (e ∷ [])
unfolding emit
emit_appends ch ch' e h = ground arith

pub Level-emit :
    (s : Session) (ch ch' : Channel) (e : SessionEvent)
    → Level s ch
    → emit ch e ≡ ok ch'
    → Level (see s e) ch'
Level-emit s ch ch' e l h =
    ap (observe initial) (emit_appends ch ch' e h)
    ∙ observe-append initial ch.delivered (e ∷ [])
    ∙ ap (λ u. see u e) l

announce-Level :
    (s : Session) (ch : Channel) (e : SessionEvent)
    → Level s ch
    → TurnHolds Level Rest (announce (see s e) ch e)
announce-Level s ch e l = elim (Result-cases (emit ch e)) [
  | inl (ch', h) ↦ ground (arith, Level-emit s ch ch' e l h)
  | inr (x, h) ↦ ground arith
]

announce_both-Level :
    (s : Session) (ch : Channel) (e f : SessionEvent)
    → Level s ch
    → TurnHolds Level Rest (announce_both (see (see s e) f) ch e f)
announce_both-Level s ch e f l = elim (Result-cases (emit ch e)) [
  | inl (ch', h) ↦
      rw (h, TurnHolds, announce_both) (announce-Level (see s e) ch' f (Level-emit s ch ch' e l h))
  | inr (x, h) ↦ ground arith
]

pub try_configure-see :
    (t : SessionType) (c : AudioConfiguration) (s s' : Session)
    → try_configure t c s ≡ ok s'
    → s' ≡ see (see s (configuration_changed c)) (state_changed s'.state)
unfolding try_configure
try_configure-see t c s s' h = ground arith

pub try_update-see :
    (t : SessionType) (p : PresentationPosition) (s s' : Session)
    → try_update t p s ≡ ok s'
    → s' ≡ see s (position_changed p)
unfolding try_update
try_update-see t p s s' h = ground arith

handle-Level :
    (t : SessionType) (c : Command) (s : Session) (ch : Channel)
    → Level s ch
    → TurnHolds Level Rest (handle t c s ch)
unfolding handle
handle-Level t (configure c) s ch l = elim (Result-cases (try_configure t c s)) [
  | inl (s', e) ↦
      rw (e, TurnHolds, handle)
        (subst
          (λ u.
            TurnHolds Level Rest
              (announce_both u ch (configuration_changed c) (state_changed s'.state)))
          (sym (try_configure-see t c s s' e))
          (announce_both-Level s ch (configuration_changed c) (state_changed s'.state) l))
  | inr (x, e) ↦ rw (e, TurnHolds, handle) l
]
handle-Level t start s ch l = ground (arith, announce-Level s ch (state_changed streaming) l)
handle-Level t suspend s ch l = ground (arith, announce-Level s ch (state_changed suspended) l)
handle-Level t stop s ch l = ground (arith, announce-Level s ch (state_changed idle) l)
handle-Level t (update_position p) s ch l = elim (Result-cases (try_update t p s)) [
  | inl (s', e) ↦
      rw (e, TurnHolds, handle)
        (subst (λ u. TurnHolds Level Rest (announce u ch (position_changed p)))
          (sym (try_update-see t p s s' e)) (announce-Level s ch (position_changed p) l))
  | inr (x, e) ↦ rw (e, TurnHolds, handle) l
]
handle-Level t get_position s ch l = l
handle-Level t close s ch l = ground arith

-- Whatever the commands, while the task runs, replaying the delivered events from an idle session
-- gives exactly the actor's session: its state, its configuration and its position.
pub run-observe :
    (t : SessionType) (cs : List Command) (room : ℕ) (s : Session)
    → (run t cs (spawn room)).task ≡ running s
    → observe initial (run t cs (spawn room)).channel.delivered ≡ s
run-observe t cs room s e =
    subst (λ k. TaskHolds Level Rest k (run t cs (spawn room)).channel) e
      (run_holds Level Rest t (handle-Level t) cs (spawn room) refl)
