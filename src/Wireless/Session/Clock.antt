-- ===== src/Wireless/Session/Clock.antt =====
-- The presentation clock in the events of a session.
use dorsche.Base.{
  ℕ, ◌≤◌, ◌≡◌, refl, subst, sym, inl, inr, Bool, true, false, List, [], ◌∷◌, ◌++◌, ok, Result-cases,
  arith,
}
use dorsche.Wireless.Types.Kinds.{SessionType, carries_host_payload}
use dorsche.Wireless.Types.Audio.{AudioConfiguration}
use dorsche.Wireless.Types.Frame.{PresentationPosition}
use dorsche.Wireless.Session.Runs.{TurnHolds, TaskHolds, run_holds}
use dorsche.Wireless.Session.Replay.{
  see, observe, Level, emit_appends, Level-emit, try_configure-see, try_update-see,
}
use dorsche.Wireless.Session.{
  idle, streaming, suspended, closed, SessionEvent, state_changed, configuration_changed,
  position_changed, Command, configure, start, suspend, stop, update_position, get_position, close,
  Session, initial, Channel, emit, try_configure, try_update, announce, announce_both, handle, Turn,
  Task, running, ended, spawn, run,
}

module _ (host : Bool) where
  -- How the octet counter may move: up if the host carries the payload, and not off zero else.
  abbrev pub OctetsMove : ℕ → ℕ → Type 0
  OctetsMove from to = elim host [ true ↦ from ≤ to | false ↦ to ≡ 0 ]

  -- A position is reported while streaming, and its clock does not go backwards.
  abbrev pub Follows : Session → SessionEvent → Type 0
  Follows s (position_changed p) =
      (s.state ≡ streaming)
      × (s.position.monotonic_time_ns ≤ p.monotonic_time_ns)
      × OctetsMove s.position.transmitted_octets p.transmitted_octets
  Follows s _ = Unit

  -- Each event follows the session that those before it tell of.
  abbrev pub Clocked : Session → List SessionEvent → Type 0
  Clocked s [] = Unit
  Clocked s (e ∷ es) = Follows s e × Clocked (see s e) es

  Clocked-append :
      (s : Session) (es : List SessionEvent) (e : SessionEvent)
      → Clocked s es
      → Follows (observe s es) e
      → Clocked s (es ++ (e ∷ []))
  Clocked-append s [] e h f = (f, tt)
  Clocked-append s (x ∷ es) e h f = (h.0, Clocked-append (see s x) es e h.1 f)

  abbrev Ticks : Channel → Type 0
  Ticks ch = Clocked initial ch.delivered

  abbrev LevelTicks : Session → Channel → Type 0
  LevelTicks s ch = Level s ch × Ticks ch

  Ticks-emit :
      (s : Session) (ch ch' : Channel) (e : SessionEvent)
      → LevelTicks s ch
      → Follows s e
      → emit ch e ≡ ok ch'
      → Ticks ch'
  Ticks-emit s ch ch' e (l, k) f h =
      subst (Clocked initial) (sym (emit_appends ch ch' e h))
        (Clocked-append initial ch.delivered e k (subst (λ u. Follows u e) (sym l) f))

  announce-Ticks :
      (s : Session) (ch : Channel) (e : SessionEvent)
      → LevelTicks s ch
      → Follows s e
      → TurnHolds LevelTicks Ticks (announce (see s e) ch e)
  announce-Ticks s ch e v f = elim (Result-cases (emit ch e)) [
    | inl (ch', h) ↦
        rw (h, TurnHolds, announce) (Level-emit s ch ch' e v.0 h, Ticks-emit s ch ch' e v f h)
    | inr (x, h) ↦ rw (h, TurnHolds, announce) v.1
  ]

  announce_both-Ticks :
      (s : Session) (ch : Channel) (e f : SessionEvent)
      → LevelTicks s ch
      → Follows s e
      → Follows (see s e) f
      → TurnHolds LevelTicks Ticks (announce_both (see (see s e) f) ch e f)
  announce_both-Ticks s ch e f v fe ff = elim (Result-cases (emit ch e)) [
    | inl (ch', h) ↦
        rw (h, TurnHolds, announce_both)
          (announce-Ticks (see s e) ch' f
            (Level-emit s ch ch' e v.0 h, Ticks-emit s ch ch' e v fe h) ff)
    | inr (x, h) ↦ rw (h, TurnHolds, announce_both) v.1
  ]

try_update-Follows :
    (t : SessionType) (p : PresentationPosition) (s s' : Session)
    → try_update t p s ≡ ok s'
    → Follows (carries_host_payload t) s (position_changed p)
unfolding try_update
try_update-Follows t p s s' h = ground arith

module _ (t : SessionType) (s : Session) (ch : Channel)
    (v : LevelTicks (carries_host_payload t) s ch) where
  abbrev Holds : Turn → Type 0
  Holds = TurnHolds (LevelTicks (carries_host_payload t)) (Ticks (carries_host_payload t))

  configure-Ticks : (c : AudioConfiguration) → Holds (handle t (configure c) s ch)
  unfolding handle
  configure-Ticks c = elim (Result-cases (try_configure t c s)) [
    | inl (s', e) ↦
        rw (e, TurnHolds, handle)
          (subst
            (λ u. Holds (announce_both u ch (configuration_changed c) (state_changed s'.state)))
            (sym (try_configure-see t c s s' e))
            (announce_both-Ticks (carries_host_payload t) s ch (configuration_changed c)
              (state_changed s'.state) v tt tt))
    | inr (x, e) ↦ rw (e, TurnHolds, handle) v
  ]

  update_position-Ticks : (p : PresentationPosition) → Holds (handle t (update_position p) s ch)
  unfolding handle
  update_position-Ticks p = elim (Result-cases (try_update t p s)) [
    | inl (s', e) ↦
        rw (e, TurnHolds, handle)
          (subst (λ u. Holds (announce u ch (position_changed p))) (sym (try_update-see t p s s' e))
            (announce-Ticks (carries_host_payload t) s ch (position_changed p) v
              (try_update-Follows t p s s' e)))
    | inr (x, e) ↦ rw (e, TurnHolds, handle) v
  ]

handle-Ticks :
    (t : SessionType) (c : Command) (s : Session) (ch : Channel)
    → LevelTicks (carries_host_payload t) s ch
    → TurnHolds
        (LevelTicks (carries_host_payload t))
        (Ticks (carries_host_payload t))
        (handle t c s ch)
unfolding handle
handle-Ticks t (configure c) s ch v = configure-Ticks t s ch v c
handle-Ticks t start s ch v =
    ground (arith, announce-Ticks (carries_host_payload t) s ch (state_changed streaming) v tt)
handle-Ticks t suspend s ch v =
    ground (arith, announce-Ticks (carries_host_payload t) s ch (state_changed suspended) v tt)
handle-Ticks t stop s ch v =
    ground (arith, announce-Ticks (carries_host_payload t) s ch (state_changed idle) v tt)
handle-Ticks t (update_position p) s ch v = update_position-Ticks t s ch v p
handle-Ticks t get_position s ch v = v
handle-Ticks t close s ch v = elim (Result-cases (emit ch (state_changed closed))) [
  | inl (ch', h) ↦
      rw (h, TurnHolds, handle)
        (Ticks-emit (carries_host_payload t) s ch ch' (state_changed closed) v tt h)
  | inr (x, h) ↦ rw (h, TurnHolds, handle) v.1
]

-- In every run, each reported position was reported while streaming, its clock is not before the
-- one reported last since the session was idle, and its octet counter has not gone back, or is zero
-- in an offloaded session.
pub run-Clocked :
    (t : SessionType) (cs : List Command) (room : ℕ)
    → Clocked (carries_host_payload t) initial (run t cs (spawn room)).channel.delivered
run-Clocked t cs room = reported (run t cs (spawn room)).task (run t cs (spawn room)).channel held
  where
    reported :
        (k : Task) (ch : Channel)
        → TaskHolds (LevelTicks (carries_host_payload t)) (Ticks (carries_host_payload t)) k ch
        → Ticks (carries_host_payload t) ch
    reported (running s) ch h = h.1
    reported (ended r) ch h = h

    held :
        TaskHolds
          (LevelTicks (carries_host_payload t))
          (Ticks (carries_host_payload t))
          (run t cs (spawn room)).task
          (run t cs (spawn room)).channel
    held = run_holds _ _ t (handle-Ticks t) cs (spawn room) (refl, tt)
