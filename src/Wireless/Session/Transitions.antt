-- ===== src/Wireless/Session/Transitions.antt =====
-- Which command moves a session where: the actor against the state machine of the contract.
use dorsche.Base.{
  ◌≤◌, ◌≡◌, ◌≢◌, ◌↔◌, ◌⊎◌, inl, inr, refl, some, Result, ok, err, Result-cases, arith,
  reply_dropped,
}
use dorsche.Wireless.Types.Kinds.{SessionType, carries_host_payload}
use dorsche.Wireless.Types.Audio.{AudioConfiguration, Suits, validate_for, validate_for_iff}
use dorsche.Wireless.Types.Frame.{PresentationPosition}
use dorsche.Wireless.Session.Coherence.{IsCoherent}
use dorsche.Wireless.Session.Clock.{OctetsMove}
use dorsche.Wireless.Session.{
  idle, configured, streaming, suspended, closed, Command, configure, start, suspend, stop,
  update_position, get_position, close, Session, initial, Channel, emit, try_configure, try_update,
  handle, Task, running, ended, System, Answer, unit, call,
}

-- The moves of the contract.
pub data Move (t : SessionType) (s : Session) : Command → Session → Type 0 where
  configures :
      (c : AudioConfiguration)
      → s.state ≢ streaming
      → s.state ≢ closed
      → Suits c t
      → Move t s (configure c) (record s { configuration = some c; state = configured })
  starts :
      (s.state ≡ configured) ⊎ (s.state ≡ suspended)
      → Move t s start (record s { state = streaming })
  suspends : s.state ≡ streaming → Move t s suspend (record s { state = suspended })
  stops : s.state ≢ idle → s.state ≢ closed → Move t s stop initial
  updates :
      (p : PresentationPosition)
      → s.state ≡ streaming
      → s.position.monotonic_time_ns ≤ p.monotonic_time_ns
      → OctetsMove (carries_host_payload t) s.position.transmitted_octets p.transmitted_octets
      → Move t s (update_position p) (record s { position = p })

-- The client was told of success and the actor goes on with the session `s'`.
abbrev pub Accepted : Result Answer × System → Session → Type 0
Accepted (a, sys) s' = (a ≡ ok unit) × (sys.task ≡ running s')

abbrev pub at : Session → Channel → System
at s ch = record { task = running s; channel = ch }

module _ (t : SessionType) (s : Session) (ch : Channel) (v : IsCoherent t s)
    (room : 2 ≤ ch.room) where
  try_configure_of_move :
      (c : AudioConfiguration)
      → s.state ≢ streaming
      → s.state ≢ closed
      → Suits c t
      → try_configure t c s ≡ ok (record s { configuration = some c; state = configured })
  unfolding try_configure
  try_configure_of_move c h k suits = ground (arith, (validate_for_iff c t).1 suits)

  try_update_of_move :
      (p : PresentationPosition)
      → s.state ≡ streaming
      → s.position.monotonic_time_ns ≤ p.monotonic_time_ns
      → OctetsMove (carries_host_payload t) s.position.transmitted_octets p.transmitted_octets
      → try_update t p s ≡ ok (record s { position = p })
  unfolding try_update
  try_update_of_move p h k m = ground arith

  accepts : (c : Command) (s' : Session) → Move t s c s' → Accepted (call t c (at s ch)) s'
  unfolding call handle emit
  accepts c s' (configures a h k suits) = ground (arith, try_configure_of_move a h k suits)
  accepts c s' (starts h) = ground (arith, v.configured)
  accepts c s' (suspends h) = ground arith
  accepts c s' (stops h k) = ground arith
  accepts c s' (updates p h k m) = ground (arith, try_update_of_move p h k m)

  Move-of_configure :
      (c : AudioConfiguration) (u : Session) → try_configure t c s ≡ ok u → Move t s (configure c) u
  unfolding try_configure
  Move-of_configure c u e =
      let facts : (s.state ≢ streaming)
          × (s.state ≢ closed)
          × (validate_for c t ≡ ok tt)
          × (u ≡ record s { configuration = some c; state = configured }) =
        ground arith in
      rw facts.3 (configures c facts.0 facts.1 ((validate_for_iff c t).0 facts.2))

  Move-of_update :
      (p : PresentationPosition) (u : Session)
      → try_update t p s ≡ ok u
      → Move t s (update_position p) u
  unfolding try_update
  Move-of_update p u e =
      let facts : (s.state ≡ streaming)
          × (s.position.monotonic_time_ns ≤ p.monotonic_time_ns)
          × OctetsMove (carries_host_payload t) s.position.transmitted_octets p.transmitted_octets
          × (u ≡ record s { position = p }) =
        ground arith in
      rw facts.3 (updates p facts.0 facts.1 facts.2)

  moves : (c : Command) (s' : Session) → Accepted (call t c (at s ch)) s' → Move t s c s'
  unfolding call handle emit
  moves (configure c) s' h = elim (Result-cases (try_configure t c s)) [
    | inl (u, e) ↦ let same : s' ≡ u = ground arith in rw same (Move-of_configure c u e)
    | inr (x, e) ↦ absurd (ground arith)
  ]
  moves start s' h =
      let same : s' ≡ record s { state = streaming } = ground arith in
      rw same (starts (ground arith))
  moves suspend s' h =
      let same : s' ≡ record s { state = suspended } = ground arith in
      rw same (suspends (ground arith))
  moves stop s' h =
      let same : s' ≡ initial = ground arith in rw same (stops (ground arith) (ground arith))
  moves (update_position p) s' h = elim (Result-cases (try_update t p s)) [
    | inl (u, e) ↦ let same : s' ≡ u = ground arith in rw same (Move-of_update p u e)
    | inr (x, e) ↦ absurd (ground arith)
  ]
  moves get_position s' h = absurd (ground arith)
  moves close s' h = absurd (ground arith)

-- While the event receiver takes events, a command succeeds and leaves the actor running with a
-- session exactly when that is a move of the contract.
pub call_refines :
    (t : SessionType) (c : Command) (s s' : Session) (ch : Channel)
    → IsCoherent t s
    → 2 ≤ ch.room
    → Move t s c s' ↔ Accepted (call t c (at s ch)) s'
call_refines t c s s' ch v room = (accepts t s ch v room c s', moves t s ch v room c s')

refused_at :
    (t : SessionType) (c : Command) (s : Session) (ch : Channel)
    → (call t c (at s ch)).0 ≢ ok unit
    → (call t c (at s ch)).0 ≢ err reply_dropped
    → (call t c (at s ch)).1 ≡ at s ch
unfolding call handle
refused_at t (configure c) s ch h k = ground arith
refused_at t start s ch h k = ground arith
refused_at t suspend s ch h k = ground arith
refused_at t stop s ch h k = ground arith
refused_at t (update_position p) s ch h k = ground arith
refused_at t get_position s ch h k = refl
refused_at t close s ch h k = ground arith

-- A call that neither succeeds with an empty answer nor loses its reply has changed nothing and
-- told nobody: the task, its session and the delivered events are what they were.
pub refused_unchanged :
    (t : SessionType) (c : Command) (sys : System)
    → (call t c sys).0 ≢ ok unit
    → (call t c sys).0 ≢ err reply_dropped
    → (call t c sys).1 ≡ sys
refused_unchanged t c sys = by_task sys.task sys.channel
  where
    by_task :
        (k : Task) (ch : Channel)
        → let now : System = record { task = k; channel = ch } in
          (call t c now).0 ≢ ok unit → (call t c now).0 ≢ err reply_dropped → (call t c now).1 ≡ now
    by_task (running s) ch = refused_at t c s ch
    by_task (ended r) ch = λ h k. unfold call in refl
