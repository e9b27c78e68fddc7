-- ===== src/Wireless/Session/Coherence.antt =====
-- The invariant of a session: its state, its configuration and its position fit together.
use dorsche.Base.{
  ℕ, ◌≡◌, refl, subst, inl, inr, Result-cases, false, List, Option, none, some, ok, arith,
}
use dorsche.Wireless.Types.Kinds.{SessionType, carries_host_payload}
use dorsche.Wireless.Types.Audio.{AudioConfiguration, Suits, validate_for_iff}
use dorsche.Wireless.Types.Frame.{PresentationPosition, default_position}
use dorsche.Wireless.Session.Runs.{TurnHolds, TaskHolds, run_holds}
use dorsche.Wireless.Session.{
  SessionState, idle, closed, Command, configure, start, suspend, stop, update_position,
  get_position, close, Session, initial, Channel, try_configure, try_update, handle, running, spawn,
  run,
}

-- Only an idle session has no configuration, and what it has suits the session type. The loop
-- never goes on in the closed state.
abbrev pub Configured : SessionType → SessionState → Option AudioConfiguration → Type 0
Configured t idle none = Unit
Configured t idle (some c) = ⊥
Configured t closed c = ⊥
Configured t _ none = ⊥
Configured t _ (some c) = Suits c t

pub record IsCoherent (t : SessionType) (s : Session) : Type 0 where
  pub configured : Configured t s.state s.configuration
  pub fresh : s.state ≡ idle → s.position ≡ default_position
  pub host_octets : carries_host_payload t ≡ false → s.position.transmitted_octets ≡ 0

pub initial-IsCoherent : (t : SessionType) → IsCoherent t initial
initial-IsCoherent t = record { configured = tt; fresh = λ _. refl; host_octets = λ _. refl }

try_configure-IsCoherent :
    (t : SessionType) (c : AudioConfiguration) (s s' : Session)
    → IsCoherent t s
    → try_configure t c s ≡ ok s'
    → IsCoherent t s'
unfolding try_configure
try_configure-IsCoherent t c s s' v e = ground (arith, validate_for_iff c t)

try_update-IsCoherent :
    (t : SessionType) (p : PresentationPosition) (s s' : Session)
    → IsCoherent t s
    → try_update t p s ≡ ok s'
    → IsCoherent t s'
unfolding try_update
try_update-IsCoherent t p s s' v e = ground arith

abbrev Rest : Channel → Type 0
Rest ch = Unit

handle-IsCoherent :
    (t : SessionType) (c : Command) (s : Session) (ch : Channel)
    → IsCoherent t s
    → TurnHolds (λ u _. IsCoherent t u) Rest (handle t c s ch)
unfolding handle
handle-IsCoherent t (configure c) s ch v = elim (Result-cases (try_configure t c s)) [
  | inl (s', e) ↦ ground (arith, try_configure-IsCoherent t c s s' v e)
  | inr (x, e) ↦ ground arith
]
handle-IsCoherent t start s ch v = ground arith
handle-IsCoherent t suspend s ch v = ground arith
handle-IsCoherent t stop s ch v = ground arith
handle-IsCoherent t (update_position p) s ch v = elim (Result-cases (try_update t p s)) [
  | inl (s', e) ↦ ground (arith, try_update-IsCoherent t p s s' v e)
  | inr (x, e) ↦ ground arith
]
handle-IsCoherent t get_position s ch v = v
handle-IsCoherent t close s ch v = ground arith

-- Whatever the commands, while the task runs its session is coherent: it is not closed, it is
-- without a configuration exactly in the idle state, its configuration suits the session type, an
-- idle session has the default position, and an offloaded one has transmitted no host octets.
pub run-IsCoherent :
    (t : SessionType) (cs : List Command) (room : ℕ) (s : Session)
    → (run t cs (spawn room)).task ≡ running s
    → IsCoherent t s
run-IsCoherent t cs room s e =
    subst (λ k. TaskHolds (λ u _. IsCoherent t u) Rest k (run t cs (spawn room)).channel) e
      (run_holds (λ u _. IsCoherent t u) Rest t (handle-IsCoherent t) cs (spawn room)
        (initial-IsCoherent t))
