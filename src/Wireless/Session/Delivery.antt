-- ===== src/Wireless/Session/Delivery.antt =====
-- That the actor answers: with a receiver that keeps taking events it ends only by `close`, and
-- what has ended stays ended.
use dorsche.Base.{
  ℕ, ◌+◌, ◌*◌, ◌≤◌, ◌≡◌, refl, subst, sym, ap, ◌∙◌, Error, inl, inr, List, [], ◌∷◌, length, ok, err,
  Result, Result-cases, arith, session_stopped,
}
use dorsche.Wireless.Types.Kinds.{SessionType}
use dorsche.Wireless.Session.{
  closed, state_changed, Command, configure, start, suspend, stop, update_position, get_position,
  close, Session, Channel, emit, Turn, next, finish, fail, handle, Task, running, ended, System,
  Answer, unit, settle, call, run, spawn,
}

-- A command other than `close`.
abbrev pub StaysOpen : Command → Type 0
StaysOpen close = ⊥
StaysOpen _ = Unit

abbrev pub AllStayOpen : List Command → Type 0
AllStayOpen [] = Unit
AllStayOpen (c ∷ cs) = StaysOpen c × AllStayOpen cs

-- The turn went on, with at most two events fewer to deliver.
abbrev GoesOn : ℕ → Turn → Type 0
GoesOn n (next s ch r) = n ≤ ch.room + 2
GoesOn n _ = ⊥

handle-GoesOn :
    (t : SessionType) (c : Command) (s : Session) (ch : Channel)
    → StaysOpen c
    → 2 ≤ ch.room
    → GoesOn ch.room (handle t c s ch)
unfolding handle emit
handle-GoesOn t (configure c) s ch o h = ground arith
handle-GoesOn t start s ch o h = ground arith
handle-GoesOn t suspend s ch o h = ground arith
handle-GoesOn t stop s ch o h = ground arith
handle-GoesOn t (update_position p) s ch o h = ground arith
handle-GoesOn t get_position s ch o h = omega arith
handle-GoesOn t close s ch o h = absurd o

-- Still running, with room for so many more events.
abbrev Serves : ℕ → Task → Channel → Type 0
Serves n (running s) ch = n ≤ ch.room
Serves n (ended r) ch = ⊥

settle-Serves :
    (n m : ℕ) (turn : Turn)
    → n + 2 ≤ m
    → GoesOn m turn
    → Serves n (settle turn).1.task (settle turn).1.channel
settle-Serves n m (next s ch r) h g = omega arith
settle-Serves n m (finish ch r) h g = absurd g
settle-Serves n m (fail e ch) h g = absurd g

call-Serves :
    (t : SessionType) (c : Command) (n : ℕ) (k : Task) (ch : Channel)
    → StaysOpen c
    → Serves (n + 2) k ch
    → let (a, sys) = call t c (record { task = k; channel = ch }) in Serves n sys.task sys.channel
unfolding call
call-Serves t c n (running s) ch o h =
    settle-Serves n ch.room (handle t c s ch) h (handle-GoesOn t c s ch o (omega arith))
call-Serves t c n (ended r) ch o h = absurd h

run-Serves :
    (t : SessionType) (cs : List Command) (sys : System)
    → AllStayOpen cs
    → Serves (2 * length cs) sys.task sys.channel
    → Serves 0 (run t cs sys).task (run t cs sys).channel
unfolding run
run-Serves t [] sys o h = h
run-Serves t (c ∷ cs) sys o h = run-Serves t cs (call t c sys).1 o.1 (
    call-Serves t c (2 * length cs) sys.task sys.channel o.0
      (subst (λ n. Serves n sys.task sys.channel) (omega arith) h))

-- A receiver that takes two events for each command keeps the actor running, through any commands
-- but `close`, accepted or refused: no command leaves the client without its reply.
pub run_keeps_running :
    (t : SessionType) (cs : List Command) (room : ℕ)
    → AllStayOpen cs
    → 2 * length cs ≤ room
    → (s : Session) × ((run t cs (spawn room)).task ≡ running s)
run_keeps_running t cs room o h =
    session (run t cs (spawn room)).task (run-Serves t cs (spawn room) o h)
  where
    session :
        (k : Task) → Serves 0 k (run t cs (spawn room)).channel → (s : Session) × (k ≡ running s)
    session (running s) g = (s, refl)
    session (ended r) g = absurd g

abbrev ended_with : Result (Unit {0}) → Channel → System
ended_with r ch = record { task = ended r; channel = ch }

ended_run :
    (t : SessionType) (cs : List Command) (r : Result (Unit {0})) (ch : Channel)
    → run t cs (ended_with r ch) ≡ ended_with r ch
unfolding run call
ended_run t [] r ch = refl
ended_run t (c ∷ cs) r ch = ended_run t cs r ch

ended_call :
    (t : SessionType) (c : Command) (r : Result (Unit {0})) (ch : Channel)
    → call t c (ended_with r ch) ≡ (err session_stopped, ended_with r ch)
unfolding call
ended_call t c r ch = refl

close_call :
    (t : SessionType) (s : Session) (ch : Channel)
    → 1 ≤ ch.room
    → (ch' : Channel) × (call t close (record { task = running s; channel = ch })
        ≡ (ok unit, ended_with (ok tt) ch'))
unfolding call handle
close_call t s ch h = elim (Result-cases (emit ch (state_changed closed))) [
  | inl (ch', e) ↦ (ch', ground arith)
  | inr (x, e) ↦ absurd (refused x e)
]
  where
    refused : (x : Error) → emit ch (state_changed closed) ≡ err x → ⊥
    refused x e = unfold emit in ground arith

-- After an accepted `close` the task has returned `Ok(())`; whatever is called then fails with
-- "session stopped" and leaves the actor and its events as they are.
pub close_is_final :
    (t : SessionType) (s : Session) (ch : Channel) (cs : List Command) (c : Command)
    → 1 ≤ ch.room
    → let (a, sys) = call t close (record { task = running s; channel = ch }) in
      (a ≡ ok unit)
      × (sys.task ≡ ended (ok tt))
      × (run t cs sys ≡ sys)
      × (call t c (run t cs sys) ≡ (err session_stopped, sys))
close_is_final t s ch cs c h =
    let (ch', e) = close_call t s ch h in
    subst
      (λ ((a, sys) : Result Answer × System).
        (a ≡ ok unit)
        × (sys.task ≡ ended (ok tt))
        × (run t cs sys ≡ sys)
        × (call t c (run t cs sys) ≡ (err session_stopped, sys)))
      (sym e)
      (
        refl,
        refl,
        ended_run t cs (ok tt) ch',
        ap (call t c) (ended_run t cs (ok tt) ch') ∙ ended_call t c (ok tt) ch',
      )
