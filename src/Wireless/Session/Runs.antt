-- ===== src/Wireless/Session/Runs.antt =====
-- Induction over runs of the session actor: what each turn of the loop keeps holds after every
-- list of commands, with one predicate while the task runs and one for the events it leaves behind.
use dorsche.Base.{List, [], ◌∷◌}
use dorsche.Wireless.Types.Kinds.{SessionType}
use dorsche.Wireless.Session.{
  Command, Session, Channel, Turn, next, finish, fail, Task, running, ended, System, handle, settle,
  call, run,
}

module _ (P : Session → Channel → Type 0) (Q : Channel → Type 0) where
  abbrev pub TurnHolds : Turn → Type 0
  TurnHolds (next s ch r) = P s ch
  TurnHolds (finish ch r) = Q ch
  TurnHolds (fail e ch) = Q ch

  abbrev pub TaskHolds : Task → Channel → Type 0
  TaskHolds (running s) ch = P s ch
  TaskHolds (ended r) ch = Q ch

  settle_holds :
      (turn : Turn) → TurnHolds turn → TaskHolds (settle turn).1.task (settle turn).1.channel
  settle_holds (next s ch r) h = h
  settle_holds (finish ch r) h = h
  settle_holds (fail e ch) h = h

  module _ (t : SessionType)
      (keep : (c : Command) (s : Session) (ch : Channel)
        → P s ch
        → TurnHolds (handle t c s ch)) where
    call_of_task :
        (c : Command) (k : Task) (ch : Channel)
        → TaskHolds k ch
        → let (a, sys) = call t c (record { task = k; channel = ch }) in
          TaskHolds sys.task sys.channel
    unfolding call
    call_of_task c (running s) ch h = settle_holds (handle t c s ch) (keep c s ch h)
    call_of_task c (ended r) ch h = h

    pub run_holds :
        (cs : List Command) (sys : System)
        → TaskHolds sys.task sys.channel
        → TaskHolds (run t cs sys).task (run t cs sys).channel
    unfolding run
    run_holds [] sys h = h
    run_holds (c ∷ cs) sys h = run_holds cs (call t c sys).1 (call_of_task c sys.task sys.channel h)
