-- ===== src/Wireless/Session.antt =====
-- src/wireless/session.rs: the actor that owns a session's state, and the handle that sends it
-- commands. Commands reach the actor one at a time through its channel, so a run is a list of
-- commands. A reply channel is the `Reply` of a turn; a client sees it as the result of `call`.
-- The event receiver is part of the environment: it takes `room` more events and is then gone. A
-- full event channel only delays the actor, so waiting is not modelled.
pub mod Runs
pub mod Coherence
pub mod Transitions
pub mod Replay
pub mod Clock
pub mod Delivery
pub mod Tests
use dorsche.Base.{
  ℕ, zero, suc, ◌≡◌, Bool, true, false, not, List, [], ◌∷◌, ◌++◌, Option, none, some, Error, Result,
  ok, err, ◌>>=◌, ◌>>◌, ensure, if◌then◌else◌, leb, ◌==◌, session_stopped, reply_dropped,
  cannot_configure, no_configuration, cannot_start, cannot_suspend, cannot_stop,
  update_outside_streaming, clock_backwards, octets_backwards, offload_octets, consumer_stopped,
}
use dorsche.Wireless.Types.Kinds.{SessionType, carries_host_payload}
use dorsche.Wireless.Types.Audio.{AudioConfiguration, validate_for}
use dorsche.Wireless.Types.Frame.{PresentationPosition, default_position}

pub data SessionState : Type 0 where
  idle configured streaming suspended closed : SessionState

pub data SessionEvent : Type 0 where
  state_changed : SessionState → SessionEvent
  configuration_changed : AudioConfiguration → SessionEvent
  position_changed : PresentationPosition → SessionEvent

pub data Command : Type 0 where
  configure : AudioConfiguration → Command
  start suspend stop : Command
  update_position : PresentationPosition → Command
  get_position close : Command

-- The variables of the task.
pub record Session : Type 0 where
  pub state : SessionState
  pub configuration : Option AudioConfiguration
  pub position : PresentationPosition

abbrev pub initial : Session
initial = record { state = idle; configuration = none; position = default_position }

-- The event channel: what the receiver still takes, and what it has taken, oldest first.
pub record Channel : Type 0 where
  pub room : ℕ
  pub delivered : List SessionEvent

abbrev pub deliver : ℕ → List SessionEvent → SessionEvent → Result Channel
deliver zero log e = err consumer_stopped
deliver (suc n) log e = ok (record { room = n; delivered = log ++ (e ∷ []) })

unfoldable pub emit : Channel → SessionEvent → Result Channel
emit ch e = deliver ch.room ch.delivered e

pub data Reply : Type 0 where
  done : Result (Unit {0}) → Reply
  position_is : PresentationPosition → Reply
  acknowledged : Reply

-- How one pass of the `while let` loop ends: at the next `recv`, by the `break` of `Close`, or by
-- the `?` behind an `emit`, which ends the task and drops the reply.
pub data Turn : Type 0 where
  next : Session → Channel → Reply → Turn
  finish : Channel → Reply → Turn
  fail : Error → Channel → Turn

-- The `matches!` on the state.
abbrev pub can_configure : SessionState → Bool
can_configure idle = true
can_configure configured = true
can_configure suspended = true
can_configure _ = false

abbrev pub can_start : SessionState → Bool
can_start configured = true
can_start suspended = true
can_start _ = false

abbrev pub is_streaming : SessionState → Bool
is_streaming streaming = true
is_streaming _ = false

abbrev pub can_stop : SessionState → Bool
can_stop idle = false
can_stop closed = false
can_stop _ = true

abbrev pub is_none {ℓ} : {A : Type ℓ} → Option A → Bool
is_none none = true
is_none (some a) = false

-- Emits one event on success, then replies.
abbrev pub announce : Session → Channel → SessionEvent → Turn
announce s ch e = elim (emit ch e) [ ok ch' ↦ next s ch' (done (ok tt)) | err x ↦ fail x ch ]

-- Emits two.
abbrev pub announce_both : Session → Channel → SessionEvent → SessionEvent → Turn
announce_both s ch e f = elim (emit ch e) [ ok ch' ↦ announce s ch' f | err x ↦ fail x ch ]

-- The closure of `Command::Configure`.
unfoldable pub try_configure : SessionType → AudioConfiguration → Session → Result Session
try_configure t c s = do
  ensure (can_configure s.state) cannot_configure
  validate_for c t
  ok (record s { configuration = some c; state = configured })

-- The closure of `Command::UpdatePosition`.
unfoldable pub try_update : SessionType → PresentationPosition → Session → Result Session
try_update t p s = do
  ensure (is_streaming s.state) update_outside_streaming
  ensure (leb s.position.monotonic_time_ns p.monotonic_time_ns) clock_backwards
  if carries_host_payload t
      then ensure (leb s.position.transmitted_octets p.transmitted_octets) octets_backwards
      else ensure (p.transmitted_octets == 0) offload_octets
  ok (record s { position = p })

unfoldable pub handle : SessionType → Command → Session → Channel → Turn
handle t (configure c) s ch = elim (try_configure t c s) [
  | ok s' ↦ announce_both s' ch (configuration_changed c) (state_changed s'.state)
  | err e ↦ next s ch (done (err e))
]
handle t start s ch =
    if is_none s.configuration
    then next s ch (done (err no_configuration))
    else if not (can_start s.state)
    then next s ch (done (err cannot_start))
    else announce (record s { state = streaming }) ch (state_changed streaming)
handle t suspend s ch =
    if not (is_streaming s.state)
    then next s ch (done (err cannot_suspend))
    else announce (record s { state = suspended }) ch (state_changed suspended)
handle t stop s ch =
    if not (can_stop s.state)
    then next s ch (done (err cannot_stop))
    else announce initial ch (state_changed idle)
handle t (update_position p) s ch = elim (try_update t p s) [
  | ok s' ↦ announce s' ch (position_changed p)
  | err e ↦ next s ch (done (err e))
]
handle t get_position s ch = next s ch (position_is s.position)
handle t close s ch = elim (emit ch (state_changed closed)) [
  | ok ch' ↦ finish ch' acknowledged
  | err x ↦ fail x ch
]

-- The task, and what it has emitted. `ended` is a task that has returned its result.
pub data Task : Type 0 where
  running : Session → Task
  ended : Result (Unit {0}) → Task

pub record System : Type 0 where
  pub task : Task
  pub channel : Channel

-- `spawn_session`
abbrev pub spawn : ℕ → System
spawn room = record { task = running initial; channel = record { room = room; delivered = [] } }

pub data Answer : Type 0 where
  unit : Answer
  position : PresentationPosition → Answer

-- What the method of `SessionHandle` makes of a reply.
abbrev pub receive : Reply → Result Answer
receive (done (ok _)) = ok unit
receive (done (err e)) = err e
receive (position_is p) = ok (position p)
receive acknowledged = ok unit

abbrev pub settle : Turn → Result Answer × System
settle (next s ch r) = (receive r, record { task = running s; channel = ch })
settle (finish ch r) = (receive r, record { task = ended (ok tt); channel = ch })
settle (fail e ch) = (err reply_dropped, record { task = ended (err e); channel = ch })

-- A method of `SessionHandle`: it fails if the actor is gone, before or instead of its reply.
unfoldable pub call : SessionType → Command → System → Result Answer × System
call t c sys = elim sys.task [
  | running s ↦ settle (handle t c s sys.channel)
  | ended r ↦ (err session_stopped, sys)
]

unfoldable pub run : SessionType → List Command → System → System
run t [] sys = sys
run t (c ∷ cs) sys = run t cs (call t c sys).1
