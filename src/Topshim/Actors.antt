-- ===== src/Topshim/Actors.antt =====
-- src/topshim/actors.rs: what the actors share. A round of a `select!` is a function of what is ready
-- in it; the address of a shared block of samples (`Arc<[f32]>`) is a number. `Proxy` owns the controller,
-- `Microphone` captures.
pub mod Sink
pub mod Vad
pub mod Proxy
pub mod Microphone
pub mod Barge
use dorsche.Base.{
  ℕ, Bool, true, false, List, Option, none, some, Result, ok, err, proxy_stopped,
  playback_reply_dropped,
}

-- What `recv` gives in a round: a message, nothing yet, or the end of a channel without senders.
pub data Inbox (A : Type 0) : Type 0 where
  message : A → Inbox A
  waiting gone : Inbox A

-- What `shutdown.changed()` gives in a round, with the value that `borrow` then reads.
pub data Shutdown : Type 0 where
  unchanged : Shutdown
  changed : Bool → Shutdown
  sender_gone : Shutdown

-- `changed.is_err() || *shutdown.borrow()`, if the branch is taken at all.
abbrev pub shutdown_taken : Shutdown → Option Bool
shutdown_taken unchanged = none
shutdown_taken (changed stop) = some stop
shutdown_taken sender_gone = some true

pub record PlaybackReceipt : Type 0 where
  pub sequence : ℕ
  pub presentation_time_ns : ℕ

pub record EchoReference : Type 0 where
  pub pcm : ℕ
  pub playback_sequence : ℕ
  pub presentation_time_ns : ℕ

-- What becomes of a request to the controller proxy: it is taken from the channel, and answered.
pub record Service : Type 0 where
  pub is_taken : Bool
  pub reply : Option PlaybackReceipt

-- `ProxyHandle::play`
unfoldable pub play : Service → Result PlaybackReceipt
play a = elim a.is_taken [ false ↦ err proxy_stopped | true ↦ answer a.reply ]
  where
    answer : Option PlaybackReceipt → Result PlaybackReceipt
    answer none = err playback_reply_dropped
    answer (some receipt) = ok receipt
