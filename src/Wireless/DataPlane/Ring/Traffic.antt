-- ===== src/Wireless/DataPlane/Ring/Traffic.antt =====
-- The two endpoints of the media ring at work on one mapping. The consumer may hold a lease while the
-- producer pushes: its borrow allows one at a time.
use dorsche.Base.{ℕ, List, [], ◌∷◌, Bool, true, false, Option, none, some, Result, ok, err, take}
use dorsche.Wireless.Types.Frame.{FrameDescriptor}
use dorsche.Wireless.DataPlane.Queue
use dorsche.Wireless.DataPlane.Queue.{Queue}
use dorsche.Wireless.DataPlane.Ring.{Ring, FrameLease, slot_at, try_push_copy, try_acquire, release}
use dorsche.Wireless.DataPlane.Ring.Window.{Frame}
use dorsche.Wireless.DataPlane.Ring.Push.{view}

pub data Step : Type 0 where
  -- `try_push_copy`, and what the wakeup answers
  send : Result (Unit {0}) → FrameDescriptor → List ℕ → Step
  -- `try_acquire`
  poll : Step
  -- `payload()`, and the end of the lease
  finish : Step

pub data Report : Type 0 where
  sent : Result Bool → Report
  polled : Result (Option Frame) → Report
  finished : Frame → Report
  -- a step that the borrow rules out
  idle : Report

pub record Link : Type 0 where
  pub ring : Ring
  pub held : Option FrameLease

-- What the holder of a lease reads when it looks at the mapping now.
abbrev pub payload_now : Ring → FrameLease → Frame
payload_now r l = (l.descriptor, take l.descriptor.payload_bytes (slot_at r l.tail).payload)

abbrev pub polled_by : Ring → Result (Option FrameLease) → Report × Link
polled_by r (ok (some l)) =
    (polled (ok (some (l.descriptor, l.bytes))), record { ring = r; held = some l })
polled_by r (ok none) = (polled (ok none), record { ring = r; held = none })
polled_by r (err e) = (polled (err e), record { ring = r; held = none })

abbrev pub serve : Step → Link → Report × Link
serve (send signal d payload) k =
    let (a, r') = try_push_copy signal k.ring d payload in (sent a, record k { ring = r' })
serve poll k = elim k.held [ none ↦ polled_by k.ring (try_acquire k.ring) | some l ↦ (idle, k) ]
serve finish k = elim k.held [
  | none ↦ (idle, k)
  | some l ↦ (finished (payload_now k.ring l), record { ring = release k.ring l; held = none })
]

abbrev pub serve_all : List Step → Link → List Report × Link
serve_all [] k = ([], k)
serve_all (s ∷ ss) k =
    let (a, k') = serve s k in let (later, k'') = serve_all ss k' in (a ∷ later, k'')

-- The same steps on the queue. A poll shows the oldest frame, the end of the lease takes it away.
pub record Promise : Type 0 where
  pub queue : Queue
  pub is_held : Bool

abbrev pub shown : List Frame → Option Frame
shown [] = none
shown (f ∷ rest) = some f

abbrev pub is_shown : List Frame → Bool
is_shown [] = false
is_shown (f ∷ rest) = true

abbrev pub taken : Promise → Option Frame × Queue → Report × Promise
taken p (some f, q) = (finished f, record { queue = q; is_held = false })
taken p (none, q) = (idle, p)

module _ (count capacity : ℕ) where
  abbrev pub promise : Step → Promise → Report × Promise
  promise (send signal d payload) p =
      let (a, q) = Queue.push count capacity signal p.queue d payload in
      (sent a, record p { queue = q })
  promise poll p = elim p.is_held [
    | false ↦ (polled (ok (shown p.queue.frames)), record p { is_held = is_shown p.queue.frames })
    | true ↦ (idle, p)
  ]
  promise finish p = elim p.is_held [ false ↦ (idle, p) | true ↦ taken p (Queue.pop p.queue) ]

  abbrev pub promise_all : List Step → Promise → List Report × Promise
  promise_all [] p = ([], p)
  promise_all (s ∷ ss) p =
      let (a, p') = promise s p in let (later, p'') = promise_all ss p' in (a ∷ later, p'')

abbrev pub holds_one : Option FrameLease → Bool
holds_one none = false
holds_one (some l) = true

abbrev pub promise_of : Link → Promise
promise_of k = record { queue = view k.ring; is_held = holds_one k.held }
