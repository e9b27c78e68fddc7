-- ===== src/Wireless/DataPlane/Queue.antt =====
-- What the media ring promises its two endpoints: a bounded first-in first-out queue of frames that
-- counts the frames it had to drop.
use dorsche.Base.{
  ℕ, ◌+◌, Bool, true, false, List, [], ◌∷◌, ◌++◌, Option, none, some, Result, ok, err, ◌>>◌, length,
  leb, if◌then◌else◌, payload_too_large,
}
use dorsche.Wireless.Types.Frame.{FrameDescriptor}
use dorsche.Wireless.DataPlane.Ring.{sealed, u64}
use dorsche.Wireless.DataPlane.Ring.Window.{Frame}

pub record Queue : Type 0 where
  pub frames : List Frame
  pub dropped : ℕ

-- A push on a full queue drops the frame and counts it; a payload over the capacity is refused.
-- `signal` is the answer of the wakeup.
unfoldable pub push :
    ℕ → ℕ → Result (Unit {0}) → Queue → FrameDescriptor → List ℕ → Result Bool × Queue
push count capacity signal q d payload =
    if leb count (length q.frames)
    then (ok false, record q { dropped = u64 (q.dropped + 1) })
    else if leb (length payload) capacity
    then (
      signal >> ok true,
      record q { frames = q.frames ++ ((sealed d (length payload), payload) ∷ []) },
    )
    else (err payload_too_large, q)

unfoldable pub pop : Queue → Option Frame × Queue
pop q = elim q.frames [ [] ↦ (none, q) | f ∷ rest ↦ (some f, record q { frames = rest }) ]
