-- ===== src/Wireless/DataPlane/Ring/Tests.antt =====
-- A run of the media ring, and the examples of the theorems about it.
use dorsche.Base.{
  ℕ, suc, ◌+◌, ◌%◌, ◌^◌, ◌<◌, ◌≡◌, ◌⊎◌, refl, inl, true, false, List, [], ◌∷◌, none, some, ok, err,
  arith, external,
}
use dorsche.Wireless.Types.Kinds.{pcm}
use dorsche.Wireless.Types.Frame
use dorsche.Wireless.Types.Frame.{FrameDescriptor}
use dorsche.Wireless.DataPlane.Queue
use dorsche.Wireless.DataPlane.Queue.{Queue}
use dorsche.Wireless.DataPlane.Ring.{
  Ring, fresh, sealed, try_reserve, write_payload, commit, try_push_copy, FrameLease, check_slot,
  try_acquire, release,
}
use dorsche.Wireless.DataPlane.Ring.Invariant.{IsValid, fresh-IsValid, contents, queued}
use dorsche.Wireless.DataPlane.Ring.Push.{view, try_push_copy_refines}
use dorsche.Wireless.DataPlane.Ring.Pop.{oldest, try_acquire_lem, release_lem}
use dorsche.Wireless.DataPlane.Ring.Traffic.{
  Step, send, poll, finish, sent, polled, finished, serve_all, promise_all, promise_of,
}
use dorsche.Wireless.DataPlane.Ring.Refinement.{link}
use dorsche.Wireless.DataPlane.Ring.Runs.{empty_promise, ring_is_queue}

abbrev frame : ℕ → FrameDescriptor
frame n = record (sealed (Frame.new pcm n) 0) { payload_bytes = 0 }

abbrev push_it : ℕ → List ℕ → Step
push_it n payload = send (ok tt) (frame n) payload

-- Three pushes into two slots while the first frame is held.
abbrev steps : List Step
steps =
    push_it 0 (7 ∷ 8 ∷ [])
    ∷ poll
    ∷ push_it 1 (9 ∷ [])
    ∷ push_it 2 (1 ∷ [])
    ∷ finish
    ∷ poll
    ∷ finish
    ∷ []

steps_run :
    (serve_all steps (link (fresh 2 4) none)).0
    ≡ sent (ok true)
      ∷ polled (ok (some (sealed (frame 0) 2, 7 ∷ 8 ∷ [])))
      ∷ sent (ok true)
      ∷ sent (ok false)
      ∷ finished (sealed (frame 0) 2, 7 ∷ 8 ∷ [])
      ∷ polled (ok (some (sealed (frame 1) 1, 9 ∷ [])))
      ∷ finished (sealed (frame 1) 1, 9 ∷ [])
      ∷ []
unfolding try_push_copy try_reserve write_payload commit check_slot try_acquire release Frame.new
steps_run = refl

ring_is_queue_example :
    let (want, p) = promise_all 2 4 steps empty_promise in
    let (got, k) = serve_all steps (link (fresh 2 4) none) in
    IsValid k.ring × (got ≡ want) × (promise_of k ≡ p)
ring_is_queue_example =
    ring_is_queue 2 4 steps (omega arith) (omega arith) (omega arith) (inl (omega arith))

fresh_two : IsValid (fresh 2 4)
fresh_two = (fresh-IsValid 2 4 (omega arith) (omega arith) (omega arith)).0

try_push_copy_refines_example :
    let (a, r') = try_push_copy (err (external 11)) (fresh 2 4) (frame 0) (7 ∷ []) in
    IsValid r'
    × ((a, view r') ≡ Queue.push 2 4 (err (external 11)) (view (fresh 2 4)) (frame 0) (7 ∷ []))
try_push_copy_refines_example =
    try_push_copy_refines (err (external 11)) (fresh 2 4) (frame 0) (7 ∷ []) fresh_two
      (inl (omega arith))

unfoldable one_frame : Ring
one_frame = (try_push_copy (ok tt) (fresh 2 4) (frame 0) (7 ∷ [])).1

one_frame-IsValid : IsValid one_frame
unfolding one_frame
one_frame-IsValid =
    (try_push_copy_refines (ok tt) (fresh 2 4) (frame 0) (7 ∷ []) fresh_two (inl (omega arith))).0

try_acquire_lem_example : try_acquire one_frame ≡ ok (oldest (contents one_frame) one_frame.tail)
try_acquire_lem_example = try_acquire_lem one_frame one_frame-IsValid

abbrev lease : FrameLease
lease = record { descriptor = sealed (frame 0) 1; bytes = 7 ∷ []; tail = 0 }

one_frame_acquired : try_acquire one_frame ≡ ok (some lease)
unfolding one_frame try_push_copy try_reserve write_payload commit check_slot try_acquire Frame.new
one_frame_acquired = refl

one_frame_lasts :
    (2 ^ 64 % one_frame.slot_count ≡ 0) ⊎ (one_frame.tail + queued one_frame + 0 < 2 ^ 64)
unfolding one_frame try_push_copy try_reserve write_payload commit
one_frame_lasts = inl refl

oldest_released :
    IsValid (release one_frame lease)
    × (contents one_frame ≡ (lease.descriptor, lease.bytes) ∷ contents (release one_frame lease))
    × (suc (queued (release one_frame lease)) ≡ queued one_frame)
oldest_released = release_lem one_frame lease one_frame-IsValid one_frame_lasts one_frame_acquired
