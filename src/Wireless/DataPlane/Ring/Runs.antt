-- ===== src/Wireless/DataPlane/Ring/Runs.antt =====
-- Whole runs of the two endpoints of the media ring.
use dorsche.Base.{
  ℕ, suc, ◌^◌, ◌%◌, ◌≤◌, ◌<◌, ◌≡◌, ◌⊎◌, inl, inr, refl, ap, ap₂, ◌∙◌, List, [], ◌∷◌, arith, none,
  false,
}
use dorsche.Wireless.DataPlane.Ring.{fresh}
use dorsche.Wireless.DataPlane.Ring.Invariant.{IsValid, fresh-IsValid}
use dorsche.Wireless.DataPlane.Ring.Traffic.{
  Step, send, poll, finish, Report, Link, Promise, serve, serve_all, promise, promise_all,
  promise_of,
}
use dorsche.Wireless.DataPlane.Ring.Refinement.{
  IsSound, Keeps, link, send-Keeps, poll-Keeps, finish-Keeps,
}

abbrev pub sends : List Step → ℕ
sends [] = 0
sends (send signal d payload ∷ ss) = suc (sends ss)
sends (poll ∷ ss) = sends ss
sends (finish ∷ ss) = sends ss

module _ (count capacity : ℕ) where
  Kept : List Report × Promise → List Report × Link → Type 0
  Kept (want, p) (got, k) = IsValid k.ring × (got ≡ want) × (promise_of k ≡ p)

  abbrev Goes : List Step → Link → Type 0
  Goes ss k =
      let (want, p) = promise_all count capacity ss (promise_of k) in
      let (got, k') = serve_all ss k in IsValid k'.ring × (got ≡ want) × (promise_of k' ≡ p)

  Goes-on :
      (s : Step) (ss : List Step) (n : ℕ) (k : Link)
      → Keeps count capacity n (promise count capacity s (promise_of k)) (serve s k)
      → Goes ss (serve s k).1
      → Goes (s ∷ ss) k
  Goes-on s ss n k (sound, same, as_promised) (v, reports, last) =
      let then = promise_all count capacity ss in
      (
        v,
        ap₂ (λ r rest. r ∷ rest) same (reports ∙ ap (λ p. (then p).0) as_promised),
        last ∙ ap (λ p. (then p).1) as_promised,
      )

  goes : (ss : List Step) (k : Link) → IsSound count capacity (sends ss) k → Goes ss k
  goes [] k s = (s.ring_IsValid, refl, refl)
  goes (send signal d payload ∷ ss) k s =
      let kept = send-Keeps count capacity (sends ss) signal d payload k s in
      Goes-on (send signal d payload) ss (sends ss) k kept (goes ss _ kept.0)
  goes (poll ∷ ss) k s =
      let kept = poll-Keeps count capacity (sends ss) k.ring k.held s in
      Goes-on poll ss (sends ss) k kept (goes ss _ kept.0)
  goes (finish ∷ ss) k s =
      let kept = finish-Keeps count capacity (sends ss) k.ring k.held s in
      Goes-on finish ss (sends ss) k kept (goes ss _ kept.0)

abbrev pub empty_promise : Promise
empty_promise = record { queue = record { frames = []; dropped = 0 }; is_held = false }

-- On a fresh ring of `count` slots, any sequence of pushes, acquisitions and ends of leases, with
-- pushes while a lease is held, answers as the bounded queue of `count` frames does: the consumer
-- gets exactly the accepted frames, in order and each once, and what it reads at the end of a lease
-- is what was pushed; the ring stays valid. Either `count` divides 2^64 or fewer than 2^64 frames are
-- pushed.
pub ring_is_queue :
    (count capacity : ℕ) (ss : List Step)
    → 2 ≤ count
    → count < 2 ^ 32
    → capacity < 2 ^ 32
    → (2 ^ 64 % count ≡ 0) ⊎ (sends ss < 2 ^ 64)
    → let (want, p) = promise_all count capacity ss empty_promise in
      let (got, k) = serve_all ss (link (fresh count capacity) none) in
      IsValid k.ring × (got ≡ want) × (promise_of k ≡ p)
ring_is_queue count capacity ss low high small lasts =
    goes count capacity ss (link (fresh count capacity) none) (record {
      ring_IsValid = (fresh-IsValid count capacity low high small).0;
      lasts = elim lasts [ inl whole ↦ inl whole | inr short ↦ inr (omega (arith, short)) ];
      held_oldest = tt;
      same_count = refl;
      same_capacity = refl;
    })
