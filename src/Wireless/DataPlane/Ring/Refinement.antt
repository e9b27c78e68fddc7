-- ===== src/Wireless/DataPlane/Ring/Refinement.antt =====
-- The two endpoints keep the promise of the bounded queue.
use dorsche.Base.{
  inl, inr, ℕ, suc, ◌≡◌, refl, sym, ap, ap₂, ◌∙◌, subst, List, [], ◌∷◌, ◌++◌, Bool, true, false,
  Option, none, some, Result, ok, length, arith, leb, Bool-cases,
}
use dorsche.Wireless.Types.Frame.{FrameDescriptor}
use dorsche.Wireless.DataPlane.Queue
use dorsche.Wireless.DataPlane.Queue.{Queue}
use dorsche.Wireless.DataPlane.Ring.{Ring, FrameLease, try_push_copy, try_acquire, release}
use dorsche.Wireless.DataPlane.Ring.Window.{Frame}
use dorsche.Wireless.DataPlane.Ring.Invariant.{contents, IsValid, Lasts}
use dorsche.Wireless.DataPlane.Ring.Push.{view, try_push_copy_refines, push-Lasts}
use dorsche.Wireless.DataPlane.Ring.Pop.{
  oldest, leased, try_acquire_lem, release_lem, release-Lasts,
}
use dorsche.Wireless.DataPlane.Ring.Traffic.{
  send, poll, finish, Report, Link, Promise, payload_now, polled_by, serve, shown, is_shown, taken,
  promise, holds_one, promise_of, sent, polled, finished,
}

-- A lease that is held is the one on the oldest frame.
abbrev pub Holds : Ring → Option FrameLease → Type 0
Holds r none = Unit
Holds r (some l) = try_acquire r ≡ ok (some l)

pub record IsSound (count capacity n : ℕ) (k : Link) : Type 0 where
  pub ring_IsValid : IsValid k.ring
  pub lasts : Lasts k.ring n
  pub held_oldest : Holds k.ring k.held
  pub same_count : k.ring.slot_count ≡ count
  pub same_capacity : k.ring.payload_capacity ≡ capacity

abbrev pub link : Ring → Option FrameLease → Link
link r held = record { ring = r; held = held }

abbrev pub Keeps : ℕ → ℕ → ℕ → Report × Promise → Report × Link → Type 0
Keeps count capacity n (want, p) (got, k) =
    IsSound count capacity n k × (got ≡ want) × (promise_of k ≡ p)

Lasts-0 : (r : Ring) (n : ℕ) → Lasts r n → Lasts r 0
Lasts-0 r n (inl whole) = inl whole
Lasts-0 r n (inr short) = inr (omega (arith, short))

oldest-append :
    (fs gs : List Frame) (t : ℕ) {l : FrameLease}
    → oldest fs t ≡ some l
    → oldest (fs ++ gs) t ≡ some l
oldest-append [] gs t h = cc
oldest-append (f ∷ fs) gs t h = h

-- A push leaves the oldest frame where it is.
push-oldest :
    (count capacity : ℕ) (signal : Result (Unit {0})) (q : Queue) (d : FrameDescriptor)
    (payload : List ℕ) (t : ℕ) {l : FrameLease}
    → oldest q.frames t ≡ some l
    → oldest (Queue.push count capacity signal q d payload).1.frames t ≡ some l
unfolding Queue.push
push-oldest count capacity signal q d payload t h =
    elim (Bool-cases (leb count (length q.frames))) [
      | inl e ↦ rw e h
      | inr e ↦ elim (Bool-cases (leb (length payload) capacity)) [
        | inl e' ↦ rw (e, e') (oldest-append q.frames _ t h)
        | inr e' ↦ rw (e, e') h
      ]
    ]

some_injective : {l m : FrameLease} → some l ≡ some m → l ≡ m
some_injective h = cc

ok_injective : {a b : Option FrameLease} → ok a ≡ ok b → a ≡ b
ok_injective h = cc

pop_cons :
    (q : Queue) (f : Frame) (rest : List Frame)
    → q.frames ≡ f ∷ rest
    → Queue.pop q ≡ (some f, record q { frames = rest })
unfolding Queue.pop
pop_cons q f rest e = rw e refl

module _ (count capacity n : ℕ) where
  pub held_after_send :
      (signal : Result (Unit {0})) (d : FrameDescriptor) (payload : List ℕ) (r : Ring)
      (held : Option FrameLease)
      → IsValid r
      → Lasts r 0
      → Holds r held
      → Lasts r (suc n)
      → Holds (try_push_copy signal r d payload).1 held
  held_after_send signal d payload r none v lasts h more = tt
  held_after_send signal d payload r (some l) v lasts h more =
      let r' = (try_push_copy signal r d payload).1 in
      let (v', e) = try_push_copy_refines signal r d payload v lasts in
      let (later, t, c, c') = push-Lasts signal r d payload n v more in
      let before : oldest (contents r) r.tail ≡ some l =
        ok_injective (sym (try_acquire_lem r v) ∙ h) in
      let after : oldest (contents r') r'.tail ≡ some l =
        ap (λ (x : Result Bool × Queue). oldest x.1.frames r'.tail) e
        ∙ ap (oldest _) t
        ∙ push-oldest r.slot_count r.payload_capacity signal (view r) d payload r.tail before in
      try_acquire_lem r' v' ∙ ap ok after

  pub send-Keeps :
      (signal : Result (Unit {0})) (d : FrameDescriptor) (payload : List ℕ) (k : Link)
      → IsSound count capacity (suc n) k
      → Keeps count capacity n
          (promise count capacity (send signal d payload) (promise_of k))
          (serve (send signal d payload) k)
  send-Keeps signal d payload k s =
      let r = k.ring in
      let now : Lasts r 0 = Lasts-0 r (suc n) s.lasts in
      let (v', e) = try_push_copy_refines signal r d payload s.ring_IsValid now in
      let (later, t, c, c') = push-Lasts signal r d payload n s.ring_IsValid s.lasts in
      let e' =
        e ∙ ap₂ (λ i j. Queue.push i j signal (view r) d payload) s.same_count s.same_capacity in
      (
        record {
          ring_IsValid = v';
          lasts = later;
          held_oldest =
              held_after_send signal d payload r k.held s.ring_IsValid now s.held_oldest s.lasts;
          same_count = c ∙ s.same_count;
          same_capacity = c' ∙ s.same_capacity;
        },
        ap (λ (x : Result Bool × Queue). sent x.0) e',
        ap (λ (x : Result Bool × Queue). record { queue = x.1; is_held = holds_one k.held }) e',
      )

  acquired :
      (r : Ring) {fs : List Frame}
      → contents r ≡ fs
      → IsValid r
      → try_acquire r ≡ ok (oldest fs r.tail)
  acquired r e v = try_acquire_lem r v ∙ ap (λ fs. ok (oldest fs r.tail)) e

  poll_free :
      (r : Ring) (fs : List Frame)
      → contents r ≡ fs
      → IsSound count capacity n (record { ring = r; held = none })
      → Keeps count capacity n
          (polled (ok (shown fs)), record { queue = view r; is_held = is_shown fs })
          (polled_by r (try_acquire r))
  poll_free r [] e s =
      subst
        (λ x.
          Keeps count capacity n (polled (ok none), record { queue = view r; is_held = false })
            (polled_by r x))
        (sym (acquired r e s.ring_IsValid)) (s, refl, refl)
  poll_free r ((d, bytes) ∷ rest) e s =
      subst
        (λ x.
          Keeps count capacity n
            (polled (ok (some (d, bytes))), record { queue = view r; is_held = true })
            (polled_by r x))
        (sym (acquired r e s.ring_IsValid))
        (
          record {
            ring_IsValid = s.ring_IsValid;
            lasts = s.lasts;
            held_oldest = acquired r e s.ring_IsValid;
            same_count = s.same_count;
            same_capacity = s.same_capacity;
          },
          refl,
          refl,
        )

  pub poll-Keeps :
      (r : Ring) (held : Option FrameLease)
      → IsSound count capacity n (link r held)
      → Keeps count capacity n
          (promise count capacity poll (promise_of (link r held)))
          (serve poll (link r held))
  poll-Keeps r none s = poll_free r (contents r) refl s
  poll-Keeps r (some l) s = (s, refl, refl)

  pub finish-Keeps :
      (r : Ring) (held : Option FrameLease)
      → IsSound count capacity n (link r held)
      → Keeps count capacity n
          (promise count capacity finish (promise_of (link r held)))
          (serve finish (link r held))
  unfolding release
  finish-Keeps r none s = (s, refl, refl)
  finish-Keeps r (some l) s =
      let (v', c, q) = release_lem r l s.ring_IsValid (Lasts-0 r n s.lasts) s.held_oldest in
      let (other, same) = leased r l s.held_oldest in
      let now : payload_now r l ≡ (l.descriptor, l.bytes) =
        ap (payload_now r) same ∙ sym (ap (λ (x : FrameLease). (x.descriptor, x.bytes)) same) in
      let popped = pop_cons (view r) (l.descriptor, l.bytes) (contents (release r l)) c in
      (
        record {
          ring_IsValid = v';
          lasts = release-Lasts r l n s.ring_IsValid s.lasts s.held_oldest;
          held_oldest = tt;
          same_count = s.same_count;
          same_capacity = s.same_capacity;
        },
        ap finished now ∙ sym (ap (λ x. (taken (promise_of (link r (some l))) x).0) popped),
        sym (ap (λ x. (taken (promise_of (link r (some l))) x).1) popped),
      )
