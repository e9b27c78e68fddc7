-- ===== src/Tools/LeAudio/Capture/Transparent.antt =====
-- What `capture_peer` of src/bin/floss_le_audio_smoke.rs captures.
use dorsche.Base.{
  ℕ, zero, suc, ◌*◌, ◌/◌, ◌%◌, ◌^◌, ◌≤◌, ◌<◌, ◌≡◌, inl, refl, sym, ap, ◌∙◌, subst, true, false,
  List, [], ◌∷◌, ◌++◌, Option, none, some, Error, Result, ok, err, ◌>>=◌, length, leb, leb_iff,
  arith,
}
use dorsche.Wireless.Types.Pcm.{PcmConfiguration, bytes_per_interval}
use dorsche.Wireless.Types.Frame.{FrameDescriptor}
use dorsche.Wireless.DataPlane.Layout.{Kernel, RingHeader, create}
use dorsche.Wireless.DataPlane.Ring.{
  Ring, FrameLease, fresh, sealed, write_payload, commit, try_acquire, release,
}
use dorsche.Wireless.DataPlane.Ring.Window.{length-window}
use dorsche.Wireless.DataPlane.Ring.Invariant.{
  queued, contents, blank, IsValid, Lasts, stored, contents-stored, stored-IsValid, fresh-IsValid,
}
use dorsche.Wireless.DataPlane.Ring.Push.{reserve_space, committed}
use dorsche.Wireless.DataPlane.Ring.Pop.{oldest, try_acquire_lem, release_lem}
use dorsche.Wireless.PipeWire.{pcm_descriptor}
use dorsche.Tools.LeAudio.Capture.{
  Interval, Caught, unwinds, stops, holds, after_write, after_acquire, after_commit, after_read,
  after_reserve, capture_interval, capture_loop, after_intervals, after_open, after_create,
  after_size, capture_peer,
}

-- What the capture should come to, without a ring: the reads one after the other, up to the first error.
abbrev pub collect : (ℕ → Interval) → ℕ → ℕ → List ℕ → Result (List ℕ)
collect env zero sequence file = ok file
collect env (suc n) sequence file = (env sequence).read >>= (λ pcm.
    (env sequence).signal
    >>= (λ _. (env sequence).written >>= (λ _. collect env n (suc sequence) (file ++ pcm))))

abbrev pub result_of : Caught → Option (Result (List ℕ))
result_of unwinds = none
result_of (stops e) = some (err e)
result_of (holds file r) = some (ok file)

-- `read_exact` fills the whole slice.
abbrev pub ReadsExactly : ℕ → (ℕ → Interval) → Type 0
ReadsExactly bytes env = (n : ℕ) (pcm : List ℕ) → (env n).read ≡ ok pcm → length pcm ≡ bytes

-- An empty ring of eight slots of this capacity.
record IsIdle (bytes : ℕ) (r : Ring) : Type 0 where
  pub valid : IsValid r
  pub eight : r.slot_count ≡ 8
  pub capacity : r.payload_capacity ≡ bytes
  pub nothing : contents r ≡ []

cons-inj : {A : Type 0} {x y : A} {xs ys : List A} → x ∷ xs ≡ y ∷ ys → xs ≡ ys
cons-inj e = cc

eight_divides : (n : ℕ) → n ≡ 8 → 2 ^ 64 % n ≡ 0
eight_divides n e = subst (λ m. 2 ^ 64 % m ≡ 0) (sym e) (omega arith)

module _ (c : PcmConfiguration) (bytes : ℕ) where
  idle_queued : (r : Ring) → IsIdle bytes r → queued r ≡ 0
  idle_queued r h =
      sym (length-window r.slots r.slot_count (blank r) r.tail (queued r)) ∙ ap length h.nothing

  -- The frame that was just published is the one that is acquired, and its end leaves the ring idle.
  acquired :
      (r : Ring) (d : FrameDescriptor) (pcm : List ℕ)
      → IsIdle bytes r
      → length pcm ≡ bytes
      → let l : FrameLease = record {
        descriptor = sealed d (length pcm);
        bytes = pcm;
        tail = r.tail;
      } in
        (try_acquire (stored r d pcm) ≡ ok (some l)) × IsIdle bytes (release (stored r d pcm) l)
  unfolding release
  acquired r d pcm h size =
      let l : FrameLease = record {
        descriptor = sealed d (length pcm);
        bytes = pcm;
        tail = r.tail;
      } in
      let r' = stored r d pcm in
      let lasts : Lasts r 0 = inl (eight_divides r.slot_count h.eight) in
      let space : queued r < r.slot_count = omega (arith, idle_queued r h, h.eight) in
      let small : length pcm ≤ r.payload_capacity = omega (arith, size, h.capacity) in
      let valid = stored-IsValid h.valid d pcm lasts space small in
      let only : contents r' ≡ (sealed d (length pcm), pcm) ∷ [] =
        contents-stored h.valid d pcm lasts space small
        ∙ ap (λ fs. fs ++ ((sealed d (length pcm), pcm) ∷ [])) h.nothing in
      let found : try_acquire r' ≡ ok (some l) =
        try_acquire_lem r' valid ∙ ap (λ fs. ok (oldest fs r.tail)) only in
      let (valid', all, fewer) =
        release_lem r' l valid (inl (eight_divides r.slot_count h.eight)) found in
      (
        found,
        record {
          valid = valid';
          eight = h.eight;
          capacity = h.capacity;
          nothing = cons-inj (sym all ∙ only);
        },
      )

  -- What follows is reached with what was captured, or with an error.
  record Follows (rest : Caught → Option (Result (List ℕ))) (file : List ℕ) (want : Result (List ℕ))
      : Type 0 where
    pub fails : (e : Error) → rest (stops e) ≡ some (err e)
    pub held : (r : Ring) → IsIdle bytes r → rest (holds file r) ≡ some want

  module _ (rest : Caught → Option (Result (List ℕ))) (want : Result (List ℕ)) (file pcm : List ℕ)
      (next : Follows rest (file ++ pcm) want) (r : Ring) (d : FrameDescriptor) (h : IsIdle bytes r)
      (size : length pcm ≡ bytes) where
    after_write-held :
        (w : Result (Unit {0}))
        → let l : FrameLease = record {
          descriptor = sealed d (length pcm);
          bytes = pcm;
          tail = r.tail;
        } in
          rest (after_write file (stored r d pcm) l w) ≡ some (w >>= (λ _. want))
    after_write-held (err e) = next.fails e
    after_write-held (ok done) = next.held _ (acquired r d pcm h size).1

    after_commit-held :
        (s w : Result (Unit {0}))
        → rest (after_commit file w (s, stored r d pcm)) ≡ some (s >>= (λ _. w >>= (λ _. want)))
    unfolding after_acquire
    after_commit-held (err e) w = next.fails e
    after_commit-held (ok done) w =
        ap (λ x. rest (after_acquire file (stored r d pcm) w x)) (acquired r d pcm h size).0
        ∙ after_write-held w

  after_read-held :
      (rest : Caught → Option (Result (List ℕ))) (want : List ℕ → Result (List ℕ)) (file : List ℕ)
      (i : Interval) (sequence : ℕ) (r : Ring) (a : Result (List ℕ))
      → IsIdle bytes r
      → ((pcm : List ℕ) → a ≡ ok pcm → length pcm ≡ bytes)
      → ((pcm : List ℕ) → Follows rest (file ++ pcm) (want pcm))
      → rest (after_read c bytes file i sequence r.head r a)
        ≡ some (a >>= (λ pcm. i.signal >>= (λ _. i.written >>= (λ _. want pcm))))
  unfolding after_read
  after_read-held rest want file i sequence r (err e) h exact next = (next []).fails e
  after_read-held rest want file i sequence r (ok pcm) h exact next =
      let d = pcm_descriptor c sequence i.now in
      let size = exact pcm refl in
      let small : length pcm ≤ r.payload_capacity = omega (arith, size, h.capacity) in
      ap
        (λ n.
          rest
            (after_commit file i.written (commit i.signal (write_payload r r.head pcm) r.head d n)))
        (sym size)
      ∙ ap (λ x. rest (after_commit file i.written x)) (committed i.signal r d pcm h.valid small)
      ∙ after_commit-held rest (want pcm) file pcm (next pcm) r d h size i.signal i.written

  capture_interval-held :
      (rest : Caught → Option (Result (List ℕ))) (want : List ℕ → Result (List ℕ)) (file : List ℕ)
      (i : Interval) (sequence : ℕ) (r : Ring)
      → IsIdle bytes r
      → ((pcm : List ℕ) → i.read ≡ ok pcm → length pcm ≡ bytes)
      → ((pcm : List ℕ) → Follows rest (file ++ pcm) (want pcm))
      → rest (capture_interval c bytes i sequence (holds file r))
        ≡ some (i.read >>= (λ pcm. i.signal >>= (λ _. i.written >>= (λ _. want pcm))))
  unfolding after_reserve
  capture_interval-held rest want file i sequence r h exact next =
      let space : queued r < r.slot_count = omega (arith, idle_queued r h, h.eight) in
      let inside : leb bytes r.payload_capacity ≡ true =
        (leb_iff bytes r.payload_capacity).1 (omega (arith, h.capacity)) in
      ap (λ x. rest (after_reserve c bytes file i sequence x)) (reserve_space r space)
      ∙ rw inside (after_read-held rest want file i sequence r i.read h exact next)

  stops-capture_loop :
      (env : ℕ → Interval) (n sequence : ℕ) (e : Error)
      → result_of (capture_loop c bytes env n sequence (stops e)) ≡ some (err e)
  stops-capture_loop env zero sequence e = refl
  stops-capture_loop env (suc n) sequence e = stops-capture_loop env n (suc sequence) e

  capture_loop-collect :
      (env : ℕ → Interval)
      → ReadsExactly bytes env
      → (n sequence : ℕ) (file : List ℕ) (r : Ring) → IsIdle bytes r
      → result_of (capture_loop c bytes env n sequence (holds file r))
        ≡ some (collect env n sequence file)
  capture_loop-collect env exact zero sequence file r h = refl
  capture_loop-collect env exact (suc n) sequence file r h =
      capture_interval-held (λ s. result_of (capture_loop c bytes env n (suc sequence) s))
        (λ pcm. collect env n (suc sequence) (file ++ pcm)) file (env sequence) sequence r h
        (λ pcm e. exact sequence pcm e)
        (λ pcm. record {
          fails = λ e. stops-capture_loop env n (suc sequence) e;
          held = λ r' h'. capture_loop-collect env exact n (suc sequence) (file ++ pcm) r' h';
        })

after_intervals-result :
    (c : PcmConfiguration) (bytes total : ℕ) (s : Caught)
    → total < 2 ^ 64
    → result_of (after_intervals c bytes total s) ≡ result_of s
after_intervals-result c bytes total unwinds h = refl
after_intervals-result c bytes total (stops e) h = refl
after_intervals-result c bytes total (holds file r) h =
    let fits : leb (2 ^ 64) total ≡ false = ground arith in rw fits refl

open-collect :
    (c : PcmConfiguration) (bytes : ℕ) (env : ℕ → Interval) (intervals : ℕ)
    (opened : Result (Unit {0}))
    → intervals * bytes < 2 ^ 64
    → ReadsExactly bytes env
    → IsIdle bytes (fresh 8 (bytes % 2 ^ 32))
    → result_of (after_open c bytes env intervals opened)
      ≡ some (opened >>= (λ _. collect env intervals 0 []))
open-collect c bytes env intervals (err e) total exact idle = refl
open-collect c bytes env intervals (ok done) total exact idle =
    after_intervals-result c bytes (intervals * bytes) _ total
    ∙ capture_loop-collect c bytes env exact intervals 0 [] (fresh 8 (bytes % 2 ^ 32)) idle

-- With a size below 2^32, a ring that can be made, and two products that fit 64 bits, `capture_peer` never
-- panics, never finds its ring full or its frame missing: it fails if its file cannot be created, and else
-- captures just what the socket gives in all its intervals, in order and each once, up to the first
-- error of the socket, the wakeup or the file. A read that succeeds fills an interval.
pub capture_peer-collect :
    (k : Kernel) (c : PcmConfiguration) (env : ℕ → Interval) (opened : Result (Unit {0}))
    (seconds bytes : ℕ) (made : RingHeader × ℕ)
    → bytes_per_interval c ≡ ok bytes
    → bytes < 2 ^ 32
    → seconds * 1_000_000 < 2 ^ 64
    → seconds * 1_000_000 / c.data_interval_us * bytes < 2 ^ 64
    → create k 8 (bytes % 2 ^ 32) ≡ ok made
    → ReadsExactly bytes env
    → result_of (capture_peer k c env opened seconds)
      ≡ some (opened >>= (λ _. collect env (seconds * 1_000_000 / c.data_interval_us) 0 []))
unfolding capture_peer after_size after_create
capture_peer-collect k c env opened seconds bytes made sized small short total ring exact =
    let intervals = seconds * 1_000_000 / c.data_interval_us in
    let fits : leb (2 ^ 64) (seconds * 1_000_000) ≡ false = ground arith in
    ap (λ x. result_of (after_size k c env opened seconds x)) sized
    ∙ rw fits (
        ap (λ x. result_of (after_create c bytes env intervals opened x)) ring
        ∙ open-collect c bytes env intervals opened total exact idle)
  where
    fresh_lem : IsValid (fresh 8 (bytes % 2 ^ 32)) × (contents (fresh 8 (bytes % 2 ^ 32)) ≡ [])
    fresh_lem = fresh-IsValid 8 (bytes % 2 ^ 32) (omega arith) (omega arith) (omega arith)

    idle : IsIdle bytes (fresh 8 (bytes % 2 ^ 32))
    idle = record {
      valid = fresh_lem.0;
      eight = refl;
      capacity = omega arith;
      nothing = fresh_lem.1;
    }
