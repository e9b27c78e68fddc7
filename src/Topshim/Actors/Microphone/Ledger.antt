-- ===== src/Topshim/Actors/Microphone/Ledger.antt =====
-- Where the descriptors go that the capture task of src/topshim/actors.rs takes.
use dorsche.Base.{
  ℕ, ◌+◌, ◌≡◌, ◌≤◌, ◌⊎◌, inl, inr, refl, sym, subst, Bool, Bool-cases, true, false, List, [], ◌∷◌,
  ◌++◌, Option, none, some, Result, ok, err, ℤ, if◌then◌else◌, is_nonneg, arith,
}
use dorsche.Topshim.Frame.{HardwareFrame, SharedPcmFrame, Handover, from_cpp, valid_fd}
use dorsche.Topshim.Frame.Ledger.{Settled, from_cpp_settles}
use dorsche.Topshim.Actors.Microphone.{
  proxy_capture, Tick, MicEvent, stops, ticks, MicState, runs, hangs, ends, CaptureTask,
  new_microphone, after_result, after_handover, after_capture, mic_step, is_running, run_microphone,
}

abbrev one_if : Bool → ℕ
one_if b = if b then 1 else 0

module _ (p : ℤ → Bool) where
  abbrev pub count : List ℤ → ℕ
  count [] = 0
  count (fd ∷ fds) = one_if (p fd) + count fds

  -- The buffers of the frames that went downstream.
  abbrev pub downstream : List SharedPcmFrame → ℕ
  downstream [] = 0
  downstream (f ∷ fs) = one_if (p f.buffer) + downstream fs

  abbrev pub Balanced : CaptureTask → Type 0
  Balanced m = count m.taken ≡ count m.closed + downstream m.sent

  abbrev pub Failed : MicState → Type 0
  Failed (ends (err e)) = Unit
  Failed _ = ⊥

  -- Nothing is lost while no error has ended the task, and at most one descriptor ever.
  abbrev pub Keeps : CaptureTask → Type 0
  Keeps m =
      Balanced m
      ⊎ (Failed m.state
          × (count m.closed + downstream m.sent ≤ count m.taken)
          × (count m.taken ≤ count m.closed + downstream m.sent + 1))

  count-append : (xs ys : List ℤ) → count (xs ++ ys) ≡ count xs + count ys
  count-append [] ys = omega arith
  count-append (x ∷ xs) ys = omega (arith, count-append xs ys)

  count-valid_fd : (fd : ℤ) → count (valid_fd fd) ≤ 1
  count-valid_fd fd = elim (Bool-cases (is_nonneg fd)) [
    | inl valid ↦ rw valid (elim (Bool-cases (p fd)) [
      | inl counted ↦ rw counted (omega arith)
      | inr left_out ↦ rw left_out (omega arith)
    ])
    | inr missing ↦ rw missing (omega arith)
  ]

  result-Keeps :
      (is_sent : Bool) (raw : HardwareFrame) (h : Handover) (r : Result SharedPcmFrame)
      (m : CaptureTask)
      → Settled raw h r
      → Balanced m
      → Keeps (
          after_result is_sent r
            (record m { taken = h.taken ++ m.taken; closed = h.closed ++ m.closed }))
  result-Keeps true raw h (ok frame) m (_, t, c) b = inl (rw (t, c) (omega (arith, b)))
  result-Keeps false raw h (ok frame) m (_, t, c) b = inl (rw (t, c) (omega (arith, b)))
  result-Keeps is_sent raw h (err e) m (inl all) b =
      inl (rw all (omega (arith, b, count-append h.taken m.taken, count-append h.taken m.closed)))
  result-Keeps is_sent raw h (err e) m (inr (_, t, c)) b =
      let fence = count-append (valid_fd raw.fence_fd) m.taken in
      let one = count-valid_fd raw.fence_fd in
      inr (rw (t, c) (tt, omega (arith, b, fence, one), omega (arith, b, fence, one)))

  capture-Keeps :
      (t : Tick) (r : Result HardwareFrame) (m : CaptureTask)
      → Balanced m
      → Keeps (after_capture t r m)
  capture-Keeps t (err e) m b = inl b
  capture-Keeps t (ok raw) m b = handed_over (from_cpp t.kernel raw) refl
    where
      handed_over :
          (o : Option Handover) → from_cpp t.kernel raw ≡ o → Keeps (after_handover t.is_sent o m)
      handed_over none e = inl b
      handed_over (some h) e =
          result-Keeps t.is_sent raw h h.result m (from_cpp_settles t.kernel raw h e) b

  step-Keeps : (e : MicEvent) (m : CaptureTask) → Balanced m → Keeps (mic_step e m)
  unfolding mic_step
  step-Keeps (stops true) m b = inl b
  step-Keeps (stops false) m b = inl b
  step-Keeps (ticks t) m b = capture-Keeps t (proxy_capture t.captured) m b

  stopped :
      (es : List MicEvent) (m : CaptureTask) → is_running m.state ≡ false → run_microphone es m ≡ m
  unfolding run_microphone
  stopped [] m e = refl
  stopped (x ∷ es) m e = rw e refl

  Failed-ended : (state : MicState) → Failed state → is_running state ≡ false
  Failed-ended runs f = absurd f
  Failed-ended hangs f = absurd f
  Failed-ended (ends r) f = refl

  if_Keeps : (test : Bool) (m n : CaptureTask) → Keeps m → Keeps n → Keeps (if test then m else n)
  if_Keeps true m n x y = x
  if_Keeps false m n x y = y

  run-Keeps : (es : List MicEvent) (m : CaptureTask) → Keeps m → Keeps (run_microphone es m)
  unfolding run_microphone
  run-Keeps [] m k = k
  run-Keeps (e ∷ es) m (inl b) =
      if_Keeps (is_running m.state) _ m (run-Keeps es (mic_step e m) (step-Keeps e m b)) (inl b)
  run-Keeps (e ∷ es) m (inr lost) =
      subst Keeps (sym (stopped (e ∷ es) m (Failed-ended m.state lost.0))) (inr lost)

  -- Whatever the proxy, the kernel and the receiver do: of the descriptors of any kind that the task has
  -- taken from the C++ core, each is closed or is the buffer of a frame that went downstream, but
  -- for one at most, and that one only after an error that has ended the task. What a `from_cpp` that
  -- waits for its fence holds is not counted.
  pub run_microphone-Keeps : (es : List MicEvent) → Keeps (run_microphone es new_microphone)
  run_microphone-Keeps es = run-Keeps es new_microphone (inl refl)
