-- ===== src/Topshim/Actors/Proxy/Served.antt =====
-- How the controller proxy of src/topshim/actors.rs serves its two inboxes.
use dorsche.Base.{
  ◌≡◌, ◌≤◌, ◌+◌, refl, sym, ap, ◌∙◌, subst, inl, inr, Bool, true, false, Bool-cases, List, [], ◌∷◌,
  ◌++◌, append-nil, append_assoc, length-append, Option, none, some, length, ltb, if◌then◌else◌,
  arith,
}
use dorsche.Topshim.Actors.{shutdown_taken}
use dorsche.Topshim.Actors.Proxy.{
  PlaybackRequest, CaptureRequest, Controller, Entry, took_playback, took_capture, played, captured,
  Proxy, ProxyEvent, sends_playback, sends_capture, turn, capture_branch, playback_branch,
  stop_branch, proxy_step, run_proxy, new_proxy,
}

-- The playback requests that entered, and those that were played, in order.
abbrev pub playbacks_in : List Entry → List PlaybackRequest
playbacks_in [] = []
playbacks_in (took_playback r ∷ log) = playbacks_in log ++ (r ∷ [])
playbacks_in (_ ∷ log) = playbacks_in log

abbrev pub playbacks_out : List Entry → List PlaybackRequest
playbacks_out [] = []
playbacks_out (played r _ ∷ log) = playbacks_out log ++ (r ∷ [])
playbacks_out (_ ∷ log) = playbacks_out log

abbrev pub captures_in : List Entry → List CaptureRequest
captures_in [] = []
captures_in (took_capture r ∷ log) = captures_in log ++ (r ∷ [])
captures_in (_ ∷ log) = captures_in log

abbrev pub captures_out : List Entry → List CaptureRequest
captures_out [] = []
captures_out (captured r _ ∷ log) = captures_out log ++ (r ∷ [])
captures_out (_ ∷ log) = captures_out log

-- At each capture, all playback requests that had entered were played.
abbrev pub PlaybackFirst : List Entry → Type 0
PlaybackFirst [] = Unit
PlaybackFirst (captured _ _ ∷ log) = (playbacks_in log ≡ playbacks_out log) × PlaybackFirst log
PlaybackFirst (_ ∷ log) = PlaybackFirst log

pub record IsServed {C : Type 0} (p : Proxy C) : Type 0 where
  pub playbacks : playbacks_in p.log ≡ playbacks_out p.log ++ p.playback_rx
  pub captures : captures_in p.log ≡ captures_out p.log ++ p.capture_rx
  pub playback_room : length p.playback_rx ≤ 8
  pub capture_room : length p.capture_rx ≤ 2
  pub order : PlaybackFirst p.log

-- The first of a queue goes out.
out_first :
    {A : Type 0} (all gone rest : List A) (x : A)
    → all ≡ gone ++ (x ∷ rest)
    → all ≡ (gone ++ (x ∷ [])) ++ rest
out_first all gone rest x e = e ∙ sym (append_assoc gone (x ∷ []) rest)

-- Another one enters a queue.
in_last :
    {A : Type 0} (all gone queue : List A) (x : A)
    → all ≡ gone ++ queue
    → all ++ (x ∷ []) ≡ gone ++ (queue ++ (x ∷ []))
in_last all gone queue x e = ap (λ l. l ++ (x ∷ [])) e ∙ append_assoc gone queue (x ∷ [])

longer : {A : Type 0} (queue : List A) (x : A) → length (queue ++ (x ∷ [])) ≡ length queue + 1
longer queue x = length-append queue (x ∷ [])

if_IsServed :
    {C : Type 0} (test : Bool) (p q : Proxy C)
    → IsServed p
    → IsServed q
    → IsServed (if test then p else q)
if_IsServed true p q s t = s
if_IsServed false p q s t = t

module _ {C : Type 0} (k : Controller C) where
  capture-IsServed :
      (p : Proxy C) (queue : List CaptureRequest)
      → p.playback_rx ≡ []
      → p.capture_rx ≡ queue
      → IsServed p
      → IsServed (capture_branch k p queue)
  capture-IsServed p [] none_waits q s = s
  capture-IsServed p (r ∷ rest) none_waits q s =
      let all : captures_in p.log ≡ captures_out p.log ++ (r ∷ rest) =
        s.captures ∙ ap (λ l. captures_out p.log ++ l) q in
      let room = subst (λ l. length l ≤ 2) q s.capture_room in
      let settled : playbacks_in p.log ≡ playbacks_out p.log =
        s.playbacks
        ∙ ap (λ l. playbacks_out p.log ++ l) none_waits
        ∙ append-nil (playbacks_out p.log) in
      record {
        playbacks = s.playbacks;
        captures = out_first (captures_in p.log) (captures_out p.log) rest r all;
        playback_room = s.playback_room;
        capture_room = omega (arith, room);
        order = (settled, s.order);
      }

  playback-IsServed :
      (p : Proxy C) (queue : List PlaybackRequest)
      → p.playback_rx ≡ queue
      → IsServed p
      → IsServed (playback_branch k p queue)
  playback-IsServed p [] q s = capture-IsServed p p.capture_rx q refl s
  playback-IsServed p (r ∷ rest) q s =
      let all : playbacks_in p.log ≡ playbacks_out p.log ++ (r ∷ rest) =
        s.playbacks ∙ ap (λ l. playbacks_out p.log ++ l) q in
      let room = subst (λ l. length l ≤ 8) q s.playback_room in
      record {
        playbacks = out_first (playbacks_in p.log) (playbacks_out p.log) rest r all;
        captures = s.captures;
        playback_room = omega (arith, room);
        capture_room = s.capture_room;
        order = s.order;
      }

  shutdown-IsServed :
      (p later : Proxy C) (taken : Option Bool)
      → IsServed p
      → IsServed later
      → IsServed (stop_branch p taken later)
  shutdown-IsServed p later none s l = l
  shutdown-IsServed p later (some true) s l = record {
    playbacks = s.playbacks;
    captures = s.captures;
    playback_room = s.playback_room;
    capture_room = s.capture_room;
    order = s.order;
  }
  shutdown-IsServed p later (some false) s l = s

  step-IsServed : (p : Proxy C) (e : ProxyEvent) → IsServed p → IsServed (proxy_step k p e)
  unfolding proxy_step
  step-IsServed p (sends_playback r) s = elim (Bool-cases (ltb (length p.playback_rx) 8)) [
    | inr full ↦ rw full s
    | inl room ↦ rw room (record {
      playbacks = in_last (playbacks_in p.log) (playbacks_out p.log) p.playback_rx r s.playbacks;
      captures = s.captures;
      playback_room = ground (arith, room, longer p.playback_rx r);
      capture_room = s.capture_room;
      order = s.order;
    })
  ]
  step-IsServed p (sends_capture r) s = elim (Bool-cases (ltb (length p.capture_rx) 2)) [
    | inr full ↦ rw full s
    | inl room ↦ rw room (record {
      playbacks = s.playbacks;
      captures = in_last (captures_in p.log) (captures_out p.log) p.capture_rx r s.captures;
      playback_room = s.playback_room;
      capture_room = ground (arith, room, longer p.capture_rx r);
      order = s.order;
    })
  ]
  step-IsServed p (turn shutdown) s =
      shutdown-IsServed p _ (shutdown_taken shutdown) s (playback-IsServed p p.playback_rx refl s)

  runs-IsServed : (p : Proxy C) (es : List ProxyEvent) → IsServed p → IsServed (run_proxy k p es)
  unfolding run_proxy
  runs-IsServed p [] s = s
  runs-IsServed p (e ∷ es) s =
      if_IsServed p.ended p _ s (runs-IsServed (proxy_step k p e) es (step-IsServed p e s))

  -- In every sequence of requests and rounds, whatever the controller does: each playback request that
  -- enters is played once and in order or still waits, and so is each capture request; at most eight
  -- and two wait; and whenever a capture is served, no playback request waits.
  pub run_proxy-IsServed : (c : C) (es : List ProxyEvent) → IsServed (run_proxy k (new_proxy c) es)
  run_proxy-IsServed c es = runs-IsServed (new_proxy c) es (record {
    playbacks = refl;
    captures = refl;
    playback_room = omega arith;
    capture_room = omega arith;
    order = tt;
  })
