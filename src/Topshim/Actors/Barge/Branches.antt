-- ===== src/Topshim/Actors/Barge/Branches.antt =====
-- What the branches of the two biased `select!`s of src/topshim/actors.rs say of the channels that they
-- choose from.
use dorsche.Base.{ℕ, ◌≡◌, refl, Bool, true, false, List, [], ◌∷◌, Option, none, some}
use dorsche.Topshim.Actors.{Inbox, message, waiting, gone, EchoReference}
use dorsche.Topshim.Actors.Sink.{
  Start, Branch, on_shutdown, on_interrupt, on_command, on_tick, no_branch, tick_branch,
  command_branch, interrupt_branch, shutdown_branch,
}
use dorsche.Topshim.Actors.Vad.{
  Microphone, Heed, heeds_shutdown, heeds_echo, heeds_frame, heeds_nothing, frame_heed, echo_heed,
  shutdown_heed,
}
use dorsche.Topshim.Actors.Barge.{echo_inbox, interrupt_inbox, rest_of}

-- What a branch of the detector says of the echoes on their way to it.
abbrev pub Heeds : List EchoReference → Heed → Type 0
Heeds es (heeds_shutdown stop) = Unit
Heeds es (heeds_echo echo) = es ≡ echo ∷ rest_of es
Heeds es (heeds_frame frame) = es ≡ []
Heeds es heeds_nothing = Unit

pub heed-Heeds :
    (o : Option Bool) (es : List EchoReference) (m : Inbox Microphone)
    → Heeds es (shutdown_heed o (echo_heed (echo_inbox es) (frame_heed m)))
heed-Heeds (some stop) es m = tt
heed-Heeds none (e ∷ es) m = refl
heed-Heeds none [] (message frame) = refl
heed-Heeds none [] waiting = tt
heed-Heeds none [] gone = tt

-- What a branch of the sink says of its interrupt channel and its utterance.
abbrev pub Chosen : Option ℕ → Option Start → Branch → Type 0
Chosen p c (on_shutdown stop) = Unit
Chosen p c (on_interrupt i) = p ≡ some i
Chosen p c (on_command u) = p ≡ none
Chosen p c on_tick = (p ≡ none) × (u : Start) × (c ≡ some u)
Chosen p c no_branch = p ≡ none

pub branch-Chosen :
    (o : Option Bool) (p : Option ℕ) (m : Inbox Start) (t : Bool) (c : Option Start)
    → Chosen p c (
        shutdown_branch o
          (interrupt_branch (interrupt_inbox p) (command_branch m (tick_branch t c))))
branch-Chosen (some stop) p m t c = tt
branch-Chosen none (some i) m t c = refl
branch-Chosen none none (message u) t c = refl
branch-Chosen none none waiting true (some u) = (refl, u, refl)
branch-Chosen none none waiting true none = refl
branch-Chosen none none waiting false c = refl
branch-Chosen none none gone true (some u) = (refl, u, refl)
branch-Chosen none none gone true none = refl
branch-Chosen none none gone false c = refl
