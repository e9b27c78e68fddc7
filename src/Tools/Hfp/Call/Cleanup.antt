-- ===== src/Tools/Hfp/Call/Cleanup.antt =====
-- When `main` of src/bin/floss_hfp_smoke.rs asks Floss to stop the call.
use dorsche.Base.{◌≡◌, Bool, true, false, List, [], ◌∷◌, any, Result, ok, err}
use dorsche.Tools.Hfp.Call.{Request, stop_sco_call}

abbrev pub is_stop : Request → Bool
is_stop stop_sco_call = true
is_stop r = false

-- The last request is a stop and no other is.
abbrev pub stops_once_last : List Request → Bool
stops_once_last [] = false
stops_once_last (r ∷ []) = is_stop r
stops_once_last (stop_sco_call ∷ r ∷ rest) = false
stops_once_last (q ∷ r ∷ rest) = stops_once_last (r ∷ rest)

-- Floss has accepted the StartScoCall of `main`.
abbrev pub is_accepted : Result Bool → Bool
is_accepted (ok b) = b
is_accepted (err x) = false

-- The log asks for one stop, at its end, if `b` holds, and for none otherwise.
abbrev Cleans : Bool → List Request → Type 0
Cleans b log = (stops_once_last log ≡ b) × (any is_stop log ≡ b)
