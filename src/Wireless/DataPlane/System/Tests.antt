-- ===== src/Wireless/DataPlane/System/Tests.antt =====
-- A wait of the consumer of src/wireless/data_plane.rs, and the example of the theorem about it.
use dorsche.Base.{◌≡◌, refl, List, [], ◌∷◌, some, ok, pos, negsuc}
use dorsche.Wireless.DataPlane.System.{would_block, Wakeup, wait_readable, signal_eventfd}
use dorsche.Wireless.DataPlane.System.Wakeups.{Woken, wait_readable_iff}

abbrev two_rounds : List Wakeup
two_rounds =
    (record { readable = ok tt; read = negsuc 0; error = would_block })
    ∷ (record { readable = ok tt; read = pos 8; error = would_block })
    ∷ []

two_rounds-eq-ok : wait_readable two_rounds ≡ some (ok tt)
unfolding wait_readable
two_rounds-eq-ok = refl

saturated_signal : signal_eventfd (negsuc 0) would_block ≡ ok tt
unfolding signal_eventfd
saturated_signal = refl

two_rounds-Woken : Woken two_rounds
two_rounds-Woken = (wait_readable_iff two_rounds).0 two_rounds-eq-ok
