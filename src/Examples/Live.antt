-- ===== src/Examples/Live.antt =====
-- The monitor and the marker repair at concrete inputs.
use live_server.Common.{◌≡◌, refl, List, [], ◌∷◌}
use live_server.Live.HostStatus.{Pair, plan_marker_repair}

-- The stream of user 1 ended, and user 2 has no marker.
abbrev markers : List Pair
markers = record { user_id = 1; stream_id = 10 } ∷ []

abbrev live : List Pair
live = record { user_id = 2; stream_id = 20 } ∷ []

repair_run :
    (plan_marker_repair markers live (plan_marker_repair markers live []).suspects).del ≡ markers
unfolding plan_marker_repair
repair_run = refl
