-- ===== src/Live/Presence/Verdicts.antt =====
-- On src/routes/service/heartbeatPolicy.js. When the verdict is to end.
use live_server.Common.{◌≤◌, ◌<◌, ◌≡◌, ◌↔◌, false, arith}
use live_server.Live.Presence.{end, Signs, since_last_ping, heartbeat_verdict}

-- A stream is to be ended exactly if it is past its start grace, its host has been silent for longer
-- than the timeout, is not in the LiveKit room, and is neither on a call nor in the return grace.
pub heartbeat_verdict-end :
    (s : Signs)
    → (heartbeat_verdict s ≡ end) ↔ (
        (s.start_grace_ms ≤ s.age_ms)
        × (s.timeout_ms < since_last_ping s)
        × (s.host_in_livekit ≡ false)
        × (s.is_paused ≡ false))
unfolding heartbeat_verdict
heartbeat_verdict-end s = (λ e. ground arith, λ h. ground arith)
