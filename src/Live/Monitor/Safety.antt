-- ===== src/Live/Monitor/Safety.antt =====
-- On `checkStream` of src/routes/service/serviceHeartbeat.js. Streams that the monitor leaves
-- alone.
use live_server.Common.{ℕ, ◌≡◌, ◌⊎◌, true, false, none, arith}
use live_server.Live.Presence.{heartbeat_verdict}
use live_server.Live.Monitor.{Config, Keys, Facts, leave, host_paused, check_stream}

-- A host who is in the LiveKit room keeps the stream, whatever their heartbeats and the start
-- grace say, if the video check is not enforced or finds no time without video.
pub present_host_kept :
    (c : Config) (f : Facts) (start now : ℕ) (k : Keys)
    → f.host_in_livekit ≡ true
    → (c.novideo_enforced ≡ false) ⊎ (f.no_video_ms ≡ none)
    → (check_stream c f start now k).1 ≡ leave
unfolding check_stream heartbeat_verdict
present_host_kept c f start now k h n = ground arith

-- A host who is on a video call or in the two-minute return grace keeps the stream.
pub paused_host_kept :
    (c : Config) (f : Facts) (start now : ℕ) (k : Keys)
    → f.host_in_livekit ≡ false
    → host_paused f ≡ true
    → (check_stream c f start now k).1 ≡ leave
unfolding check_stream heartbeat_verdict host_paused
paused_host_kept c f start now k h p = ground arith
