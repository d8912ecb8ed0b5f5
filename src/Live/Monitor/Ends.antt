-- ===== src/Live/Monitor/Ends.antt =====
-- On `checkStream` of src/routes/service/serviceHeartbeat.js. Streams that the monitor ends.
use live_server.Common.{ℕ, ◌-◌, ◌≤◌, ◌<◌, ◌≡◌, ◌≢◌, true, false, some, arith}
use live_server.Live.Presence.{heartbeat_verdict}
use live_server.Live.Monitor.{
  Config, Keys, Facts, leave, end_stream, host_paused, check_stream, no_livekit_host,
}

-- The ghost sweep: with the sweep on, a stream past the LiveKit grace whose host is not in the room,
-- is not paused and was never confirmed to be there is ended as one without a host, at the first
-- tick, whatever its heartbeats say.
pub ghost_ended :
    (c : Config) (f : Facts) (start now : ℕ) (k : Keys)
    → c.ghost_sweep_enabled ≡ true
    → c.livekit_host_grace_ms ≤ now - start
    → f.host_in_livekit ≡ false
    → host_paused f ≡ false
    → k.host_confirmed ≡ false
    → check_stream c f start now k ≡ (k, end_stream no_livekit_host)
unfolding check_stream heartbeat_verdict host_paused
ghost_ended c f start now k g a h p n = ground arith

-- With Redis open, a host who is not in the room, is not paused, and whose last heartbeat is
-- longer ago than the timeout loses the stream at this tick, once the stream is past its start
-- grace, whether or not the sweep is on, the host was confirmed, and the absence cap is enforced.
pub silent_ended :
    (c : Config) (f : Facts) (start now since : ℕ) (k : Keys)
    → f.host_in_livekit ≡ false
    → host_paused f ≡ false
    → f.redis_open ≡ true
    → k.heartbeat ≡ some since
    → c.heartbeat_timeout_ms < now - since
    → c.heartbeat_start_grace_ms ≤ now - start
    → (check_stream c f start now k).1 ≢ leave
unfolding check_stream heartbeat_verdict host_paused
silent_ended c f start now since k h p r b s a = λ e. ground arith
