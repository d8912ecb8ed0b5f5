-- ===== src/Live/Presence.antt =====
-- src/routes/service/livekitPresence.js and heartbeatPolicy.js. What LiveKit's API and the webhook
-- records say is an argument; `none` is a missing record, and a read that throws.
pub mod Verdicts
use live_server.Common.{
  ℕ, ◌+◌, ◌-◌, Bool, true, false, ◌&&◌, not, Option, none, some, ltb, leb, if◌then◌else◌,
}

-- LIVE_PRESENCE_MODE
pub data Mode : Type 0 where
  off log enforce : Mode

-- The ids are there.
unfoldable pub livekit_host_is_present : Bool → Mode → Option Bool → Bool → Bool
livekit_host_is_present named off webhook api = named && api
livekit_host_is_present named log webhook api = named && api
livekit_host_is_present named enforce none api = named && api
livekit_host_is_present named enforce (some present) api = named && present

-- `exists` and `hit` are the two reads of the room's hash.
unfoldable pub webhook_host_is_present : Bool → Bool → Bool → Option Bool
webhook_host_is_present redis_open exists hit =
    if not redis_open then none else if not exists then none else some hit

pub data Verdict : Type 0 where
  alive keepalive paused end : Verdict

pub record Signs : Type 0 where
  pub now : ℕ
  pub age_ms : ℕ
  pub last_heartbeat_time : Option ℕ
  pub timeout_ms : ℕ
  pub start_grace_ms : ℕ
  pub is_paused : Bool
  pub host_in_livekit : Bool

-- A heartbeat after `now` is no time ago.
abbrev pub since_last_ping : Signs → ℕ
since_last_ping s = elim s.last_heartbeat_time [ none ↦ s.age_ms | some t ↦ s.now - t ]

unfoldable pub heartbeat_verdict : Signs → Verdict
heartbeat_verdict s =
    if ltb s.age_ms s.start_grace_ms
    then alive
    else if leb (since_last_ping s) s.timeout_ms
    then alive
    else if s.host_in_livekit
    then keepalive
    else if s.is_paused
    then paused
    else end
