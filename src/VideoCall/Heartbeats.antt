-- ===== src/VideoCall/Heartbeats.antt =====
-- The call heartbeats of src/modules/videoCall/service.js: `recordHeartbeat`, `getCallHeartbeat` and
-- `clearCallHeartbeat` on several nodes. The node's Map is a store by session; its entries by session
-- and user, which `getCallHeartbeat` does not read, are left out.
pub mod Seen
use live_server.Common.{ℕ, Bool, true, false, ◌&&◌, Option, none, some, ◌==◌, ltb, if◌then◌else◌}
use live_server.Common.Store.{Store₂, put₂, del₂}
use live_server.Common.Redis.{Redis}

-- HEARTBEAT_REDIS_TTL_SEC
abbrev pub heartbeat_ttl_ms : ℕ
heartbeat_ttl_ms = 120000

-- `x || null` of a number, and a test for a missing or zero one.
abbrev truthy : Option ℕ → Option ℕ
truthy none = none
truthy (some n) = if n == 0 then none else some n

newer : Option ℕ → Option ℕ → Option ℕ
newer local_ping none = local_ping
newer none (some remote) = some remote
newer (some l) (some remote) = if ltb remote l then some l else some remote

module _ (r : Redis) where
  open r use {State, get, set_px, del}

  -- `vc:hb:<session>` in Redis, and the Map of each node.
  pub record Heartbeats : Type 0 where
    pub remote : State
    pub heartbeat_cache : Store₂ ℕ

  unfoldable pub record_heartbeat : Bool → Heartbeats → ℕ → ℕ → ℕ → Heartbeats
  record_heartbeat redis_open h node session now = record {
    remote = if redis_open then set_px h.remote session now now heartbeat_ttl_ms else h.remote;
    heartbeat_cache = put₂ h.heartbeat_cache node session now;
  }

  unfoldable pub get_call_heartbeat : Bool → Heartbeats → ℕ → ℕ → ℕ → Option ℕ
  unfolding newer
  get_call_heartbeat redis_open h node session now =
      let local_ping = truthy (h.heartbeat_cache node session) in
      if redis_open then newer local_ping (truthy (get h.remote session now)) else local_ping

  unfoldable pub clear_call_heartbeat : Bool → Heartbeats → ℕ → ℕ → Heartbeats
  clear_call_heartbeat redis_open h node session = record {
    remote = if redis_open then del h.remote session else h.remote;
    heartbeat_cache = del₂ h.heartbeat_cache node session;
  }
