-- ===== src/Stream/HostGrace.antt =====
-- The host of a stream who loses the socket: the `disconnect` and `join_stream` handlers and the
-- `host_disconnect` timer of src/routes/service/socket-live-service.js, for one host. Each family of keys
-- is one value: `host:disconnect_timer:<stream>`, and the host's return timers, by the stream and by
-- the host. The value of every key is "pending".
pub mod Fires
use live_server.Common.{
  ℕ, ◌+◌, ◌*◌, ◌/◌, Bool, true, false, ◌&&◌, ◌||◌, not, Option, none, some, is_some, if◌then◌else◌,
}
use live_server.Common.Redis.{Redis}

-- Math.ceil(ms / 1000), as a time to live in ms
abbrev pub whole_seconds : ℕ → ℕ
whole_seconds ms = (ms + 999) / 1000 * 1000

abbrev pub pending : ℕ
pending = 1

-- What the timer's handler finds in the database: the running stream's row, and whether the host is in
-- an ACTIVE call.
pub record Found : Type 0 where
  pub active_stream : Option ℕ
  pub active_call : Bool

module _ (r : Redis) where
  open r use {State, get, set_px, del}

  pub record Keys : Type 0 where
    pub disconnect_timer : State
    pub return_by_stream : State
    pub return_by_user : State

  -- A socket is gone; `stream` is the stream that it had joined, and `scheduled` the time at which the
  -- timer is scheduled, after the key is set. The answer is when the timer is due.
  unfoldable pub on_disconnect : Bool → Bool → Bool → ℕ → Keys → ℕ → ℕ → ℕ → Keys × Option ℕ
  on_disconnect shutting_down redis_open is_host timeout_ms k stream now scheduled =
      if shutting_down || not is_host then (k, none) else (
        if redis_open
            then record k {
              disconnect_timer =
                  set_px k.disconnect_timer stream pending now (whole_seconds timeout_ms);
            }
            else k,
        some (scheduled + timeout_ms),
      )

  abbrev return_pending : Keys → ℕ → ℕ → ℕ → Bool
  return_pending k stream user now =
      is_some (get k.return_by_stream stream now) || is_some (get k.return_by_user user now)

  -- The host joins the stream: the keys, and whether the room is told that the live is resumed.
  unfoldable pub on_host_join : Bool → Keys → ℕ → ℕ → ℕ → Keys × Bool
  on_host_join redis_open k stream user now =
      if redis_open
      then (
        record {
          disconnect_timer =
              if is_some (get k.disconnect_timer stream now)
              then del k.disconnect_timer stream
              else k.disconnect_timer;
          return_by_stream =
              if return_pending k stream user now
              then del k.return_by_stream stream
              else k.return_by_stream;
          return_by_user =
              if return_pending k stream user now
              then del k.return_by_user user
              else k.return_by_user;
        },
        return_pending k stream user now,
      )
      else (k, false)

  ends_found : Bool → Keys → ℕ → ℕ → Found → Option ℕ → ℕ → Option ℕ
  ends_found redis_open k stream user f none now = none
  ends_found redis_open k stream user f (some row) now =
      if f.active_call || (redis_open && return_pending k stream user now) then none else some row

  -- The handler of the timer: the row whose stream it ends, if it comes to that.
  unfoldable pub disconnect_timer_fires : Bool → Keys → ℕ → ℕ → Found → ℕ → Keys × Option ℕ
  unfolding ends_found
  disconnect_timer_fires redis_open k stream user f now =
      if redis_open && not (is_some (get k.disconnect_timer stream now)) then (k, none) else (
        if redis_open then record k { disconnect_timer = del k.disconnect_timer stream } else k,
        ends_found redis_open k stream user f f.active_stream now,
      )
