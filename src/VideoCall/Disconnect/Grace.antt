-- ===== src/VideoCall/Disconnect/Grace.antt =====
-- On src/modules/videoCall/socket.js. What the disconnect grace does to a call.
use live_server.Common.{ℕ, ◌+◌, ◌≤◌, ◌<◌, ◌≡◌, refl, true, false, Option, none, some, arith}
use live_server.Common.Redis.{Redis}
use live_server.VideoCall.Session.{Session, active, user_disconnected_timeout}
use live_server.VideoCall.Disconnect.{
  disconnect_grace_ms, disconnect_ttl_ms, Timer, Keys, on_connection, on_disconnect,
  disconnect_timer,
}

abbrev pub timer_of : ℕ → ℕ → Timer
timer_of session at = record {
  session_id = session;
  due = at + disconnect_grace_ms;
  disconnected_at = at;
}

module _ (r : Redis) where
  open r use {State, get, set_px, del, get-set_px, get-del}

  -- With Redis open, a user who drops out of a call while the server is not shutting down, and
  -- connects again within the 30 s for which the drop is remembered, does not lose the call to the
  -- grace, whenever the handler of its timer runs after that.
  pub reconnect_keeps_call :
      (k : Keys r) (user : ℕ) (s : Session) (current : Option Session) (at back fires : ℕ)
      → at ≤ back
      → back < at + disconnect_ttl_ms
      → back ≤ fires
      → let (k', timer) = on_disconnect r false true k user (some s) at in
        (timer ≡ some (timer_of s.id at))
        × ((disconnect_timer r true
              (on_connection r true k' user back)
              user
              (timer_of s.id at)
              current
              fires).1
            ≡ none)
  unfolding on_connection on_disconnect disconnect_timer
  reconnect_keeps_call k user s current at back fires a b c = (
    refl,
    ground (
      arith,
      get-set_px k.pointer user s.id at disconnect_ttl_ms user back a,
      get-del (set_px k.disconnect s.id at at disconnect_ttl_ms) s.id s.id fires,
    ),
  )

  -- With Redis open, a user who drops out of a call while the server is not shutting down, and does
  -- not come back, loses the call, if it is still ACTIVE, when the handler of the timer runs within
  -- the 30 s; the end is as of the moment of the drop, not of the handler.
  pub drop_ends_call :
      (k : Keys r) (user : ℕ) (s current : Session) (at fires : ℕ)
      → current.status ≡ active
      → at ≤ fires
      → fires < at + disconnect_ttl_ms
      → let (k', timer) = on_disconnect r false true k user (some s) at in
        (timer ≡ some (timer_of s.id at))
        × ((disconnect_timer r true k' user (timer_of s.id at) (some current) fires).1
            ≡ some (record {
              session_id = s.id;
              user_id = some user;
              reason = user_disconnected_timeout;
              ended_at_override = some at;
              now = fires;
              redis_open = true;
            }))
  unfolding on_disconnect disconnect_timer
  drop_ends_call k user s current at fires e a b =
      (refl, ground (arith, get-set_px k.disconnect s.id at at disconnect_ttl_ms s.id fires a))
