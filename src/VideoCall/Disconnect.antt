-- ===== src/VideoCall/Disconnect.antt =====
-- The disconnect grace of src/modules/videoCall/socket.js, for one user. The keys
-- `call:disconnect:<session>:<user>` of the user are one family, by the session; the pointer
-- `call:disconnect:user:<user>` is a key of another. The events of the socket and the timer's handler
-- come as separate steps.
pub mod Grace
use live_server.Common.{
  ℕ, ◌+◌, Bool, true, false, ◌&&◌, not, Option, none, some, or_else, is_some, if◌then◌else◌,
}
use live_server.Common.Redis.{Redis}
use live_server.VideoCall.Session.{Session, active, status_eq, EndReason, user_disconnected_timeout}
use live_server.VideoCall.EndCall.{Request}

-- DISCONNECT_GRACE_MS
abbrev pub disconnect_grace_ms : ℕ
disconnect_grace_ms = 15000

-- EX: 30
abbrev pub disconnect_ttl_ms : ℕ
disconnect_ttl_ms = 30000

-- `scheduleDurable` of a `vc_disconnect` timer: the session, when it is due, and its payload.
pub record Timer : Type 0 where
  pub session_id : ℕ
  pub due : ℕ
  pub disconnected_at : ℕ

module _ (r : Redis) where
  open r use {State, get, set_px, del}

  pub record Keys : Type 0 where
    pub disconnect : State
    pub pointer : State

  cleared : Keys → ℕ → Option ℕ → Keys
  cleared k user none = k
  cleared k user (some session) = record {
    disconnect = del k.disconnect session;
    pointer = del k.pointer user;
  }

  -- What a new connection of the user clears.
  unfoldable pub on_connection : Bool → Keys → ℕ → ℕ → Keys
  unfolding cleared
  on_connection redis_open k user now =
      if redis_open then cleared k user (get k.pointer user now) else k

  set_keys : Bool → Keys → ℕ → ℕ → ℕ → Keys
  set_keys redis_open k user session now =
      if redis_open
      then record {
        disconnect = set_px k.disconnect session now now disconnect_ttl_ms;
        pointer = set_px k.pointer user session now disconnect_ttl_ms;
      }
      else k

  disconnected : Bool → Keys → ℕ → Option Session → ℕ → Keys × Option Timer
  unfolding set_keys
  disconnected redis_open k user none now = (k, none)
  disconnected redis_open k user (some s) now = (
    set_keys redis_open k user s.id now,
    some (record { session_id = s.id; due = now + disconnect_grace_ms; disconnected_at = now }),
  )

  -- The disconnect handler; `active_call` is the ACTIVE session of the user, if there is one.
  unfoldable pub on_disconnect : Bool → Bool → Keys → ℕ → Option Session → ℕ → Keys × Option Timer
  unfolding disconnected
  on_disconnect shutting_down redis_open k user active_call now =
      if shutting_down then (k, none) else disconnected redis_open k user active_call now

  end_request : Bool → ℕ → ℕ → Timer → Option Session → Option Request
  end_request redis_open user now t none = none
  end_request redis_open user now t (some s) =
      if status_eq s.status active
      then some (record {
        session_id = t.session_id;
        user_id = some user;
        reason = user_disconnected_timeout;
        ended_at_override = some t.disconnected_at;
        now = now;
        redis_open = redis_open;
      })
      else none

  -- The handler of the timer: the call of `endCall`, if it comes to that. `current` is the session as it
  -- is read.
  unfoldable pub disconnect_timer :
      Bool → Keys → ℕ → Timer → Option Session → ℕ → Keys × Option Request
  unfolding end_request
  disconnect_timer redis_open k user t current now =
      if redis_open
      then (if is_some (get k.disconnect t.session_id now)
          then (
            record k { disconnect = del k.disconnect t.session_id },
            end_request redis_open user now t current,
          )
          else (k, none))
      else (k, end_request redis_open user now t current)
