-- ===== src/VideoCall/Sweep.antt =====
-- The `videocall-sweep` tick of src/modules/videoCall/service.js: which running calls it ends, and how.
-- The leader check, the billing of every call (VideoCall/Billing.antt) and the log lines are left out.
pub mod Ends
use live_server.Common.{
  ℕ, ◌+◌, ◌-◌, Bool, true, false, ◌&&◌, not, Option, none, some, List, [], ◌∷◌, ltb, leb,
  if◌then◌else◌, or_else,
}
use live_server.VideoCall.Session.{
  Session, Status, ringing, active, missed, ended, rejected, heartbeat_lost, ringing_timeout,
  EndReason,
}
use live_server.VideoCall.EndCall.{Request}
use live_server.VideoCall.Billing.{HbMode, enforces}

-- A call of `endCall` for the caller.
ends_for : Session → EndReason → Option ℕ → ℕ → Bool → Request
ends_for s reason at now redis_open = record {
  session_id = s.id;
  user_id = some s.caller_id;
  reason = reason;
  ended_at_override = at;
  now = now;
  redis_open = redis_open;
}

-- BE-13: `endAt` for the last ping of the call.
end_at : HbMode → Session → ℕ → Option ℕ
end_at mode s last_ping =
    if enforces mode && ltb s.started_at last_ping then some last_ping else none

-- A missing heartbeat counts as the start of the call.
sweep_active : HbMode → Session → Option ℕ → ℕ → Bool → Option Request
unfolding ends_for end_at
sweep_active mode s ping now redis_open =
    let last_ping = or_else ping s.started_at in
    if ltb 45000 (now - s.started_at) && ltb 60000 (now - last_ping)
    then some (ends_for s heartbeat_lost (end_at mode s last_ping) now redis_open)
    else none

sweep_ringing : Session → ℕ → Bool → Option Request
unfolding ends_for
sweep_ringing s now redis_open =
    if ltb (s.started_at + 45000) now
    then some (ends_for s ringing_timeout none now redis_open)
    else none

by_status : Status → HbMode → Session → Option ℕ → ℕ → Bool → Option Request
unfolding sweep_active sweep_ringing
by_status ringing mode s ping now redis_open = sweep_ringing s now redis_open
by_status active mode s ping now redis_open = sweep_active mode s ping now redis_open
by_status missed mode s ping now redis_open = none
by_status ended mode s ping now redis_open = none
by_status rejected mode s ping now redis_open = none

unfoldable pub sweep_session : HbMode → Session → Option ℕ → ℕ → Bool → Option Request
unfolding by_status
sweep_session mode s ping now redis_open = by_status s.status mode s ping now redis_open

-- Whether the tick looks for participants who never connected (`checkCallConnected`).
unfoldable pub checks_connected : Session → ℕ → Bool
checks_connected s now = leb 20000 (now - s.started_at) && leb (now - s.started_at) 120000
