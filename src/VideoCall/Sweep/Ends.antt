-- ===== src/VideoCall/Sweep/Ends.antt =====
-- On src/modules/videoCall/service.js. The calls that the sweep ends.
use live_server.Common.{
  ℕ, ◌-◌, ◌≤◌, ◌<◌, ◌≡◌, ◌↔◌, ◌⊎◌, Bool, true, Option, some, arith, ==_refl, or_else, is_some,
}
use live_server.VideoCall.Session.{Session, ringing, active}
use live_server.VideoCall.EndCall.{Request, may_end, end_patch}
use live_server.VideoCall.Billing.{HbMode}
use live_server.VideoCall.Sweep.{sweep_session}

-- The sweep ends a call exactly if it has been RINGING for more than 45 s, or is ACTIVE, started more than
-- 45 s ago, and had no heartbeat for more than 60 s, counted from its start if there was none.
pub swept_iff :
    (mode : HbMode) (s : Session) (ping : Option ℕ) (now : ℕ) (redis_open : Bool)
    → (is_some (sweep_session mode s ping now redis_open) ≡ true) ↔ (
        ((s.status ≡ ringing) × (45000 < now - s.started_at))
        ⊎ ((s.status ≡ active)
            × (45000 < now - s.started_at)
            × (60000 < now - or_else ping s.started_at)))
unfolding sweep_session
swept_iff mode s ping now redis_open = (λ h. ground arith, λ h. ground arith)

-- What the sweep asks of `endCall` is never refused, and the end that it records is no later than now and
-- no earlier than the call's start.
pub swept_end_valid :
    (mode : HbMode) (s : Session) (ping : Option ℕ) (now : ℕ) (redis_open : Bool) (q : Request)
    → sweep_session mode s ping now redis_open ≡ some q
    → (may_end q s ≡ true)
      × (s.started_at ≤ (end_patch q s.status).ended_at)
      × ((end_patch q s.status).ended_at ≤ now)
unfolding sweep_session may_end end_patch
swept_end_valid mode s ping now redis_open q h = ground (arith, ==_refl s.caller_id)
