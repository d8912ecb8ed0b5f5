-- ===== src/VideoCall/Deadlines/Handlers.antt =====
-- On src/modules/videoCall/service.js. When the timers act.
use live_server.Common.{
  ℕ, ◌+◌, not, ◌&&◌, ◌||◌, if◌then◌else◌, ◌≡◌, refl, Bool, true, Option, none, some, List, [], ◌∷◌,
  arith, is_some,
}
use live_server.Common.Int.{ℤ, pos, ltb_ℤ}
use live_server.VideoCall.Session.{Session, active}
use live_server.VideoCall.EndCall.{Request, end_patch}
use live_server.VideoCall.Deadlines.{
  LowCoin, low_coin_timer, ReturnEffect, end_live_stream, broadcast_stream_ended, del_return_timers,
  del_stream_pause, Return, host_return_timer,
}

-- The low-coin timer ends a call only for a payload that is there, a call that is still ACTIVE, and a
-- caller who by then has less than the price of a minute; the end is as of the minute's boundary that
-- the timer was set for.
pub low_coin_end_valid :
    (session : ℕ) (payload : Option LowCoin) (fresh : Option Session) (coins : ℤ) (now : ℕ)
    (redis_open : Bool) (q : Request)
    → low_coin_timer session payload fresh coins now redis_open ≡ some q
    → (p : LowCoin) × (s : Session) × (payload ≡ some p)
      × (fresh ≡ some s)
      × (s.status ≡ active)
      × (ltb_ℤ coins (pos p.coin_rate) ≡ true)
      × ((end_patch q active).ended_at ≡ p.disconnect_at_ms)
unfolding low_coin_timer end_patch
low_coin_end_valid session none fresh coins now redis_open q h = absurd (ground arith)
low_coin_end_valid session (some p) none coins now redis_open q h = absurd (ground arith)
low_coin_end_valid session (some p) (some s) coins now redis_open q h =
    (p, s, refl, refl, ground arith, ground arith, ground arith)

abbrev pub stream_ends : List ReturnEffect → ℕ
stream_ends [] = 0
stream_ends (end_live_stream s h ∷ es) = 1 + stream_ends es
stream_ends (broadcast_stream_ended s ∷ es) = stream_ends es
stream_ends (del_return_timers s h ∷ es) = stream_ends es
stream_ends (del_stream_pause s ∷ es) = stream_ends es

-- The return timer ends the host's live stream, and once only, exactly if the payload is there, the host
-- has a live stream, and the grace was not cleared: one of its two keys still says pending, or Redis is
-- closed.
pub return_timer_ends :
    (host : ℕ) (payload : Option Return) (redis_open pending1 pending2 : Bool)
    (active_stream : Option ℕ)
    → stream_ends (host_return_timer host payload redis_open pending1 pending2 active_stream) ≡ (
        if is_some payload && is_some active_stream && (not redis_open || pending1 || pending2)
        then 1
        else 0)
unfolding host_return_timer
return_timer_ends host payload redis_open pending1 pending2 active_stream = ground arith
