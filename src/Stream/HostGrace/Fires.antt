-- ===== src/Stream/HostGrace/Fires.antt =====
-- On src/routes/service/socket-live-service.js. What the disconnect timer does to a stream.
use live_server.Common.{ℕ, ◌+◌, ◌%◌, ◌≤◌, ◌≡◌, refl, true, false, none, some, arith}
use live_server.Common.Redis.{Redis}
use live_server.Stream.HostGrace.{
  Found, Keys, on_disconnect, on_host_join, disconnect_timer_fires, whole_seconds, pending,
}

module _ (r : Redis) where
  open r use {State, get, set_px, del, get-set_px, get-del}

  -- With Redis open, a stream whose host lost the socket and has joined again is not ended by the timer,
  -- whenever its handler runs.
  pub host_back_keeps_stream :
      (k : Keys r) (timeout stream user at scheduled back fires : ℕ) (f : Found)
      → at ≤ back
      → back ≤ fires
      → let (k', due) = on_disconnect r false true true timeout k stream at scheduled in
        (due ≡ some (scheduled + timeout))
        × ((disconnect_timer_fires r true
              (on_host_join r true k' stream user back).0
              stream
              user
              f
              fires).1
            ≡ none)
  unfolding on_disconnect on_host_join disconnect_timer_fires
  host_back_keeps_stream k timeout stream user at scheduled back fires f a b =
      let set : State = set_px k.disconnect_timer stream pending at (whole_seconds timeout) in
      (
        refl,
        ground (
          arith,
          get-set_px k.disconnect_timer stream pending at (whole_seconds timeout) stream back a,
          get-set_px k.disconnect_timer stream pending at (whole_seconds timeout) stream fires
              (omega (arith, a, b)),
          get-del set stream stream fires,
        ),
      )

  -- With Redis open, a timeout of whole seconds, and a timer that runs when it is due or later, a host who
  -- does not come back does not lose the stream to the timer either: the key, which lives as long as
  -- the timeout, is gone by then.
  pub timer_finds_no_key :
      (k : Keys r) (timeout stream user at scheduled fires : ℕ) (f : Found)
      → timeout % 1000 ≡ 0
      → at ≤ scheduled
      → scheduled + timeout ≤ fires
      → let (k', due) = on_disconnect r false true true timeout k stream at scheduled in
        (due ≡ some (scheduled + timeout))
        × ((disconnect_timer_fires r true k' stream user f fires).1 ≡ none)
  unfolding on_disconnect disconnect_timer_fires
  timer_finds_no_key k timeout stream user at scheduled fires f whole a b = (
    refl,
    ground (
      arith,
      get-set_px k.disconnect_timer stream pending at (whole_seconds timeout) stream fires
          (omega arith),
    ),
  )

  -- A stream whose host lost the socket is ended by the timer where Redis is not open, if the stream is
  -- still running and the host is in no active call.
  pub closed_redis_ends :
      (k : Keys r) (timeout stream user at scheduled fires row : ℕ) (f : Found)
      → f.active_stream ≡ some row
      → f.active_call ≡ false
      → let (k', due) = on_disconnect r false false true timeout k stream at scheduled in
        (due ≡ some (scheduled + timeout))
        × ((disconnect_timer_fires r false k' stream user f fires).1 ≡ some row)
  unfolding on_disconnect disconnect_timer_fires
  closed_redis_ends k timeout stream user at scheduled fires row f e idle = (refl, ground arith)
