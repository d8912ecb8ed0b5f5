-- ===== src/Live/Monitor.antt =====
-- `checkStream` of src/routes/service/serviceHeartbeat.js: what one tick of the monitor does about one
-- stream. The stream's Redis keys are its state; LiveKit, the call table and hostNoVideo.js answer
-- through `Facts`. The log lines are left out.
pub mod Safety
pub mod Ends
use live_server.Common.{
  ℕ, ◌+◌, ◌-◌, Bool, true, false, ◌&&◌, ◌||◌, not, Option, none, some, ltb, leb, if◌then◌else◌,
  or_else, is_some,
}
use live_server.Live.Presence.{Verdict, alive, keepalive, paused, end, heartbeat_verdict}

-- The environment's settings.
pub record Config : Type 0 where
  pub heartbeat_timeout_ms : ℕ
  pub heartbeat_start_grace_ms : ℕ
  pub livekit_host_grace_ms : ℕ
  pub host_absence_max_ms : ℕ
  pub host_novideo_max_ms : ℕ
  pub ghost_sweep_enabled : Bool
  pub absence_enforced : Bool
  pub novideo_enforced : Bool

abbrev pub default_config : Config
default_config = record {
  heartbeat_timeout_ms = 90000;
  heartbeat_start_grace_ms = 15000;
  livekit_host_grace_ms = 20000;
  host_absence_max_ms = 300000;
  host_novideo_max_ms = 300000;
  ghost_sweep_enabled = true;
  absence_enforced = false;
  novideo_enforced = false;
}

-- `stream:host_confirmed`, `stream:host_absent_since` and `stream:heartbeat` of the stream.
pub record Keys : Type 0 where
  pub host_confirmed : Bool
  pub host_absent_since : Option ℕ
  pub heartbeat : Option ℕ

-- What the rest of the system says during the tick; `clock` is the time when it is read again.
pub record Facts : Type 0 where
  pub redis_open : Bool
  pub host_in_livekit : Bool
  pub in_video_call : Bool
  pub return_timer : Bool
  pub no_video_ms : Option ℕ
  pub clock : ℕ

pub data EndReason : Type 0 where
  no_livekit_host host_media_lost host_no_video heartbeat_lost no_heartbeat_ever : EndReason

-- Nothing, or `endFromSweep` with the code of its failure record.
pub data Action : Type 0 where
  leave : Action
  end_stream : EndReason → Action

-- `hostPausedForCallOrReturn`
unfoldable pub host_paused : Facts → Bool
host_paused f = f.in_video_call || (f.redis_open && f.return_timer)

mark_host_confirmed : Facts → Keys → Keys
mark_host_confirmed f k = if f.redis_open then record k { host_confirmed = true } else k

clear_host_absent : Facts → Keys → Keys
clear_host_absent f k = if f.redis_open then record k { host_absent_since = none } else k

is_host_confirmed : Facts → Keys → Bool
is_host_confirmed f k = f.redis_open && k.host_confirmed

-- `noteHostAbsent`: the first absent tick stamps the key; the answer is how long ago that was.
note_host_absent : Facts → Keys → Keys × ℕ
note_host_absent f k =
    let since = or_else k.host_absent_since f.clock in
    if f.redis_open then (record k { host_absent_since = some since }, f.clock - since) else (k, 0)

record_stream_heartbeat : Facts → Keys → Keys
record_stream_heartbeat f k = if f.redis_open then record k { heartbeat = some f.clock } else k

abbrev reached : Option ℕ → ℕ → Bool
reached none limit = false
reached (some ms) limit = leb limit ms

-- The first part goes on to the heartbeat (`none`), or ends the tick with an action.
host_present : Config → Facts → Keys → Keys × Option Action
host_present c f k =
    let k' = clear_host_absent f (mark_host_confirmed f k) in
    if reached f.no_video_ms c.host_novideo_max_ms && c.novideo_enforced
    then (k', some (end_stream host_no_video))
    else (k', none)

confirmed_absent : Config → Facts → Keys × ℕ → Keys × Option Action
confirmed_absent c f (k, absent_ms) =
    if leb c.host_absence_max_ms absent_ms && c.absence_enforced
    then (clear_host_absent f k, some (end_stream host_media_lost))
    else (k, none)

host_absent : Config → Facts → Keys → Keys × Option Action
host_absent c f k =
    if host_paused f
    then (clear_host_absent f k, none)
    else if is_host_confirmed f k
    then confirmed_absent c f (note_host_absent f k)
    else (k, some (end_stream no_livekit_host))

ghost_check : Config → Facts → ℕ → Keys → Keys × Option Action
ghost_check c f age k =
    if c.ghost_sweep_enabled && leb c.livekit_host_grace_ms age
    then (if f.host_in_livekit then host_present c f k else host_absent c f k)
    else (k, none)

abbrev read_heartbeat : Facts → Keys → Option ℕ
read_heartbeat f k = if f.redis_open then k.heartbeat else none

lost_code : Option ℕ → EndReason
lost_code none = no_heartbeat_ever
lost_code (some t) = heartbeat_lost

by_verdict : Facts → Keys → Option ℕ → Verdict → Keys × Action
by_verdict f k hb alive = (k, leave)
by_verdict f k hb keepalive = (mark_host_confirmed f (record_stream_heartbeat f k), leave)
by_verdict f k hb paused = (k, leave)
by_verdict f k hb end = (k, end_stream (lost_code hb))

-- The second part. Its own early returns repeat tests of the policy, which says `alive` for them.
heartbeat_check : Config → Facts → ℕ → ℕ → Keys → Keys × Action
heartbeat_check c f now age k =
    let hb = read_heartbeat f k in
    by_verdict f k hb (
      heartbeat_verdict (record {
        now = now;
        age_ms = age;
        last_heartbeat_time = hb;
        timeout_ms = c.heartbeat_timeout_ms;
        start_grace_ms = c.heartbeat_start_grace_ms;
        is_paused = not f.host_in_livekit && host_paused f;
        host_in_livekit = f.host_in_livekit;
      }))

then_heartbeat : Config → Facts → ℕ → ℕ → Keys × Option Action → Keys × Action
then_heartbeat c f now age (k, some a) = (k, a)
then_heartbeat c f now age (k, none) = heartbeat_check c f now age k

unfoldable pub check_stream : Config → Facts → ℕ → ℕ → Keys → Keys × Action
unfolding ghost_check host_present host_absent confirmed_absent note_host_absent is_host_confirmed
    clear_host_absent mark_host_confirmed heartbeat_check by_verdict then_heartbeat
    record_stream_heartbeat lost_code
check_stream c f start now k =
    then_heartbeat c f now (now - start) (ghost_check c f (now - start) k)
