-- ===== src/Examples/VideoCall.antt =====
-- src/modules/videoCall at concrete inputs.
use live_server.Common.{
  ◌+◌, ◌≤◌, ◌≡◌, refl, true, false, none, some, [], ◌∷◌, ◌==◌, if◌then◌else◌, All,
}
use live_server.Common.Store.{Store}
use live_server.VideoCall.Session.{Session, ringing, active, user_ended, store_table}
use live_server.VideoCall.EndCall.{Request, end_patch}
use live_server.VideoCall.EndRace.{World}
use live_server.VideoCall.Billing.{
  Pass, Minute, billed, insufficient_coins, hb_enforce, bill_due_minutes, minute_start,
  bill_heartbeat_stale_ms,
}
use live_server.VideoCall.Billing.Minutes.{charged}
use live_server.VideoCall.Billing.Stops.{charged-heartbeat}

-- User 1 calls user 2.
abbrev call : Session
call = record {
  id = 9;
  caller_id = 1;
  creator_id = 2;
  livekit_room = 90;
  price_per_min = 60;
  status = ringing;
  mins_charged = 0;
  started_at = 1000;
  ended_at = none;
  end_reason = none;
}

abbrev table : Store Session
table k = if k == 9 then some call else none

abbrev hang_up : Request
hang_up = record {
  session_id = 9;
  user_id = some 1;
  reason = user_ended;
  ended_at_override = none;
  now = 5000;
  redis_open = true;
}

-- The caller hangs up, and a slower end by the receiver misses.
abbrev after_end : World store_table 9
after_end = record {
  table = (store_table.update_many table 9 ringing (end_patch hang_up ringing)).0;
  wins = 0 + 1;
  accepted = false;
}

abbrev paid : Minute
paid = record {
  disconnected_at = some 200000;
  reply = billed;
  low_coin_pending = false;
  coins_after = some 50;
  now = 62000;
}

abbrev pass : Pass
pass = record {
  session = record call { status = active; mins_charged = 1 };
  coin_rate = 100;
  hb_mode = hb_enforce;
  call_heartbeat = some 100000;
  minutes = λ m. if m == 4 then record paid { reply = insufficient_coins } else paid;
}

charged_run : charged (bill_due_minutes pass 190000) ≡ 2 ∷ 3 ∷ []
unfolding bill_due_minutes
charged_run = refl

charged-heartbeat_example :
    All
      (λ m. minute_start pass.session m ≤ 100000 + bill_heartbeat_stale_ms)
      (charged (bill_due_minutes pass 190000))
charged-heartbeat_example = charged-heartbeat pass 100000 190000 refl refl
