-- ===== src/Examples/Calls.antt =====
-- Calls that are set up, dropped and swept, at concrete inputs.
use live_server.Common.{
  ℕ, ◌≡◌, ◌≢◌, ◌↔◌, refl, true, false, Option, none, some, List, [], ◌∷◌, arith, or_else, ◌==◌,
  if◌then◌else◌,
}
use live_server.Common.Int.{pos, ◌≤ℤ◌}
use live_server.Common.Store.{Store, empty_store}
use live_server.Common.Redis.{concrete_redis}
use live_server.Services.Ledger.{LedgerError}
use live_server.VideoCall.Session.{Session, ringing, active, store_table}
use live_server.VideoCall.Accept
use live_server.VideoCall.Initiate.{Answers, initiate_call_unlocked, is_stale}
use live_server.VideoCall.Initiate.Allowed.{NotBusy, Accepts, initiate_iff}
use live_server.VideoCall.InitiateLock.{Tap}
use live_server.VideoCall.InitiateLock.Exclusion.{Command, sets, releases}
use live_server.VideoCall.Disconnect.{Keys, on_connection, on_disconnect, disconnect_timer}
use live_server.VideoCall.Disconnect.Grace.{timer_of, reconnect_keeps_call}
use live_server.VideoCall.Heartbeats.{Heartbeats, get_call_heartbeat}
use live_server.VideoCall.Heartbeats.Seen.{NoOlder, pings, newest_ping_seen}

-- User 1 calls user 2.
abbrev ringing_call : Session
ringing_call = record {
  id = 9;
  caller_id = 1;
  creator_id = 2;
  livekit_room = 90;
  price_per_min = 60;
  status = ringing;
  mins_charged = 0;
  started_at = 1000;
  ended_at = none;
  end_reason = none;
}

abbrev active_call : Session
active_call = record ringing_call { status = active }

abbrev ringing_table : Store Session
ringing_table k = if k == 9 then some ringing_call else none

abbrev caller : ℕ
caller = 1

abbrev creator : ℕ
creator = 2

-- The receiver takes callers above level 5, and the caller's old call rang out.
abbrev answers : Answers
answers = record {
  caller_frozen = false;
  creator_exists = true;
  settings = some (record {
    accept_video_calls = true;
    block_lv5 = true;
    block_lv10 = false;
    price_per_min = 60;
  });
  blocked = false;
  wealth_level = some 7;
  coin_rate = 100;
  caller_coins = pos 120;
  caller_busy = some ringing_call;
  caller_busy_ping = none;
  creator_busy = none;
  creator_busy_ping = none;
  now = 50000;
}

initiate_iff_example : ((initiate_call_unlocked answers caller creator).error ≡ none) ↔ (
    (answers.caller_frozen ≡ false)
    × (caller ≢ creator)
    × (answers.creator_exists ≡ true)
    × Accepts answers.settings (or_else answers.wealth_level 1)
    × (answers.blocked ≡ false)
    × (pos answers.coin_rate ≤ℤ answers.caller_coins)
    × NotBusy answers.caller_busy answers.caller_busy_ping answers.now
    × NotBusy answers.creator_busy answers.creator_busy_ping answers.now)
initiate_iff_example = initiate_iff answers caller creator

initiate_run : (initiate_call_unlocked answers caller creator).error ≡ none
unfolding initiate_call_unlocked is_stale
initiate_run = refl

-- User 1 taps, user 3 rings someone else and gives up, and user 4 calls user 1.
abbrev tap : Tap
tap = record { caller_id = 1; creator_id = 2; token = 11 }

abbrev second_tap : Tap
second_tap = record { caller_id = 4; creator_id = 1; token = 44 }

abbrev traffic : List Command
traffic = sets 3 33 100 ∷ sets 1 33 100 ∷ releases 1 33 150 ∷ releases 3 33 150 ∷ []

-- The ledger bills minute 1 and activates the row.
abbrev bills : Store Session → Store Session × Option LedgerError
bills st = (store_table.activate st 9, none)

abbrev accept_answers : Accept.Answers
accept_answers = record {
  caller_frozen = false;
  coin_rate = 100;
  coins_after = some (pos 20);
  low_coin_pending = false;
  now = 5000;
}

abbrev no_keys : Keys concrete_redis
no_keys = record { disconnect = empty_store; pointer = empty_store }

reconnect_keeps_call_example :
    let (k, timer) = on_disconnect concrete_redis false true no_keys 1 (some active_call) 7000 in
    (timer ≡ some (timer_of 9 7000))
    × ((disconnect_timer concrete_redis true
          (on_connection concrete_redis true k 1 9000)
          1
          (timer_of 9 7000)
          (some active_call)
          22000).1
        ≡ none)
reconnect_keeps_call_example =
    reconnect_keeps_call concrete_redis no_keys 1 active_call (some active_call) 7000 9000 22000
      (omega arith) (omega arith) (omega arith)

-- Pings of call 9 reach node 1 and then node 2; node 3 reads.
abbrev no_pings : Heartbeats concrete_redis
no_pings = record { remote = empty_store; heartbeat_cache = λ n. empty_store }

newest_ping_seen_example : NoOlder 2000 (
    get_call_heartbeat concrete_redis true
      (pings concrete_redis no_pings 9 ((1, 1000) ∷ (2, 2000) ∷ []))
      3
      9
      60000)
newest_ping_seen_example =
    newest_ping_seen concrete_redis no_pings 9 1 3 1000 60000 ((2, 2000) ∷ []) (omega arith)
      (omega arith, omega arith) (omega arith)
