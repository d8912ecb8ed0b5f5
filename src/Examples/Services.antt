-- ===== src/Examples/Services.antt =====
-- src/services at concrete inputs.
use live_server.Common.{
  ℕ, Option, ◌+◌, ◌*◌, ◌≤◌, ◌≡◌, refl, true, false, none, some, List, [], ◌∷◌, All, length, ◌==◌,
  if◌then◌else◌, arith,
}
use live_server.Common.Int.{pos, ◌≤ℤ◌}
use live_server.Services.ConfigCache.{failed, answered, Call, no_memo, get_all, get}
use live_server.Services.CallRate.{
  ShareRow, pick, default_video_call_host_share_bp, caller_coins_per_minute,
}
use live_server.Services.Ledger.{throws, responds, Network, call_ledger}
use live_server.Services.Ledger.Retries.{Fits, call_ledger_bounds}
use live_server.Utils.TierLock.{TierLock, rank}
use live_server.Services.TierRecompute.{Agency, Settings, refresh_window_progress, day_ms}
use live_server.Services.TierRecompute.Daily.{refresh_never_lowers}

caller_coins_run : caller_coins_per_minute (pos 7) 6000 ≡ 12
unfolding caller_coins_per_minute
caller_coins_run = refl

abbrev half_share : ShareRow
half_share = record { camel = none; snake = some (some 5000) }

-- Redis is down and then the row is there; within 30 s the memo answers, after that Redis does, whose
-- nonsense value is passed over.
abbrev share_calls : List (Call ShareRow)
share_calls =
    record { now = 100; is_open = false; redis = failed; db = answered (some half_share) }
    ∷ record { now = 200; is_open = true; redis = failed; db = failed }
    ∷ record {
      now = 90000;
      is_open = true;
      redis = answered (some (record { camel = some (some 77); snake = none }));
      db = failed;
    }
    ∷ []

share_answers :
    (get_all pick default_video_call_host_share_bp no_memo share_calls).0 ≡ 5000 ∷ 5000 ∷ 6000 ∷ []
unfolding get_all get pick
share_answers = refl

-- A time-out, a 503 and then an answer.
abbrev flaky : Network
flaky k =
    if k == 0
    then (throws true, 99999)
    else if k == 1
    then (responds 503 none, 40)
    else (responds 200 none, 40)

call_ledger_bounds_example :
    let x = call_ledger (record { attempt_timeout = 5000; budget = 19000 }) 321 flaky in
    All (Fits (record { attempt_timeout = 5000; budget = 19000 }) 321) x.sent
    × (length x.sent ≤ 3)
    × (x.elapsed ≤ 19300)
call_ledger_bounds_example =
    call_ledger_bounds (record { attempt_timeout = 5000; budget = 19000 }) 321 flaky (omega arith)
      (omega arith)

-- An agency without a lock at level D, with 300 points in its window, where level C needs 100.
abbrev unlocked : TierLock
unlocked = record { tier_lock_until = none; tier_lock_level = none; tier_lock_bonus_points = none }

abbrev agency : Agency
agency = record {
  current_level = "D";
  last_level_recomputed_at = some (20 * day_ms);
  lock = unlocked;
  window_total = pos 0;
}

abbrev settings : Settings
settings = record {
  duration = none;
  include_host_earnings = true;
  include_agency_commission = false;
  host_earnings = λ from to. pos 300;
  agency_commission = λ from to. pos 0;
  levels =
      record { level = "D"; min_window_points = pos 0 }
      ∷ record { level = "C"; min_window_points = pos 100 }
      ∷ [];
}

-- Nobody else writes the row.
abbrev quiet : ℕ → Option Agency → Option Agency
quiet k row = row

refresh_never_lowers_example :
    (after : Agency) × (refresh_window_progress settings
        (λ k. 0)
        quiet
        (20 * day_ms + 5)
        (some agency)
      ≡ some after)
    × (rank agency.current_level settings.levels ≤ℤ rank after.current_level settings.levels)
refresh_never_lowers_example =
    refresh_never_lowers settings agency agency (λ k. 0) quiet (20 * day_ms + 5) refl refl
