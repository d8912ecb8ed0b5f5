-- ===== src/Services/LuckyShares/Cut.antt =====
-- On src/services/luckyShares.service.js. Bounds on the settings in force, and on the cut.
use live_server.Common.{ℕ, ◌+◌, ◌*◌, ◌≤◌, ◌≡◌, Option, none, some, List, All, arith}
use live_server.Services.ConfigCache.{Call, no_memo, get_all}
use live_server.Services.ConfigCache.Answers.{get_all_ok}
use live_server.Services.CallRate.{number_of}
use live_server.Services.LuckyShares.{
  Shares, SharesRow, defaults, both_valid, pick, calculate_host_earning,
}

pub record InRange (s : Shares) : Type 0 where
  pub host_high : s.lucky_host_share_bp ≤ 2000
  pub rtp_low : 5000 ≤ s.lucky_target_rtp_bp
  pub rtp_high : s.lucky_target_rtp_bp ≤ 9900

both_valid-InRange : (o p : Option ℕ) (v : Shares) → both_valid o p ≡ some v → InRange v
both_valid-InRange none p v e = cc
both_valid-InRange (some h) none v e = cc
both_valid-InRange (some h) (some r) v e = ground arith

pick-InRange : (s : Option SharesRow) (v : Shares) → pick s ≡ some v → InRange v
unfolding pick
pick-InRange none v e = cc
pick-InRange (some src) v e =
    both_valid-InRange (number_of src.host_camel src.host_snake)
      (number_of src.rtp_camel src.rtp_snake) v e

-- In any sequence of calls the settings that are used lie in the ranges that the admin page allows.
pub lucky_shares-InRange :
    (cs : List (Call SharesRow)) → All InRange (get_all pick defaults no_memo cs).0
lucky_shares-InRange =
    get_all_ok pick defaults InRange pick-InRange
      (record { host_high = omega arith; rtp_low = omega arith; rtp_high = omega arith })

share_le : (c s : ℕ) → s ≤ 2000 → c * s ≤ c * 2000
share_le c s h = grind arith

-- With settings in range the host gets at most a fifth of the cost, and within one point of the exact
-- share below it.
pub host_earning_bounds :
    (cost : ℕ) (s : Shares)
    → InRange s
    → let points = calculate_host_earning cost s.lucky_host_share_bp in
      (points * 5 ≤ cost)
      × (points * 10000 ≤ cost * s.lucky_host_share_bp)
      × (cost * s.lucky_host_share_bp ≤ points * 10000 + 9999)
unfolding calculate_host_earning
host_earning_bounds cost s h = ground (arith, share_le cost s.lucky_host_share_bp h.host_high)
