-- ===== src/Examples/LuckyGift.antt =====
-- Lucky gifts at concrete inputs.
use live_server.Common.{ℕ, ◌+◌, ◌≡◌, refl, true}
use live_server.LuckyGift.Combo.{
  Combo, combo_odds_for_draw, return_multiplier, calculate_combo_reward,
}

-- Seven gifts of 15 coins, with 95 % returned so far.
abbrev combo : Combo
combo = record {
  gift_coin_cost = 15;
  combo_count = 7;
  current_rtp = 9500;
  target_rtp = 9200;
  fix_enabled = true;
}

abbrev draws : ℕ → ℕ
draws i = i + 1

reward_run : (calculate_combo_reward combo 60000000 draws).total_reward ≡ 95
unfolding calculate_combo_reward combo_odds_for_draw return_multiplier
reward_run = refl
