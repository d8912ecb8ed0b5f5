-- ===== src/LuckyGift/Combo/Steering.antt =====
-- On `calculateComboReward` of src/modules/luckyGift/luckyReward.engine.js. How the measured
-- return steers the draw.
use live_server.Common.{ℕ, ◌*◌, ◌≤◌, ◌≡◌, true, arith}
use live_server.LuckyGift.Combo.{
  Combo, combo_odds_for_draw, return_multiplier, rounded, calculate_combo_reward,
}

rounded_mono : (cost m n : ℕ) → m ≤ n → rounded cost m ≤ rounded cost n
rounded_mono cost m n h = grind arith

multiplier_steered :
    (current target current' rand : ℕ)
    → current' ≤ current
    → return_multiplier (combo_odds_for_draw true current target) rand
      ≤ return_multiplier (combo_odds_for_draw true current' target) rand
unfolding return_multiplier combo_odds_for_draw
multiplier_steered current target current' rand h = ground arith

-- Steering with the fix on: for the same random numbers, a combo never pays more when the return
-- measured so far is higher.
pub combo_steered :
    (c : Combo) (current' rand : ℕ) (weights : ℕ → ℕ)
    → c.fix_enabled ≡ true
    → current' ≤ c.current_rtp
    → (calculate_combo_reward c rand weights).total_reward
      ≤ (calculate_combo_reward (record c { current_rtp = current' }) rand weights).total_reward
unfolding calculate_combo_reward
combo_steered c current' rand weights f h = rw f (
    rounded_mono (c.gift_coin_cost * c.combo_count)
      (return_multiplier (combo_odds_for_draw true c.current_rtp c.target_rtp) rand)
      (return_multiplier (combo_odds_for_draw true current' c.target_rtp) rand)
      (multiplier_steered c.current_rtp c.target_rtp current' rand h))
