-- ===== src/LuckyGift/Single.antt =====
-- `getDynamicStepMultipliers` and `calculateSingleReward` of
-- src/modules/luckyGift/luckyReward.engine.js with the steps of src/config/luckyGift.config.js. Weights
-- and multipliers are in tenths, RTP in hundredths of a percent, and `_random()` in millionths, exact.
pub mod Expected
use live_server.Common.{ℕ, ◌+◌, ◌-◌, ◌*◌, ◌/◌, min, max, List, [], ◌∷◌, ltb, leb, if◌then◌else◌}

-- The weights of LUCKY_GIFT_CONFIG.stepMultipliers.
pub record Weights : Type 0 where
  pub miss : ℕ
  pub small : ℕ
  pub equal : ℕ
  pub medium : ℕ
  pub jackpot : ℕ

abbrev pub base_weights : Weights
base_weights = record { miss = 400; small = 300; equal = 200; medium = 90; jackpot = 10 }

-- `Math.round(factor * k)`, `factor` in hundredths and `k` in tenths, in tenths.
abbrev rounded : ℕ → ℕ → ℕ
rounded factor k = (factor * k + 500) / 1000 * 10

-- `Math.min(5.0, ...)`
abbrev factor : ℕ → ℕ
factor gap = min 500 gap

unfoldable pub boosted : ℕ → Weights
boosted f = record base_weights {
  medium = 90 + rounded f 15;
  jackpot = 10 + rounded f 5;
  miss = max 100 (400 - rounded f 20);
}

unfoldable pub reduced : ℕ → Weights
reduced f = record base_weights {
  medium = max 20 (90 - rounded f 12);
  jackpot = max 1 (10 - rounded f 4);
  miss = 400 + rounded f 16;
}

-- `getDynamicStepMultipliers`
unfoldable pub get_dynamic_step_multipliers : ℕ → ℕ → Weights
unfolding boosted reduced
get_dynamic_step_multipliers current target =
    if ltb (current + 200) target
    then boosted (factor (target - current))
    else if ltb (target + 200) current
    then reduced (factor (current - target))
    else base_weights

abbrev pub total_weight : Weights → ℕ
total_weight w = w.miss + w.small + w.equal + w.medium + w.jackpot

-- The multiplier, in tenths, of the first step whose cumulative weight is not below `bound`, which is
-- `rand * totalWeight` with both sides in millionths.
unfoldable pub selected_multiplier : Weights → ℕ → ℕ
selected_multiplier w rand =
    let unit : ℕ = 1000000 in
    let bound = rand * total_weight w in
    if leb bound (w.miss * unit)
    then 0
    else if leb bound ((w.miss + w.small) * unit)
    then 5
    else if leb bound ((w.miss + w.small + w.equal) * unit)
    then 10
    else if leb bound ((w.miss + w.small + w.equal + w.medium) * unit)
    then 25
    else if leb bound (total_weight w * unit)
    then 100
    else 0

-- `rewardCoins` of `calculateSingleReward`.
unfoldable pub calculate_single_reward : ℕ → ℕ → ℕ → ℕ → ℕ
calculate_single_reward cost current target rand =
    cost * selected_multiplier (get_dynamic_step_multipliers current target) rand / 10
