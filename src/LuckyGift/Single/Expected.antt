-- ===== src/LuckyGift/Single/Expected.antt =====
-- On `calculateSingleReward` of src/modules/luckyGift/luckyReward.engine.js. What a single lucky
-- gift returns on average.
use live_server.Common.{ℕ, ◌+◌, ◌-◌, ◌*◌, ◌≤◌, ◌<◌, ◌≡◌, arith, min, ltb, false, lt→ltb}
use live_server.LuckyGift.Single.{
  Weights, base_weights, boosted, reduced, get_dynamic_step_multipliers, total_weight,
}

-- The sum of the multipliers, each as often as its weight.
abbrev pub weighted_return : Weights → ℕ
weighted_return w = w.small * 5 + w.equal * 10 + w.medium * 25 + w.jackpot * 100

boosted_return :
    (f : ℕ)
    → 200 < f
    → f ≤ 500
    → weighted_return base_weights * total_weight (boosted f)
      ≤ weighted_return (boosted f) * total_weight base_weights
unfolding boosted
boosted_return f a b = omega arith

reduced_return :
    (f : ℕ)
    → 200 < f
    → f ≤ 500
    → weighted_return (reduced f) * total_weight base_weights
      ≤ weighted_return base_weights * total_weight (reduced f)
unfolding reduced
reduced_return f a b = omega arith

-- A single gift, when the measured return is more than 2 % below the target: the expected multiplier
-- (the weighted return over the total weight) is at least the one of the configured odds.
pub single_boosted :
    (current target : ℕ)
    → current + 200 < target
    → let w = get_dynamic_step_multipliers current target in
      weighted_return base_weights * total_weight w ≤ weighted_return w * total_weight base_weights
unfolding get_dynamic_step_multipliers
single_boosted current target h =
    rw (lt→ltb (current + 200) target h)
      (boosted_return (min 500 (target - current)) (omega arith) (omega arith))

-- A single gift, when the measured return is more than 2 % above the target: the expected multiplier is
-- at most the one of the configured odds.
pub single_reduced :
    (current target : ℕ)
    → target + 200 < current
    → let w = get_dynamic_step_multipliers current target in
      weighted_return w * total_weight base_weights ≤ weighted_return base_weights * total_weight w
unfolding get_dynamic_step_multipliers
single_reduced current target h =
    let no : ltb (current + 200) target ≡ false = ground arith in
    rw no (
      rw (lt→ltb (target + 200) current h)
        (reduced_return (min 500 (current - target)) (omega arith) (omega arith)))
