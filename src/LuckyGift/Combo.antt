-- ===== src/LuckyGift/Combo.antt =====
-- `calculateComboReward` of src/modules/luckyGift/luckyReward.engine.js with the odds of
-- src/config/luckyGift.config.js. Ratios are in hundredths, returns to players (RTP) in hundredths of a
-- percent, and a draw of `_random() * 100` in millionths, all exact. The random numbers are arguments.
pub mod Breakdown
pub mod Steering
use live_server.Common.{
  ℕ, zero, suc, ◌+◌, ◌-◌, ◌*◌, ◌/◌, min, max, Bool, true, false, Option, none, some, List, [], ◌∷◌,
  ltb, leb, if◌then◌else◌, length, replicate, sum,
}

pub data CategoryId : Type 0 where
  miss unlucky normal break_even winner : CategoryId

pub record Category : Type 0 where
  pub id : CategoryId
  pub return_ratio : ℕ
  pub weight : ℕ

abbrev category : CategoryId → ℕ → ℕ → Category
category id ratio weight = record { id = id; return_ratio = ratio; weight = weight }

-- LUCKY_GIFT_CONFIG.comboOdds
unfoldable pub combo_odds : List Category
combo_odds =
    category miss 0 20
    ∷ category unlucky 50 25
    ∷ category normal 90 35
    ∷ category break_even 100 15
    ∷ category winner 150 5
    ∷ []

-- LEGACY_COMBO_REDUCE_WEIGHTS
unfoldable pub reduce_weight : CategoryId → ℕ
reduce_weight miss = 28
reduce_weight unlucky = 27
reduce_weight normal = 32
reduce_weight break_even = 11
reduce_weight winner = 2

-- The `multiplierNudge`: zero, up, or down with the `buggyFloor`, if there is one.
pub data Nudge : Type 0 where
  no_nudge : Nudge
  up : ℕ → Nudge
  down : ℕ → Option ℕ → Nudge

reweighted : List Category → List Category
reweighted [] = []
reweighted (c ∷ cs) = record c { weight = reduce_weight c.id } ∷ reweighted cs

-- `comboOddsForDraw`; `fix` is `isLegacyComboReduceFixEnabled()`.
unfoldable pub combo_odds_for_draw : Bool → ℕ → ℕ → List Category × Nudge
unfolding reweighted combo_odds reduce_weight
combo_odds_for_draw fix current_rtp target_rtp =
    if ltb (target_rtp + 200) current_rtp
    then (if fix then (reweighted combo_odds, no_nudge) else (combo_odds, down 5 (some 50)))
    else if ltb (current_rtp + 200) target_rtp
    then (combo_odds, up 5)
    else (combo_odds, no_nudge)

abbrev pub draw_unit : ℕ
draw_unit = 1000000

-- The first category whose cumulative weight is not below the draw.
select : List Category → ℕ → ℕ → Category → Category
select [] rand cumulative fallback = fallback
select (c ∷ cs) rand cumulative fallback =
    let rest = select cs rand (cumulative + c.weight) fallback in
    if leb rand ((cumulative + c.weight) * draw_unit) then c else rest

-- `odds[1] || odds[0]`
fallback_of : List Category → Category
fallback_of [] = category miss 0 0
fallback_of (c ∷ []) = c
fallback_of (c ∷ d ∷ cs) = d

nudged : Nudge → ℕ → ℕ
nudged no_nudge m = m
nudged (up n) m = m + n
nudged (down n none) m = m - n
nudged (down n (some floor)) m = max floor (m - n)

-- `Math.round(cost * m)` for a ratio in hundredths.
abbrev pub rounded : ℕ → ℕ → ℕ
rounded cost m = (cost * m + 50) / 100

unfoldable pub return_multiplier : List Category × Nudge → ℕ → ℕ
unfolding select fallback_of nudged
return_multiplier (odds, nudge) rand =
    nudged nudge (select odds rand 0 (fallback_of odds)).return_ratio

-- `Math.round((w / weightSum) * total)`
abbrev step_share : ℕ → ℕ → ℕ → ℕ
step_share w weight_sum total = (2 * w * total + weight_sum) / (2 * weight_sum)

-- The loop over the steps; the last one gets what remains.
split : List ℕ → ℕ → ℕ → ℕ → List ℕ
split [] weight_sum total remaining = []
split (w ∷ []) weight_sum total remaining = remaining ∷ []
split (w ∷ v ∷ ws) weight_sum total remaining =
    let actual = min (step_share w weight_sum total) remaining in
    actual ∷ split (v ∷ ws) weight_sum total (remaining - actual)

-- `breakdownArray` for the step weights, one for each step.
unfoldable pub breakdown : List ℕ → ℕ → List ℕ
unfolding split
breakdown weights total =
    if ltb 0 total then split weights (sum weights) total total else replicate (length weights) 0

pub record ComboReward : Type 0 where
  pub total_cost : ℕ
  pub total_reward : ℕ
  pub breakdown_array : List ℕ

pub record Combo : Type 0 where
  pub gift_coin_cost : ℕ
  pub combo_count : ℕ
  pub current_rtp : ℕ
  pub target_rtp : ℕ
  pub fix_enabled : Bool

-- `rand` is the first draw, `weights` the later ones plus 0.1 each, of which the steps take
-- `min(10, count)`.
step_weights : (ℕ → ℕ) → ℕ → List ℕ
step_weights weights zero = []
step_weights weights (suc n) = weights zero ∷ step_weights (λ i. weights (suc i)) n

unfoldable pub calculate_combo_reward : Combo → ℕ → (ℕ → ℕ) → ComboReward
unfolding step_weights
calculate_combo_reward c rand weights =
    let total_cost = c.gift_coin_cost * c.combo_count in
    let odds = combo_odds_for_draw c.fix_enabled c.current_rtp c.target_rtp in
    let total_reward = rounded total_cost (return_multiplier odds rand) in
    record {
      total_cost = total_cost;
      total_reward = total_reward;
      breakdown_array = breakdown (step_weights weights (min 10 c.combo_count)) total_reward;
    }
